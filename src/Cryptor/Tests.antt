-- ===== src/Cryptor/Tests.antt =====
-- A library with one method, whose encryption adds 1 to each byte. Its contexts are that number to
-- add, or the number to take away.
use shadowc.Base.{
  ℕ, ◌+◌, ◌-◌, ◌≡◌, refl, sym, ap, true, false, Option, none, some, [], ◌∷◌, ◌++◌, map, Bytes,
  length, ◌==◌, arith,
}
use shadowc.Base.Text.{codes}
use shadowc.Memory.{ok, fault, invalid_free, out_of_bounds_read, load_n}
use shadowc.Cryptor.{Cryptor, null, wild, owned, create, decrypt, get_cipher, cipher_enc_encryption}
use shadowc.Cryptor.Openssl.{Evp, OpensslCrypto}
use shadowc.Cryptor.Openssl
use shadowc.Cryptor.Setup.{IsReady}
use shadowc.Cryptor.Streams.{IsStream, encrypt_all}
use shadowc.Cryptor.Receiving.{decrypt_all, decrypt_all-updates}
use shadowc.Cryptor.RoundTrip.{decrypt_update-encrypt_all}
use shadowc.Cryptor.Release.{destroy_cryptor, destroy_receiver}
use shadowc.Cryptor.Defects.{create_wild, decrypt_short}

pub data Direction : Type 0 where
  forth back : Direction

abbrev turn : Direction → ℕ → ℕ
turn forth n = n + 1
turn back n = n - 1

turn-turn : (l : Bytes) → map (turn back) (map (turn forth) l) ≡ l
turn-turn [] = refl
turn-turn (x ∷ l) = rw (turn-turn l) (ap (λ (n : ℕ). n ∷ l) (omega arith))

map-append : (f : ℕ → ℕ) (xs ys : Bytes) → map f (xs ++ ys) ≡ map f xs ++ map f ys
map-append f [] ys = refl
map-append f (x ∷ xs) ys = ap (◌∷◌ (f x)) (map-append f xs ys)

abbrev direction : ℕ → Direction
direction op = elim (op == cipher_enc_encryption) [ true ↦ forth | false ↦ back ]

abbrev pub shifting : Evp
shifting = record {
  Cipher = Unit;
  Digest = Unit;
  Ctx = Direction;
  cipher_by_name = λ name. some tt;
  digest_by_name = λ name. some tt;
  iv_len = λ cipher. 2;
  bytes_to_key = λ cipher digest password. some password;
  ctx_new = some forth;
  cipher_init = λ ctx cipher key iv op. some (direction op);
  encrypt_update = λ ctx payload. some (ctx, map (turn ctx) payload);
  decrypt_update = λ ctx payload. some (ctx, map (turn ctx) payload);
  refused_update = λ ctx payload. (ctx, some []);
}

abbrev pub secret : Bytes
secret = codes "pw"

abbrev pub method : Bytes
method = codes "rot"

pub shifting-IsReady : IsReady shifting secret method
shifting-IsReady = record {
  cipher = tt;
  md5 = tt;
  key = secret;
  ctx = forth;
  known_cipher = refl;
  known_digest = refl;
  has_key = refl;
  has_ctx = refl;
  iv_pos = omega arith;
  iv_fits = omega arith;
  init_encryption = λ iv l. (forth, refl);
  init_decryption = λ iv l. (back, refl);
}

abbrev Opposite : Direction → Direction → Type 0
Opposite e d = (e ≡ forth) × (d ≡ back)

shifting-update :
    (e d : Direction) (payload : Bytes)
    → Opposite e d
    → (e' : Direction) × (d' : Direction) × (out : Bytes) × (shifting.encrypt_update e payload
        ≡ some (e', out))
      × (shifting.decrypt_update d out ≡ some (d', payload))
      × Opposite e' d'
shifting-update e d payload (f, b) =
    rw (f, b)
      (
        forth,
        back,
        map (turn forth) payload,
        refl,
        ap (λ (l : Bytes). some (back, l)) (turn-turn payload),
        (refl, refl),
      )

pub shifting-IsStream : IsStream shifting secret method
shifting-IsStream = record {
  ready = shifting-IsReady;
  Synced = Opposite;
  init_synced = λ iv e d f g. (sym (ap (context e) f), sym (ap (context d) g));
  update = shifting-update;
  update_nil = λ e d synced. refl;
  update_append = λ c d xs ys synced. ap (λ (l : Bytes). some (c, l)) (map-append (turn c) xs ys);
}
  where
    context : Direction → Option Direction → Direction
    context e none = e
    context e (some c) = c

abbrev pub sixteen : Bytes
sixteen = 1 ∷ 2 ∷ 3 ∷ 4 ∷ 5 ∷ 6 ∷ 7 ∷ 8 ∷ 9 ∷ 10 ∷ 11 ∷ 12 ∷ 13 ∷ 14 ∷ 15 ∷ 16 ∷ []

abbrev pub zeros : Bytes
zeros = 0 ∷ 0 ∷ 0 ∷ 0 ∷ 0 ∷ 0 ∷ 0 ∷ 0 ∷ 0 ∷ 0 ∷ 0 ∷ 0 ∷ 0 ∷ 0 ∷ 0 ∷ 0 ∷ []

abbrev pub with_iv : Bytes → Cryptor Direction
with_iv iv = record {
  cipher = some (record { cipher_ctx = some forth });
  decipher = none;
  cipher_iv = owned iv;
  decipher_iv = null;
  cipher_iv_len = 2;
  iv_sent = false;
  method = method;
  password = secret;
}

abbrev pub sender_after : Cryptor Direction
sender_after = record {
  cipher = some (record { cipher_ctx = some forth });
  decipher = none;
  cipher_iv = owned (1 ∷ 2 ∷ []);
  decipher_iv = null;
  cipher_iv_len = 2;
  iv_sent = true;
  method = method;
  password = secret;
}

-- A receiver behind its first piece.
abbrev pub receiver_of : Bytes → Cryptor Direction
receiver_of iv = record {
  cipher = some (record { cipher_ctx = some forth });
  decipher = some (record { cipher_ctx = some back });
  cipher_iv = owned (1 ∷ 2 ∷ []);
  decipher_iv = owned iv;
  cipher_iv_len = 2;
  iv_sent = false;
  method = method;
  password = secret;
}

decrypt_update-encrypt_all_example :
    (length {A = ℕ} (1 ∷ 2 ∷ []) ≡ 2)
    × ((sender' : Cryptor Direction) × (out : Bytes) × (d : Direction) × (d' : Direction)
        × (encrypt_all shifting (with_iv (1 ∷ 2 ∷ [])) ((7 ∷ []) ∷ [] ∷ (8 ∷ 9 ∷ []) ∷ [])
            ≡ ok (sender', 1 ∷ 2 ∷ out))
        × (shifting.cipher_init forth tt secret (1 ∷ 2 ∷ []) 0 ≡ some d)
        × (shifting.decrypt_update d out ≡ some (d', 7 ∷ 8 ∷ 9 ∷ [])))
unfolding create get_cipher Openssl.create load_n
decrypt_update-encrypt_all_example =
    decrypt_update-encrypt_all shifting shifting-IsStream sixteen
      ((7 ∷ []) ∷ [] ∷ (8 ∷ 9 ∷ []) ∷ []) (with_iv (1 ∷ 2 ∷ [])) refl refl (λ e. cc)

decrypt_all-updates_example :
    (receiver' : Cryptor Direction) × (decrypt_all shifting
        (with_iv (1 ∷ 2 ∷ []))
        ((0 ∷ 0 ∷ 8 ∷ []) ∷ [] ∷ (9 ∷ 10 ∷ []) ∷ [])
      ≡ ok (receiver', 7 ∷ 8 ∷ 9 ∷ []))
unfolding create get_cipher Openssl.create load_n
decrypt_all-updates_example =
    decrypt_all-updates shifting-IsReady sixteen (0 ∷ 0 ∷ []) (8 ∷ []) ([] ∷ (9 ∷ 10 ∷ []) ∷ [])
      (with_iv (1 ∷ 2 ∷ [])) back refl refl refl refl

create_wild_example : create shifting wild sixteen secret method ≡ fault invalid_free
create_wild_example = create_wild shifting shifting-IsReady sixteen refl

decrypt_short_example : decrypt shifting (with_iv (1 ∷ 2 ∷ [])) (5 ∷ []) ≡ fault out_of_bounds_read
unfolding create get_cipher Openssl.create load_n
decrypt_short_example =
    decrypt_short shifting shifting-IsReady sixteen (5 ∷ []) (with_iv (1 ∷ 2 ∷ [])) refl refl
      (omega arith) (omega arith)

destroy_receiver_example : destroy_cryptor (receiver_of (3 ∷ 4 ∷ [])) ≡ fault invalid_free
unfolding create get_cipher Openssl.create decrypt Openssl.update load_n
destroy_receiver_example =
    destroy_receiver shifting shifting-IsReady sixteen (3 ∷ 4 ∷ []) (5 ∷ []) (with_iv (1 ∷ 2 ∷ []))
      (receiver_of (3 ∷ 4 ∷ [])) refl refl refl refl
