-- ===== src/Cryptor/Defects.antt =====
-- Where `Cryptor` leaves what C++ and OpenSSL define.
use shadowc.Base.{
  ℕ, ◌<◌, ◌≡◌, ◌∙◌, sym, ap, false, none, some, Bytes, length, length-take_of_le, take, ◌==◌, ne→==,
  arith,
}
use shadowc.Memory.{ok, fault, invalid_free, null_dereference, out_of_bounds_read, ◌>>=◌, load_n}
use shadowc.Memory.Laws.{ok-injective, load_n-take, load_n_short}
use shadowc.Base.Text.{codes}
use shadowc.Cryptor.{
  Cryptor, null, wild, create, decrypt, get_cipher, derive_cipher, cipher_enc_encryption,
}
use shadowc.Cryptor.Openssl.{Evp}
use shadowc.Cryptor.Setup.{IsReady, create-IsNew, openssl_create}

-- A method that OpenSSL does not know makes the constructor read through NULL.
create_unknown_method :
    (evp : Evp) (random password method : Bytes) (md5 : evp.Digest)
    → evp.digest_by_name (codes "md5") ≡ some md5
    → evp.cipher_by_name method ≡ none
    → create evp null random password method ≡ fault null_dereference
unfolding create get_cipher
create_unknown_method evp random password method md5 d c = rw (d, c, derive_cipher)

module _ (evp : Evp) {password method : Bytes} (law : IsReady evp password method) where
  -- The constructor frees what `cipher_iv` held before anything is assigned to it: if that is not
  -- NULL it is an invalid free, even where OpenSSL knows and does all that it is asked for and 16
  -- random bytes are there.
  pub create_wild :
      (random : Bytes)
      → length random ≡ 16
      → create evp wild random password method ≡ fault invalid_free
  unfolding create get_cipher
  create_wild random r =
      let n : ℕ = evp.iv_len law.cipher in
      let (e, init) =
        law.init_encryption (take n random)
          (length-take_of_le n random (omega (arith, law.iv_fits))) in
      let read = load_n-take n random (omega (arith, law.iv_fits)) in
      let crypto = openssl_create law random (take n random) cipher_enc_encryption read init in
      rw (law.known_digest, law.known_cipher, derive_cipher, law.has_key, crypto, ◌>>=◌, read)

  -- A `Cryptor` that was made in memory with NULL in `cipher_iv` reads a first piece that is not
  -- empty, but shorter than the initialisation vector, past its end.
  pub decrypt_short :
      (random piece : Bytes) (receiver : Cryptor evp.Ctx)
      → length random ≡ 16
      → create evp null random password method ≡ ok receiver
      → 0 < length piece
      → length piece < evp.iv_len law.cipher
      → decrypt evp receiver piece ≡ fault out_of_bounds_read
  unfolding decrypt
  decrypt_short random piece receiver r s h k =
      let (_, c, run, new, _) = create-IsNew law random r in
      let is_receiver : c ≡ receiver = ok-injective c receiver (sym run ∙ s) in
      let full : (length piece == 0) ≡ false = ne→== _ 0 (λ z. omega arith) in
      let read : load_n c.cipher_iv_len piece ≡ fault out_of_bounds_read =
        load_n_short c.cipher_iv_len piece (omega (arith, new.fresh.has_len, new.iv_len_is)) in
      let on_new : decrypt evp c piece ≡ fault out_of_bounds_read =
        rw (full, decrypt, new.undeciphered, ◌>>=◌, read) in
      ap (λ (x : Cryptor evp.Ctx). decrypt evp x piece) (sym is_receiver) ∙ on_new
