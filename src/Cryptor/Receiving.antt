-- ===== src/Cryptor/Receiving.antt =====
-- What a receiver makes of the pieces that arrive.
use shadowc.Base.{
  ℕ, ◌≡◌, refl, ◌∙◌, sym, Option-cases, ap, inl, inr, true, false, Option, none, some, List, [],
  ◌∷◌, ◌++◌, Bytes, length, drop, drop-append_left, length-append, ◌==◌, ne→==, arith,
}
use shadowc.Memory.{Outcome, ok, ◌>>=◌}
use shadowc.Cryptor.{
  Cryptor, null, owned, create, decrypt, decrypt_payload, or_nothing, cipher_enc_decryption,
}
use shadowc.Cryptor.Openssl.{Evp, OpensslCrypto}
use shadowc.Cryptor.Openssl
use shadowc.Cryptor.Setup.{IsReady, IsNew, create-IsNew, receiving, start_decipher_lem}
use shadowc.Memory.Laws.{ok-injective}

-- A call of `EVP_EncryptUpdate`, refused or not.
abbrev pub updated : (evp : Evp) → evp.Ctx → Bytes → evp.Ctx × Option Bytes
updated evp d x = elim (evp.encrypt_update d x) [
  | none ↦ evp.refused_update d x
  | some (d', out) ↦ (d', some out)
]

-- One call for each piece that is not empty, in order.
abbrev pub updates : (evp : Evp) → evp.Ctx → List Bytes → evp.Ctx × Bytes
updates evp d [] = (d, [])
updates evp d ([] ∷ xs) = updates evp d xs
updates evp d ((y ∷ x) ∷ xs) =
    let (d', out) = updated evp d (y ∷ x) in
    let (d'', more) = updates evp d' xs in (d'', or_nothing evp out ++ more)

update-updated :
    (evp : Evp) (d : evp.Ctx) (x : Bytes)
    → let (d', out) = updated evp d x in
      Openssl.update evp (record { cipher_ctx = some d }) x
      ≡ ok (record { cipher_ctx = some d' }, out)
unfolding Openssl.update
update-updated evp d x = elim (Option-cases (evp.encrypt_update d x)) [
  | inl e ↦ rw (e, Openssl.update_ctx, updated)
  | inr (p, e) ↦ rw (e, Openssl.update_ctx, updated)
]

nonempty : (y : ℕ) (x : Bytes) → (length (y ∷ x) == 0) ≡ false
nonempty y x = ne→== _ 0 (λ z. omega arith)

module _ (evp : Evp) where
  -- What a receiver makes of the pieces that arrive.
  unfoldable pub decrypt_all : Cryptor evp.Ctx → List Bytes → Outcome (Cryptor evp.Ctx × Bytes)
  decrypt_all c [] = ok (c, [])
  decrypt_all c (x ∷ xs) = do
    (c', out) ← decrypt evp c x
    (c'', more) ← decrypt_all c' xs
    ok (c'', or_nothing evp out ++ more)

  decrypt_payload_empty :
      (c : Cryptor evp.Ctx) (x : Bytes)
      → (length x == 0) ≡ true
      → decrypt_payload evp c x ≡ ok (c, some [])
  unfolding decrypt_payload
  decrypt_payload_empty c x h = rw (h, decrypt_payload)

  decrypt_payload-receiving :
      (c : Cryptor evp.Ctx) (d : evp.Ctx) (y : ℕ) (x : Bytes)
      → let (d', out) = updated evp d (y ∷ x) in
        decrypt_payload evp (receiving evp c d) (y ∷ x) ≡ ok (receiving evp c d', out)
  unfolding decrypt_payload
  decrypt_payload-receiving c d y x =
      rw (nonempty y x, decrypt_payload, update-updated evp d (y ∷ x))

  decrypt_empty :
      (c : Cryptor evp.Ctx) (x : Bytes) → (length x == 0) ≡ true → decrypt evp c x ≡ ok (c, some [])
  unfolding decrypt
  decrypt_empty c x h = rw (h, decrypt)

  -- Once there is a context, `decrypt` has nothing but payload.
  decrypt-receiving :
      (c : Cryptor evp.Ctx) (d : evp.Ctx) (x : Bytes)
      → decrypt evp (receiving evp c d) x ≡ decrypt_payload evp (receiving evp c d) x
  unfolding decrypt decrypt_payload
  decrypt-receiving c d [] = refl
  decrypt-receiving c d (y ∷ x) = rw (nonempty y x, decrypt)

  decrypt_all_cons :
      (c : Cryptor evp.Ctx) (x : Bytes) (xs : List Bytes) (o : Option Bytes)
      {c' c'' : Cryptor evp.Ctx} {more : Bytes}
      → decrypt evp c x ≡ ok (c', o)
      → decrypt_all c' xs ≡ ok (c'', more)
      → decrypt_all c (x ∷ xs) ≡ ok (c'', or_nothing evp o ++ more)
  unfolding decrypt_all
  decrypt_all_cons c x xs o h k = rw (h, ◌>>=◌, k)

module _ {evp : Evp} {password method : Bytes} (law : IsReady evp password method) where
  decrypt_all-receiving :
      (c : Cryptor evp.Ctx) (d : evp.Ctx) (xs : List Bytes)
      → let (d', out) = updates evp d xs in
        decrypt_all evp (receiving evp c d) xs ≡ ok (receiving evp c d', out)
  unfolding decrypt_all
  decrypt_all-receiving c d [] = refl
  decrypt_all-receiving c d ([] ∷ xs) =
      decrypt_all_cons evp (receiving evp c d) [] xs (some [])
        (decrypt_empty evp (receiving evp c d) [] refl) (decrypt_all-receiving c d xs)
  decrypt_all-receiving c d ((y ∷ x) ∷ xs) =
      let (d', out) = updated evp d (y ∷ x) in
      decrypt_all_cons evp (receiving evp c d) (y ∷ x) xs out
        (decrypt-receiving evp c d (y ∷ x) ∙ decrypt_payload-receiving evp c d y x)
        (decrypt_all-receiving c d' xs)

  decrypt_first :
      (c : Cryptor evp.Ctx) (own iv x : Bytes) {e d : evp.Ctx}
      → IsNew law c own e
      → length iv ≡ evp.iv_len law.cipher
      → evp.cipher_init law.ctx law.cipher law.key iv cipher_enc_decryption ≡ some d
      → decrypt evp c (iv ++ x)
        ≡ decrypt_payload evp
            (receiving evp
              (record c { decipher_iv = owned iv; cipher_iv_len = evp.iv_len law.cipher })
              d)
            x
  unfolding decrypt
  decrypt_first c own iv x new v i =
      let full : (length (iv ++ x) == 0) ≡ false =
        ne→== _ 0 (λ z. omega (arith, length-append iv x, law.iv_pos)) in
      let rest : drop (evp.iv_len law.cipher) (iv ++ x) ≡ x = rw (← v) (drop-append_left iv x) in
      rw (full, decrypt, new.undeciphered, ◌>>=◌, start_decipher_lem law c own iv x new v i, rest)

  -- Over a library that knows the method and the digest and can make contexts for them, let a
  -- `Cryptor` be made with 16 random bytes, in memory with NULL in `cipher_iv`, and let the library
  -- make a context for decryption with a vector of the cipher's length. Pieces of which the first
  -- starts with that vector are taken without a fault. The result is what the library's
  -- `EVP_EncryptUpdate` gives on that context for the rest of the first piece and then for each
  -- later piece, in order, without the empty ones; whether the library decrypts with that call, and
  -- whether it refuses it, is left open.
  pub decrypt_all-updates :
      (random iv x : Bytes) (pieces : List Bytes) (receiver : Cryptor evp.Ctx) (d : evp.Ctx)
      → length random ≡ 16
      → create evp null random password method ≡ ok receiver
      → length iv ≡ evp.iv_len law.cipher
      → evp.cipher_init law.ctx law.cipher law.key iv cipher_enc_decryption ≡ some d
      → (receiver' : Cryptor evp.Ctx) × (decrypt_all evp receiver ((iv ++ x) ∷ pieces)
          ≡ ok (receiver', (updates evp d (x ∷ pieces)).1))
  unfolding decrypt_all
  decrypt_all-updates random iv x pieces receiver d r s v i =
      let (_, c, made, new, _) = create-IsNew law random r in
      let is_receiver : c ≡ receiver = ok-injective c receiver (sym made ∙ s) in
      let base : Cryptor evp.Ctx = record c {
        decipher_iv = owned iv;
        cipher_iv_len = evp.iv_len law.cipher;
      } in
      (
        receiving evp base (updates evp d (x ∷ pieces)).0,
        ap (λ (c : Cryptor evp.Ctx). decrypt_all evp c ((iv ++ x) ∷ pieces)) (sym is_receiver)
            ∙ ap
                (λ o. o >>= λ p.
                  decrypt_all evp p.0 pieces >>= λ q. ok (q.0, or_nothing evp p.1 ++ q.1))
                (decrypt_first c _ iv x new v i ∙ sym (decrypt-receiving evp base d x))
            ∙ decrypt_all-receiving base d (x ∷ pieces),
      )
