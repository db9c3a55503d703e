-- ===== src/Cryptor/Keeping.antt =====
-- Which members of a `Cryptor` its operations leave as they are.
use shadowc.Base.{
  ◌≡◌, refl, ◌∙◌, sym, ap, inl, inr, true, Bool, Option, none, some, Bytes, length, drop, ◌==◌,
  Bool-cases, Option-cases,
}
use shadowc.Base.Text.{codes}
use shadowc.Memory.{ok, load_n}
use shadowc.Memory.Laws.{>>=-eq-ok, ok-injective}
use shadowc.Cryptor.{
  Cryptor, Pointer, owned, cipher_enc_decryption, make_cipher, derive_cipher, get_cipher, update_at,
  load_pointer, encrypt, decrypt, decrypt_payload, start_decipher,
}
use shadowc.Cryptor.Openssl.{Evp, OpensslCrypto}
use shadowc.Cryptor.Openssl
use shadowc.Cryptor.Duplex.{with_sender, with_receiver}

module _ (evp : Evp) where
  open evp use {Cipher, Digest, Ctx}

  -- A change of the sender's members alone.
  only_sender :
      (p : Option (OpensslCrypto Ctx)) (q : Bool) (c : Cryptor Ctx) {c' : Cryptor Ctx}
      → with_sender evp p q c ≡ c'
      → c' ≡ with_sender evp c'.cipher c'.iv_sent c
  only_sender p q c e = sym e ∙ λ i. with_sender evp (e i).cipher (e i).iv_sent c

  only_receiver :
      (d : Option (OpensslCrypto Ctx)) (v : Pointer) (c : Cryptor Ctx) {c' : Cryptor Ctx}
      → with_receiver evp d v c ≡ c'
      → c' ≡ with_receiver evp c'.decipher c'.decipher_iv c
  only_receiver d v c e = sym e ∙ λ i. with_receiver evp (e i).decipher (e i).decipher_iv c

  first_of {ℓ} : {A : Type ℓ} {p p' : Cryptor Ctx × A} → ok p ≡ ok p' → p.0 ≡ p'.0
  first_of {p} {p'} e = ap (λ (r : Cryptor Ctx × _). r.0) (ok-injective p p' e)

  pub encrypt-only_sender :
      (c : Cryptor Ctx) (x : Bytes) {c' : Cryptor Ctx} {out : Option Bytes}
      → encrypt evp c x ≡ ok (c', out)
      → c' ≡ with_sender evp c'.cipher c'.iv_sent c
  unfolding encrypt
  encrypt-only_sender c x h = elim (Bool-cases (length x == 0)) [
    | inl e ↦ only_sender c.cipher c.iv_sent c (first_of (rw (e, encrypt) at h))
    | inr e ↦ elim (Bool-cases c.iv_sent) [
      | inl s ↦
          let ((crypto, o), run, done) =
            >>=-eq-ok (update_at evp c.cipher x) _ (rw (e, encrypt, s) at h) in
          only_sender (some crypto) c.iv_sent c (first_of done)
      | inr s ↦
          let (iv, read, h') =
            >>=-eq-ok (load_pointer c.cipher_iv_len c.cipher_iv) _ (rw (e, encrypt, s) at h) in
          let ((crypto, o), run, done) = >>=-eq-ok (update_at evp c.cipher x) _ h' in
          only_sender (some crypto) true c (first_of done)
    ]
  ]

  -- The length is that of the method's initialisation vector, as the constructor leaves it.
  abbrev pub IsSized : Cryptor Ctx → Type 0
  IsSized c =
      (cipher : Cipher)
      → evp.cipher_by_name c.method ≡ some cipher
      → c.cipher_iv_len ≡ evp.iv_len cipher

  derive_cipher-kept :
      (c : Cryptor Ctx) (dgst : Option Digest) (cipher : Option Cipher) (password method iv : Bytes)
      {c' : Cryptor Ctx} {o : Option (OpensslCrypto Ctx)}
      → ((x : Cipher) → cipher ≡ some x → c.cipher_iv_len ≡ evp.iv_len x)
      → derive_cipher evp c dgst cipher password method cipher_enc_decryption iv ≡ ok (c', o)
      → c ≡ c'
  unfolding derive_cipher make_cipher
  derive_cipher-kept c none cipher password method iv sized h = first_of h
  derive_cipher-kept c (some dgst) none password method iv sized h = absurd (cc)
  derive_cipher-kept c (some dgst) (some cipher) password method iv sized h =
      elim (Option-cases (evp.bytes_to_key cipher dgst password)) [
        | inl e ↦ first_of (rw (e, derive_cipher) at h)
        | inr (key, e) ↦
            let (crypto, run, done) =
              >>=-eq-ok (Openssl.create evp method key iv cipher_enc_decryption) _
                (rw (e, derive_cipher) at h) in
            (λ i. record c { cipher_iv_len = sized cipher refl i }) ∙ first_of done
      ]

  start_decipher-only_receiver :
      (c : Cryptor Ctx) (y : Bytes) {c' : Cryptor Ctx}
      → IsSized c
      → start_decipher evp c y ≡ ok c'
      → c' ≡ with_receiver evp c'.decipher c'.decipher_iv c
  unfolding start_decipher get_cipher
  start_decipher-only_receiver c y sized h =
      let (iv, read, h') = >>=-eq-ok (load_n c.cipher_iv_len y) _ h in
      let started : Cryptor Ctx = record c { decipher_iv = owned iv } in
      let ((c₁, d), made, done) =
        >>=-eq-ok (get_cipher evp started c.password c.method cipher_enc_decryption iv) _ h' in
      let same : started ≡ c₁ =
        derive_cipher-kept started (evp.digest_by_name (codes "md5")) (evp.cipher_by_name c.method)
          c.password c.method iv sized made in
      only_receiver d (owned iv) c ((λ i. record (same i) { decipher = d }) ∙ ok-injective _ _ done)

  decrypt_payload-only_receiver :
      (c : Cryptor Ctx) (y : Bytes) {c' : Cryptor Ctx} {out : Option Bytes}
      → decrypt_payload evp c y ≡ ok (c', out)
      → c' ≡ with_receiver evp c'.decipher c'.decipher_iv c
  unfolding decrypt_payload
  decrypt_payload-only_receiver c y h = elim (Bool-cases (length y == 0)) [
    | inl e ↦ only_receiver c.decipher c.decipher_iv c (first_of (rw (e, decrypt_payload) at h))
    | inr e ↦
        let ((crypto, o), run, done) =
          >>=-eq-ok (update_at evp c.decipher y) _ (rw (e, decrypt_payload) at h) in
        only_receiver (some crypto) c.decipher_iv c (first_of done)
  ]

  pub decrypt-only_receiver :
      (c : Cryptor Ctx) (y : Bytes) {c' : Cryptor Ctx} {out : Option Bytes}
      → IsSized c
      → decrypt evp c y ≡ ok (c', out)
      → c' ≡ with_receiver evp c'.decipher c'.decipher_iv c
  unfolding decrypt
  decrypt-only_receiver c y {c'} sized h = elim (Bool-cases (length y == 0)) [
    | inl e ↦ only_receiver c.decipher c.decipher_iv c (first_of (rw (e, decrypt) at h))
    | inr e ↦ elim (Option-cases c.decipher) [
      | inr (crypto, d) ↦ decrypt_payload-only_receiver c y (rw (e, decrypt, d) at h)
      | inl d ↦
          let (c₁, start, h') = >>=-eq-ok (start_decipher evp c y) _ (rw (e, decrypt, d) at h) in
          let first = start_decipher-only_receiver c y sized start in
          let last = decrypt_payload-only_receiver c₁ (drop c₁.cipher_iv_len y) h' in
          last ∙ λ i. with_receiver evp c'.decipher c'.decipher_iv (first i)
    ]
  ]
