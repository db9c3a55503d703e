-- ===== src/Cryptor/Duplex.antt =====
-- A `Cryptor` that serves both directions of a connection at once: `encrypt` and `decrypt` work on
-- members of their own.
use shadowc.Base.{
  ◌≡◌, refl, ◌∙◌, sym, ap, inl, inr, Bool, Option, none, some, Bytes, length, drop, ◌==◌,
  Bool-cases, Option-cases,
}
use shadowc.Base.Text.{codes}
use shadowc.Memory.{Outcome, ok, fault, no_fuel, ◌>>=◌, load_n}
use shadowc.Memory.Laws.{>>=-assoc}
use shadowc.Cryptor.{
  Cryptor, Pointer, owned, cipher_enc_decryption, make_cipher, derive_cipher, get_cipher, update_at,
  load_pointer, encrypt, decrypt, decrypt_payload, start_decipher,
}
use shadowc.Cryptor.Openssl.{Evp, OpensslCrypto}
use shadowc.Cryptor.Openssl

>>=-cong {ℓ κ} :
    {A : Type ℓ} {B : Type κ} (m : Outcome A) (f g : A → Outcome B)
    → ((a : A) → f a ≡ g a)
    → (m >>= f) ≡ (m >>= g)
>>=-cong (ok a) f g h = h a
>>=-cong (fault e) f g h = refl
>>=-cong no_fuel f g h = refl

module _ (evp : Evp) where
  open evp use {Cipher, Digest, Ctx}

  -- The members that `encrypt` changes, and those that `decrypt` changes.
  abbrev pub with_sender : Option (OpensslCrypto Ctx) → Bool → Cryptor Ctx → Cryptor Ctx
  with_sender p q c = record c { cipher = p; iv_sent = q }

  abbrev pub with_receiver : Option (OpensslCrypto Ctx) → Pointer → Cryptor Ctx → Cryptor Ctx
  with_receiver d iv c = record c { decipher = d; decipher_iv = iv }

  -- The same, with the members changed in the end.
  abbrev pub changed {ℓ} :
      {A : Type ℓ}
      → (Cryptor Ctx → Cryptor Ctx)
      → Outcome (Cryptor Ctx × A)
      → Outcome (Cryptor Ctx × A)
  changed f o = o >>= λ (c, a). ok (f c, a)

  module _ (p : Option (OpensslCrypto Ctx)) (q : Bool) where
    derive_cipher-with_sender :
        (c : Cryptor Ctx) (dgst : Option Digest) (cipher : Option Cipher)
        (password method iv : Bytes)
        → derive_cipher evp (with_sender p q c) dgst cipher password method cipher_enc_decryption iv
          ≡ changed
              (with_sender p q)
              (derive_cipher evp c dgst cipher password method cipher_enc_decryption iv)
    unfolding derive_cipher make_cipher
    derive_cipher-with_sender c none cipher password method iv = refl
    derive_cipher-with_sender c (some dgst) none password method iv = refl
    derive_cipher-with_sender c (some dgst) (some cipher) password method iv =
        elim (Option-cases (evp.bytes_to_key cipher dgst password)) [
          | inl e ↦ rw (e, derive_cipher) refl
          | inr (key, e) ↦
              rw (e, derive_cipher, make_cipher)
                (sym (>>=-assoc (Openssl.create evp method key iv cipher_enc_decryption) _ _))
        ]

    start_decipher-with_sender :
        (c : Cryptor Ctx) (y : Bytes)
        → start_decipher evp (with_sender p q c) y
          ≡ (start_decipher evp c y >>= λ c'. ok (with_sender p q c'))
    unfolding start_decipher get_cipher
    start_decipher-with_sender c y =
        >>=-cong (load_n c.cipher_iv_len y) _ _ (λ iv.
          let started : Cryptor Ctx = record c { decipher_iv = owned iv } in
          let made = get_cipher evp started c.password c.method cipher_enc_decryption iv in
          ap (λ o. o >>= put_decipher)
            (derive_cipher-with_sender started (evp.digest_by_name (codes "md5"))
              (Openssl.get_cipher_by_name evp c.method) c.password c.method iv)
          ∙ >>=-assoc made _ put_decipher
          ∙ sym (>>=-assoc made put_decipher (λ c'. ok (with_sender p q c'))))
        ∙ sym (>>=-assoc (load_n c.cipher_iv_len y) _ _)
      where
        put_decipher : Cryptor Ctx × Option (OpensslCrypto Ctx) → Outcome (Cryptor Ctx)
        put_decipher (c', decipher) = ok (record c' { decipher = decipher })

    decrypt_payload-with_sender :
        (c : Cryptor Ctx) (y : Bytes)
        → decrypt_payload evp (with_sender p q c) y
          ≡ changed (with_sender p q) (decrypt_payload evp c y)
    unfolding decrypt_payload
    decrypt_payload-with_sender c y = elim (Bool-cases (length y == 0)) [
      | inl e ↦ rw (e, decrypt_payload) refl
      | inr e ↦ rw (e, decrypt_payload) (sym (>>=-assoc (update_at evp c.decipher y) _ _))
    ]

    pub decrypt-with_sender :
        (c : Cryptor Ctx) (y : Bytes)
        → decrypt evp (with_sender p q c) y ≡ changed (with_sender p q) (decrypt evp c y)
    unfolding decrypt
    decrypt-with_sender c y = elim (Bool-cases (length y == 0)) [
      | inl e ↦ rw (e, decrypt) refl
      | inr e ↦ elim (Option-cases c.decipher) [
        | inr (crypto, d) ↦ rw (e, decrypt, d) (decrypt_payload-with_sender c y)
        | inl d ↦
            rw (e, decrypt, d)
              (ap (λ o. o >>= λ c'. decrypt_payload evp c' (drop c'.cipher_iv_len y))
                  (start_decipher-with_sender c y)
                ∙ >>=-assoc (start_decipher evp c y) _ _
                ∙ >>=-cong (start_decipher evp c y) _ _
                    (λ c'. decrypt_payload-with_sender c' (drop c'.cipher_iv_len y))
                ∙ sym (>>=-assoc (start_decipher evp c y) _ _))
      ]
    ]

  pub encrypt-with_receiver :
      (d : Option (OpensslCrypto Ctx)) (v : Pointer) (c : Cryptor Ctx) (x : Bytes)
      → encrypt evp (with_receiver d v c) x ≡ changed (with_receiver d v) (encrypt evp c x)
  unfolding encrypt
  encrypt-with_receiver d v c x = elim (Bool-cases (length x == 0)) [
    | inl e ↦ rw (e, encrypt) refl
    | inr e ↦ elim (Bool-cases c.iv_sent) [
      | inl s ↦ rw (e, encrypt, s) (sym (>>=-assoc (update_at evp c.cipher x) _ _))
      | inr s ↦
          rw (e, encrypt, s)
            (>>=-cong (load_pointer c.cipher_iv_len c.cipher_iv) _ _
                (λ iv. sym (>>=-assoc (update_at evp c.cipher x) _ _))
              ∙ sym (>>=-assoc (load_pointer c.cipher_iv_len c.cipher_iv) _ _))
    ]
  ]
