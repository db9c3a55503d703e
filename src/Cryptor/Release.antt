-- ===== src/Cryptor/Release.antt =====
-- The destructor of `Cryptor`, after a sender's and after a receiver's life.
use shadowc.Base.{
  ◌≡◌, ◌⊎◌, refl, ◌∙◌, sym, ap, inl, inr, false, Option, none, some, List, [], ◌∷◌, ◌++◌, Bytes,
  length, length-append, take, drop, drop-append_left, append-nil, ◌==◌, ne→==, Bool-cases, arith,
}
use shadowc.Memory.{Outcome, ok, fault, invalid_free, ◌>>=◌}
use shadowc.Memory.Laws.{>>=-eq-ok, ok-injective}
use shadowc.Cryptor.{
  Cryptor, Pointer, null, wild, owned, create, encrypt, decrypt, decrypt_payload, update_at,
  load_pointer, or_nothing,
}
use shadowc.Cryptor.Openssl.{Evp, OpensslCrypto, update, destroy}
use shadowc.Cryptor.Openssl
use shadowc.Cryptor.Setup.{IsReady, create-IsNew, start_decipher_lem, receiving}
use shadowc.Cryptor.Streams.{encrypt_all}

-- `delete [] p` for a block from `new []`: the block that is given back.
pub delete_array : Pointer → Outcome (List Bytes)
delete_array null = ok []
delete_array wild = fault invalid_free
delete_array (owned block) = ok (block ∷ [])

delete_array-cases :
    (p : Pointer)
    → ((blocks : List Bytes) × (delete_array p ≡ ok blocks)) ⊎ (delete_array p ≡ fault invalid_free)
unfolding delete_array
delete_array-cases null = inl ([], refl)
delete_array-cases wild = inr refl
delete_array-cases (owned block) = inl (block ∷ [], refl)

-- `delete p`. Every block here is from `new []`, for which that is undefined.
pub delete_one : Pointer → Outcome (List Bytes)
delete_one null = ok []
delete_one wild = fault invalid_free
delete_one (owned block) = fault invalid_free

-- What a destructor gives back, in order: contexts of the library, and blocks.
pub record Released (Ctx : Type 0) : Type 0 where
  pub contexts : List Ctx
  pub blocks : List Bytes

module _ {Ctx : Type 0} where
  -- `delete` of a `Crypto*` that may be NULL.
  abbrev pub delete_crypto : Option (OpensslCrypto Ctx) → List Ctx
  delete_crypto none = []
  delete_crypto (some crypto) = Openssl.destroy crypto

  unfoldable pub destroy_cryptor : Cryptor Ctx → Outcome (Released Ctx)
  unfolding delete_array delete_one
  destroy_cryptor c = do
    iv ← delete_array c.cipher_iv
    iv' ← delete_one c.decipher_iv
    ok (record {
      contexts = delete_crypto c.cipher ++ delete_crypto c.decipher;
      blocks = iv ++ iv';
    })

  destroy_cryptor_owned :
      (c : Cryptor Ctx) (block : Bytes)
      → c.decipher_iv ≡ owned block
      → destroy_cryptor c ≡ fault invalid_free
  unfolding destroy_cryptor
  destroy_cryptor_owned c block e = elim (delete_array-cases c.cipher_iv) [
    | inl (blocks, freed) ↦ rw (freed, ◌>>=◌, e)
    | inr broken ↦ rw broken
  ]

  -- What an encryption leaves alone, and what a decryption leaves alone once the vector is known.
  abbrev keys : Cryptor Ctx → Pointer × Option (OpensslCrypto Ctx) × Pointer
  keys c = (c.cipher_iv, c.decipher, c.decipher_iv)

module _ (evp : Evp) where
  encrypt-keys :
      (c : Cryptor evp.Ctx) (x : Bytes) {c' : Cryptor evp.Ctx} {out : Option Bytes}
      → encrypt evp c x ≡ ok (c', out)
      → keys c' ≡ keys c
  unfolding encrypt
  encrypt-keys c x {c'} {out} e = elim (Bool-cases (length x == 0)) [
    | inl empty ↦
        ap (λ p. keys p.0) (sym (ok-injective (c, some []) (c', out) (rw (empty, encrypt) at e)))
    | inr full ↦ elim (Bool-cases c.iv_sent) [
      | inl sent ↦
          let ((cipher, _), _, done) =
            >>=-eq-ok (update_at evp c.cipher x) _ (rw (full, encrypt, sent) at e) in
          ap (λ p. keys p.0) (sym (ok-injective _ (c', out) done))
      | inr unsent ↦
          let (iv, _, f) =
            >>=-eq-ok (load_pointer c.cipher_iv_len c.cipher_iv) _
              (rw (full, encrypt, unsent) at e) in
          let ((cipher, _), _, done) = >>=-eq-ok (update_at evp c.cipher x) _ f in
          ap (λ p. keys p.0) (sym (ok-injective _ (c', out) done))
    ]
  ]

  encrypt_all-keys :
      (c : Cryptor evp.Ctx) (chunks : List Bytes) {c' : Cryptor evp.Ctx} {wire : Bytes}
      → encrypt_all evp c chunks ≡ ok (c', wire)
      → keys c' ≡ keys c
  unfolding encrypt_all
  encrypt_all-keys c [] {c'} {wire} e = ap (λ p. keys p.0) (sym (ok-injective (c, []) (c', wire) e))
  encrypt_all-keys c (x ∷ chunks) {c'} {wire} e =
      let ((c₁, out), step, f) = >>=-eq-ok (encrypt evp c x) _ e in
      let ((c₂, more), rest, done) = >>=-eq-ok (encrypt_all evp c₁ chunks) _ f in
      ap (λ p. keys p.0) (sym (ok-injective (c₂, or_nothing evp out ++ more) (c', wire) done))
      ∙ encrypt_all-keys c₁ chunks rest
      ∙ encrypt-keys c x step

  decrypt_payload-decipher_iv :
      (c : Cryptor evp.Ctx) (x : Bytes) {c' : Cryptor evp.Ctx} {out : Option Bytes}
      → decrypt_payload evp c x ≡ ok (c', out)
      → c'.decipher_iv ≡ c.decipher_iv
  unfolding decrypt_payload
  decrypt_payload-decipher_iv c x {c'} {out} e = elim (Bool-cases (length x == 0)) [
    | inl empty ↦
        ap (λ p. p.0.decipher_iv)
          (sym (ok-injective (c, some []) (c', out) (rw (empty, decrypt_payload) at e)))
    | inr full ↦
        let ((decipher, _), _, done) =
          >>=-eq-ok (update_at evp c.decipher x) _ (rw (full, decrypt_payload) at e) in
        ap (λ p. p.0.decipher_iv) (sym (ok-injective _ (c', out) done))
  ]

module _ (evp : Evp) {password method : Bytes} (law : IsReady evp password method) where
  -- A `Cryptor` that was made in memory with NULL in `cipher_iv`, with 16 random bytes, and then
  -- only encrypts is destroyed without a fault: its one context and its one block, the first of the
  -- random bytes as the initialisation vector, are given back.
  pub destroy_sender :
      (random wire : Bytes) (chunks : List Bytes) (sender sender' : Cryptor evp.Ctx)
      → length random ≡ 16
      → create evp null random password method ≡ ok sender
      → encrypt_all evp sender chunks ≡ ok (sender', wire)
      → destroy_cryptor sender'
        ≡ ok (record {
          contexts = delete_crypto sender'.cipher;
          blocks = take (evp.iv_len law.cipher) random ∷ [];
        })
  unfolding destroy_cryptor
  destroy_sender random wire chunks sender sender' r s sent =
      let (_, c, made, new, _) = create-IsNew law random r in
      let kept : keys sender' ≡ (owned (take (evp.iv_len law.cipher) random), none, null) =
        encrypt_all-keys evp sender chunks sent
        ∙ ap keys (sym (ok-injective c sender (sym made ∙ s)))
        ∙ rw (new.fresh.has_iv, new.undeciphered, new.unread) refl in
      let iv : sender'.cipher_iv ≡ owned (take (evp.iv_len law.cipher) random) =
        ap (λ k. k.0) kept in
      let no_decipher : sender'.decipher ≡ none = ap (λ k. k.1) kept in
      let no_iv : sender'.decipher_iv ≡ null = ap (λ k. k.2) kept in
      rw (iv, no_decipher, no_iv, append-nil) refl

  -- A `Cryptor` that was made in memory with NULL in `cipher_iv`, with 16 random bytes, and has
  -- decrypted a first piece with its vector owns a vector in `decipher_iv` from `new []`, which the
  -- destructor gives to `delete` without brackets: an invalid free.
  pub destroy_receiver :
      (random iv payload : Bytes) (receiver receiver' : Cryptor evp.Ctx) {out : Option Bytes}
      → length random ≡ 16
      → create evp null random password method ≡ ok receiver
      → length iv ≡ evp.iv_len law.cipher
      → decrypt evp receiver (iv ++ payload) ≡ ok (receiver', out)
      → destroy_cryptor receiver' ≡ fault invalid_free
  unfolding decrypt
  destroy_receiver random iv payload receiver receiver' {out} r s l e =
      let (_, c, made, new, _) = create-IsNew law random r in
      let (d, init) = law.init_decryption iv l in
      let is_receiver : c ≡ receiver = ok-injective c receiver (sym made ∙ s) in
      let full : (length (iv ++ payload) == 0) ≡ false =
        ne→== _ 0 (λ z. omega (arith, length-append iv payload, law.iv_pos)) in
      let rest : drop (evp.iv_len law.cipher) (iv ++ payload) ≡ payload =
        rw (← l) (drop-append_left iv payload) in
      let base : Cryptor evp.Ctx = record c {
        decipher_iv = owned iv;
        cipher_iv_len = evp.iv_len law.cipher;
      } in
      let on_new : decrypt evp c (iv ++ payload)
          ≡ decrypt_payload evp (receiving evp base d) payload =
        rw
          (
            full,
            decrypt,
            new.undeciphered,
            ◌>>=◌,
            start_decipher_lem law c _ iv payload new l init,
            rest,
          )
          refl in
      let goes : decrypt_payload evp (receiving evp base d) payload ≡ ok (receiver', out) =
        sym on_new ∙ ap (λ (x : Cryptor evp.Ctx). decrypt evp x (iv ++ payload)) is_receiver ∙ e in
      destroy_cryptor_owned receiver' iv
        (decrypt_payload-decipher_iv evp (receiving evp base d) payload goes)
