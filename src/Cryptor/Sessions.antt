-- ===== src/Cryptor/Sessions.antt =====
-- A `Cryptor` at one end of a connection, which sends and receives in any order.
mod Tests
use mathlib.Core.Path.{subst}
use shadowc.Base.{
  ℕ, ◌≤◌, ◌≡◌, ◌≢◌, refl, ◌∙◌, sym, ap, Bool, Option, some, List, [], ◌∷◌, ◌++◌, Bytes, length,
}
use shadowc.Memory.{Outcome, ok, ◌>>=◌}
use shadowc.Memory.Laws.{>>=-eq-ok, ok-injective}
use shadowc.Cryptor.{Cryptor, Pointer, null, create, encrypt, decrypt, or_nothing}
use shadowc.Cryptor.Openssl.{Evp, OpensslCrypto}
use shadowc.Cryptor.Setup.{IsReady, create-IsNew}
use shadowc.Cryptor.Streams.{encrypt_all}
use shadowc.Cryptor.Receiving.{decrypt_all}
use shadowc.Cryptor.Duplex.{with_sender, with_receiver, decrypt-with_sender, encrypt-with_receiver}
use shadowc.Cryptor.Keeping.{IsSized, encrypt-only_sender, decrypt-only_receiver}

-- What the program does with a `Cryptor`, one after the other.
pub data Step : Type 0 where
  sends receives : Bytes → Step

abbrev pub sent : List Step → List Bytes
sent [] = []
sent (sends x ∷ steps) = x ∷ sent steps
sent (receives y ∷ steps) = sent steps

abbrev pub received : List Step → List Bytes
received [] = []
received (sends x ∷ steps) = received steps
received (receives y ∷ steps) = y ∷ received steps

module _ (evp : Evp) where
  open evp use {Ctx}

  -- With what goes out, and the text of what comes in.
  unfoldable pub session : List Step → Cryptor Ctx → Outcome (Cryptor Ctx × Bytes × Bytes)
  session [] c = ok (c, [], [])
  session (sends x ∷ steps) c = do
    (c', out) ← encrypt evp c x
    (c'', wire, text) ← session steps c'
    ok (c'', or_nothing evp out ++ wire, text)
  session (receives y ∷ steps) c = do
    (c', out) ← decrypt evp c y
    (c'', wire, text) ← session steps c'
    ok (c'', wire, or_nothing evp out ++ text)

  encrypt_all-with_receiver :
      (d : Option (OpensslCrypto Ctx)) (v : Pointer) (xs : List Bytes) (c : Cryptor Ctx)
      {c' : Cryptor Ctx} {wire : Bytes}
      → encrypt_all evp c xs ≡ ok (c', wire)
      → encrypt_all evp (with_receiver evp d v c) xs ≡ ok (with_receiver evp d v c', wire)
  unfolding encrypt_all
  encrypt_all-with_receiver d v [] c h =
      ap (λ (p : Cryptor Ctx × Bytes). ok (with_receiver evp d v p.0, p.1)) (ok-injective _ _ h)
  encrypt_all-with_receiver d v (x ∷ xs) c h =
      let ((c₁, o), step, h') = >>=-eq-ok (encrypt evp c x) _ h in
      let ((c₂, more), rest, done) = >>=-eq-ok (encrypt_all evp c₁ xs) _ h' in
      rw (encrypt-with_receiver evp d v c x, step, ◌>>=◌, encrypt_all-with_receiver d v xs c₁ rest)
        (ap (λ (p : Cryptor Ctx × Bytes). ok (with_receiver evp d v p.0, p.1))
          (ok-injective _ _ done))

  decrypt_all-with_sender :
      (p : Option (OpensslCrypto Ctx)) (q : Bool) (ys : List Bytes) (c : Cryptor Ctx)
      {c' : Cryptor Ctx} {text : Bytes}
      → decrypt_all evp c ys ≡ ok (c', text)
      → decrypt_all evp (with_sender evp p q c) ys ≡ ok (with_sender evp p q c', text)
  unfolding decrypt_all
  decrypt_all-with_sender p q [] c h =
      ap (λ (r : Cryptor Ctx × Bytes). ok (with_sender evp p q r.0, r.1)) (ok-injective _ _ h)
  decrypt_all-with_sender p q (y ∷ ys) c h =
      let ((c₁, o), step, h') = >>=-eq-ok (decrypt evp c y) _ h in
      let ((c₂, more), rest, done) = >>=-eq-ok (decrypt_all evp c₁ ys) _ h' in
      rw (decrypt-with_sender evp p q c y, step, ◌>>=◌, decrypt_all-with_sender p q ys c₁ rest)
        (ap (λ (r : Cryptor Ctx × Bytes). ok (with_sender evp p q r.0, r.1))
          (ok-injective _ _ done))

  session_sends :
      (x : Bytes) (steps : List Step) (c : Cryptor Ctx) (o : Option Bytes) {c₁ c' : Cryptor Ctx}
      {wire text : Bytes}
      → encrypt evp c x ≡ ok (c₁, o)
      → session steps c₁ ≡ ok (c', wire, text)
      → session (sends x ∷ steps) c ≡ ok (c', or_nothing evp o ++ wire, text)
  unfolding session
  session_sends x steps c o h k = rw (h, ◌>>=◌, k)

  session_receives :
      (y : Bytes) (steps : List Step) (c : Cryptor Ctx) (o : Option Bytes) {c₁ c' : Cryptor Ctx}
      {wire text : Bytes}
      → decrypt evp c y ≡ ok (c₁, o)
      → session steps c₁ ≡ ok (c', wire, text)
      → session (receives y ∷ steps) c ≡ ok (c', wire, or_nothing evp o ++ text)
  unfolding session
  session_receives y steps c o h k = rw (h, ◌>>=◌, k)

  -- The directions do not disturb each other: whatever the order, a session sends what it sends when
  -- it receives nothing, and receives what it receives when it sends nothing.
  session-apart :
      (steps : List Step) (c : Cryptor Ctx) {c₁ c₂ : Cryptor Ctx} {wire text : Bytes}
      → IsSized evp c
      → encrypt_all evp c (sent steps) ≡ ok (c₁, wire)
      → decrypt_all evp c (received steps) ≡ ok (c₂, text)
      → session steps c ≡ ok (with_receiver evp c₂.decipher c₂.decipher_iv c₁, wire, text)
  unfolding session encrypt_all decrypt_all
  session-apart [] c {c₁} {c₂} {wire} {text} sized h k =
      let same : (c, []) ≡ (c₁, wire) = ok-injective _ _ h in
      let same' : (c, []) ≡ (c₂, text) = ok-injective _ _ k in
      λ i. ok (
        with_receiver evp (same' i).0.decipher (same' i).0.decipher_iv (same i).0,
        (same i).1,
        (same' i).1,
      )
  session-apart (sends x ∷ steps) c {c₂ = c_end} {text = text} sized h k =
      let ((c₁, o), step, h') = >>=-eq-ok (encrypt evp c x) _ h in
      let ((c₂, more), rest, done) = >>=-eq-ok (encrypt_all evp c₁ (sent steps)) _ h' in
      let kept = encrypt-only_sender evp c x step in
      let still : decrypt_all evp c₁ (received steps)
          ≡ ok (with_sender evp c₁.cipher c₁.iv_sent c_end, text) =
        ap (λ c. decrypt_all evp c (received steps)) kept
        ∙ decrypt_all-with_sender c₁.cipher c₁.iv_sent (received steps) c k in
      let later = session-apart steps c₁ (subst (IsSized evp) (sym kept) sized) rest still in
      session_sends x steps c o step later ∙ λ i. ok (
        with_receiver evp c_end.decipher c_end.decipher_iv (ok-injective _ _ done i).0,
        (ok-injective _ _ done i).1,
        text,
      )
  session-apart (receives y ∷ steps) c {c₁ = c_end} {wire = wire} sized h k =
      let ((c₁, o), step, k') = >>=-eq-ok (decrypt evp c y) _ k in
      let ((c₂, more), rest, done) = >>=-eq-ok (decrypt_all evp c₁ (received steps)) _ k' in
      let kept = decrypt-only_receiver evp c y sized step in
      let still : encrypt_all evp c₁ (sent steps)
          ≡ ok (with_receiver evp c₁.decipher c₁.decipher_iv c_end, wire) =
        ap (λ c. encrypt_all evp c (sent steps)) kept
        ∙ encrypt_all-with_receiver c₁.decipher c₁.decipher_iv (sent steps) c h in
      let later = session-apart steps c₁ (subst (IsSized evp) (sym kept) sized) still rest in
      session_receives y steps c o step later ∙ λ i. ok (
        with_receiver evp (ok-injective _ _ done i).0.decipher
            (ok-injective _ _ done i).0.decipher_iv c_end,
        wire,
        (ok-injective _ _ done i).1,
      )

module _ (evp : Evp) {password method : Bytes} (law : IsReady evp password method) where
  create-IsSized :
      (random : Bytes) (c : Cryptor evp.Ctx)
      → length random ≡ 16
      → create evp null random password method ≡ ok c
      → IsSized evp c
  create-IsSized random c r made cipher named =
      let (e, c', run, new, init) = create-IsNew law random r in
      let same : c' ≡ c = ok-injective c' c (sym run ∙ made) in
      let named' : evp.cipher_by_name c'.method ≡ some cipher = rw same named in
      let found : some law.cipher ≡ some cipher =
        sym law.known_cipher ∙ rw (← new.method_is) named' in
      let len : c'.cipher_iv_len ≡ evp.iv_len law.cipher = new.fresh.has_len ∙ new.iv_len_is in
      ap (λ c. c.cipher_iv_len) (sym same) ∙ len ∙ ap evp.iv_len (some-injective found)
    where
      some-injective : {a b : evp.Cipher} → some a ≡ some b → a ≡ b
      some-injective {a} {b} e = cc

  -- Over a library that knows the method and the digest and can make contexts for them, let a
  -- `Cryptor` be made with 16 random bytes, in memory with NULL in `cipher_iv`. If the chunks that
  -- it sends are encrypted without a fault when it receives nothing, and the pieces that it
  -- receives are decrypted without a fault when it sends nothing, then it can send and receive them
  -- in any order: the bytes that go out are the same, the text that comes in is the same, and in
  -- the end it is as the chunks alone leave it, with the context and the vector for decryption that
  -- the pieces alone leave.
  pub session-create :
      (random wire text : Bytes) (steps : List Step) (c c₁ c₂ : Cryptor evp.Ctx)
      → length random ≡ 16
      → create evp null random password method ≡ ok c
      → encrypt_all evp c (sent steps) ≡ ok (c₁, wire)
      → decrypt_all evp c (received steps) ≡ ok (c₂, text)
      → session evp steps c ≡ ok (with_receiver evp c₂.decipher c₂.decipher_iv c₁, wire, text)
  session-create random wire text steps c c₁ c₂ r made out got =
      session-apart evp steps c (create-IsSized random c r made) out got
