-- ===== src/Cryptor/Streams.antt =====
-- What the round trip needs of OpenSSL, and the sender's side of it.
use mathlib.Core.Path.{subst}
use shadowc.Base.{
  ◌≡◌, ◌≢◌, refl, ◌∙◌, sym, ap, inl, inr, true, false, Option, none, some, List, [], ◌∷◌, ◌++◌,
  Bytes, length, append_assoc, append-nil, ◌==◌, Bool-cases, arith,
}
use shadowc.Memory.{Outcome, ok, ◌>>=◌, load_n}
use shadowc.Memory.Laws.{load_n-append}
use shadowc.Cryptor.{Cryptor, encrypt, or_nothing, cipher_enc_encryption, cipher_enc_decryption}
use shadowc.Cryptor.Openssl.{Evp}
use shadowc.Cryptor.Setup.{IsReady, IsFresh, over}
use shadowc.Cryptor.Openssl

abbrev prepend : (evp : Evp) → Bytes → Option (evp.Ctx × Bytes) → Option (evp.Ctx × Bytes)
prepend evp out none = none
prepend evp out (some (c, more)) = some (c, out ++ more)

load_n-append_nil : (iv : Bytes) → load_n (length iv) iv ≡ ok iv
load_n-append_nil iv = rw append-nil at (load_n-append iv [])

-- `EVP_EncryptUpdate` on one chunk and then on another.
abbrev pub then_update : (evp : Evp) → Option (evp.Ctx × Bytes) → Bytes → Option (evp.Ctx × Bytes)
then_update evp none ys = none
then_update evp (some (c, out)) ys = prepend evp out (evp.encrypt_update c ys)

-- The method is a stream cipher: `EVP_EncryptUpdate` on a context that was made for encryption
-- succeeds, its output does not depend on how the input is cut, and `EVP_DecryptUpdate` on a context
-- that was made for decryption takes it back. `Synced e d` relates a context that encrypts with one
-- that decrypts from the same point.
pub record IsStream (evp : Evp) (password method : Bytes) : Type 1 where
  pub ready : IsReady evp password method
  pub open ready use *
  pub Synced : evp.Ctx → evp.Ctx → Type 0
  pub init_synced :
      (iv : Bytes) (e d : evp.Ctx)
      → evp.cipher_init ctx cipher key iv cipher_enc_encryption ≡ some e
      → evp.cipher_init ctx cipher key iv cipher_enc_decryption ≡ some d
      → Synced e d
  pub update :
      (e d : evp.Ctx) (payload : Bytes)
      → Synced e d
      → (e' : evp.Ctx) × (d' : evp.Ctx) × (out : Bytes) × (evp.encrypt_update e payload
          ≡ some (e', out))
        × (evp.decrypt_update d out ≡ some (d', payload))
        × Synced e' d'
  pub update_nil : (e d : evp.Ctx) → Synced e d → evp.encrypt_update e [] ≡ some (e, [])
  pub update_append :
      (e d : evp.Ctx) (xs ys : Bytes)
      → Synced e d
      → evp.encrypt_update e (xs ++ ys) ≡ then_update evp (evp.encrypt_update e xs) ys

abbrev pub concat : List Bytes → Bytes
concat [] = []
concat (x ∷ xs) = x ++ concat xs

module _ (evp : Evp) where
  -- What a sender puts on the wire for the chunks.
  unfoldable pub encrypt_all : Cryptor evp.Ctx → List Bytes → Outcome (Cryptor evp.Ctx × Bytes)
  encrypt_all c [] = ok (c, [])
  encrypt_all c (x ∷ xs) = do
    (c', out) ← encrypt evp c x
    (c'', more) ← encrypt_all c' xs
    ok (c'', or_nothing evp out ++ more)

  -- A sender behind its initialisation vector.
  abbrev pub sending : Cryptor evp.Ctx → evp.Ctx → Cryptor evp.Ctx
  sending c e = record c { iv_sent = true; cipher = over evp e }

prepend-split :
    (evp : Evp) (a : Bytes) (o : Option (evp.Ctx × Bytes)) {c : evp.Ctx} {out : Bytes}
    → prepend evp a o ≡ some (c, out)
    → (b : Bytes) × (o ≡ some (c, b)) × (out ≡ a ++ b)
prepend-split evp a none e = absurd (cc)
prepend-split evp a (some (d, more)) e = (more, cc, cc)

then_update-split :
    (evp : Evp) (m : Option (evp.Ctx × Bytes)) (ys : Bytes) {c : evp.Ctx} {out : Bytes}
    → then_update evp m ys ≡ some (c, out)
    → (c' : evp.Ctx) × (a : Bytes) × (b : Bytes) × (m ≡ some (c', a))
      × (evp.encrypt_update c' ys ≡ some (c, b))
      × (out ≡ a ++ b)
then_update-split evp none ys e = absurd (cc)
then_update-split evp (some (c', a)) ys e =
    let (b, f, g) = prepend-split evp a (evp.encrypt_update c' ys) e in (c', a, b, refl, f, g)

empty-nil : (x : Bytes) → (length x == 0) ≡ true → x ≡ []
empty-nil [] h = refl
empty-nil (y ∷ x) h = absurd (ground arith)

module _ (evp : Evp) where
  encrypt_empty :
      (c : Cryptor evp.Ctx) (x : Bytes) → (length x == 0) ≡ true → encrypt evp c x ≡ ok (c, some [])
  unfolding encrypt
  encrypt_empty c x h = rw (h, encrypt)

  encrypt-sending :
      (c : Cryptor evp.Ctx) (e : evp.Ctx) (x : Bytes) {e' : evp.Ctx} {out : Bytes}
      → (length x == 0) ≡ false
      → evp.encrypt_update e x ≡ some (e', out)
      → encrypt evp (sending evp c e) x ≡ ok (sending evp c e', some out)
  unfolding encrypt
  encrypt-sending c e x h u = rw (h, encrypt, Openssl.update-encrypt_update evp e x u)

  encrypt_first :
      (c : Cryptor evp.Ctx) (e : evp.Ctx) (iv x : Bytes) {e' : evp.Ctx} {out : Bytes}
      → IsFresh evp c e iv
      → (length x == 0) ≡ false
      → evp.encrypt_update e x ≡ some (e', out)
      → encrypt evp c x ≡ ok (sending evp c e', some (iv ++ out))
  unfolding encrypt
  encrypt_first c e iv x f h u = rw (
    h,
    encrypt,
    f.unsent,
    ◌>>=◌,
    f.has_iv,
    f.has_len,
    load_n-append_nil iv,
    f.has_cipher,
    Openssl.update-encrypt_update evp e x u,
  )

  encrypt_all_cons :
      (c : Cryptor evp.Ctx) (x : Bytes) (xs : List Bytes) (o : Option Bytes)
      {c' c'' : Cryptor evp.Ctx} {more : Bytes}
      → encrypt evp c x ≡ ok (c', o)
      → encrypt_all evp c' xs ≡ ok (c'', more)
      → encrypt_all evp c (x ∷ xs) ≡ ok (c'', or_nothing evp o ++ more)
  unfolding encrypt_all
  encrypt_all_cons c x xs o h k = rw (h, ◌>>=◌, k)

module _ {evp : Evp} {password method : Bytes} (law : IsStream evp password method) where
  -- An update over `xs ++ ys` is one over `xs`, and one over `ys` by a context that encrypts too.
  update-append :
      (c d : evp.Ctx) (xs ys : Bytes) {c'' : evp.Ctx} {out : Bytes}
      → law.Synced c d
      → evp.encrypt_update c (xs ++ ys) ≡ some (c'', out)
      → (c' : evp.Ctx) × (d' : evp.Ctx) × (a : Bytes) × (b : Bytes) × law.Synced c' d'
        × (evp.encrypt_update c xs ≡ some (c', a))
        × (evp.encrypt_update c' ys ≡ some (c'', b))
        × (out ≡ a ++ b)
  update-append c d xs ys synced e =
      let (c', a, b, first, rest, joined) =
        then_update-split evp (evp.encrypt_update c xs) ys
          (sym (law.update_append c d xs ys synced) ∙ e) in
      let (e', d', _, enc, _, synced') = law.update c d xs synced in
      let same : e' ≡ c' = context-injective (sym enc ∙ first) in
      (c', d', a, b, subst (λ e. law.Synced e d') same synced', first, rest, joined)
    where
      context-injective :
          {p p' : evp.Ctx} {o o' : Bytes}
          → ◌≡◌ {A = Option (evp.Ctx × Bytes)} (some (p, o)) (some (p', o'))
          → p ≡ p'
      context-injective e = cc

  abbrev result : Cryptor evp.Ctx → Option (evp.Ctx × Bytes) → Outcome (Cryptor evp.Ctx × Bytes)
  result c none = ok (c, [])
  result c (some (e, out)) = ok (sending evp c e, out)

  -- Behind the initialisation vector the sender's output is the update over all its input.
  pub encrypt_all-sending :
      (c : Cryptor evp.Ctx) (e d : evp.Ctx) (xs : List Bytes) {e' : evp.Ctx} {out : Bytes}
      → law.Synced e d
      → evp.encrypt_update e (concat xs) ≡ some (e', out)
      → encrypt_all evp (sending evp c e) xs ≡ ok (sending evp c e', out)
  unfolding encrypt_all
  encrypt_all-sending c e d [] synced h = ap (result c) (sym (law.update_nil e d synced) ∙ h)
  encrypt_all-sending c e d (x ∷ xs) {e'} {out} synced h = elim (Bool-cases (length x == 0)) [
    | inl empty ↦
        let rest : evp.encrypt_update e (concat xs) ≡ some (e', out) =
          ap (λ (y : Bytes). evp.encrypt_update e (y ++ concat xs)) (sym (empty-nil x empty)) ∙ h in
        encrypt_all_cons evp (sending evp c e) x xs (some [])
          (encrypt_empty evp (sending evp c e) x empty) (encrypt_all-sending c e d xs synced rest)
    | inr full ↦
        let (m, d', a, b, synced', first, rest, split) = update-append e d x (concat xs) synced h in
        encrypt_all_cons evp (sending evp c e) x xs (some a) (encrypt-sending evp c e x full first)
          (encrypt_all-sending c m d' xs synced' rest)
        ∙ ap (λ (l : Bytes). ok (sending evp c e', l)) (sym split)
  ]

  -- The first chunk that is not empty goes out behind the initialisation vector.
  pub encrypt_all_fresh :
      (c : Cryptor evp.Ctx) (e d : evp.Ctx) (iv : Bytes) (xs : List Bytes) {e' : evp.Ctx}
      {out : Bytes}
      → law.Synced e d
      → IsFresh evp c e iv
      → concat xs ≢ []
      → evp.encrypt_update e (concat xs) ≡ some (e', out)
      → encrypt_all evp c xs ≡ ok (sending evp c e', iv ++ out)
  unfolding encrypt_all
  encrypt_all_fresh c e d iv [] synced f ne h = absurd (ne refl)
  encrypt_all_fresh c e d iv (x ∷ xs) {e'} {out} synced f ne h = elim (Bool-cases (length x == 0)) [
    | inl empty ↦
        let nil = empty-nil x empty in
        let same : x ++ concat xs ≡ concat xs = ap (λ (y : Bytes). y ++ concat xs) nil in
        encrypt_all_cons evp c x xs (some []) (encrypt_empty evp c x empty)
          (encrypt_all_fresh c e d iv xs synced f (λ z. ne (same ∙ z)) (rw same at h))
    | inr full ↦
        let (m, d', a, b, synced', first, rest, split) = update-append e d x (concat xs) synced h in
        encrypt_all_cons evp c x xs (some (iv ++ a)) (encrypt_first evp c e iv x f full first)
          (encrypt_all-sending c m d' xs synced' rest)
        ∙ ap (λ (l : Bytes). ok (sending evp c e', l))
            (append_assoc iv a b ∙ ap (◌++◌ iv) (sym split))
  ]
