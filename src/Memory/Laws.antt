-- ===== src/Memory/Laws.antt =====
-- What reads and writes do to a block that is written as prefix, byte and rest.
use shadowc.Base.{
  ℕ, zero, suc, ◌+◌, ◌<◌, ◌≤◌, ◌≡◌, ◌≢◌, refl, ap, sym, ◌∙◌, append_assoc, length-append, [], ◌∷◌,
  ◌++◌, Bytes, length, All, take, arith, ne→==, ◌⊎◌, inl, inr,
}
use shadowc.Memory.{
  Outcome, ok, fault, no_fuel, out_of_bounds_read, out_of_bounds_write, ◌>>=◌, load, store,
  c_string, strlen, store_all, load_n,
}

from_ok {ℓ} : {A : Type ℓ} → A → Outcome A → A
from_ok d (ok a) = a
from_ok d _ = d

pub ok-injective {ℓ} : {A : Type ℓ} (a b : A) → ok a ≡ ok b → a ≡ b
unfolding from_ok
ok-injective a b e = ap (from_ok a) e

-- Inversion of a bind that succeeds.
pub >>=-eq-ok {ℓ κ} :
    {A : Type ℓ} {B : Type κ} (first : Outcome A) (rest : A → Outcome B) {end : B}
    → (first >>= rest) ≡ ok end
    → (mid : A) × (first ≡ ok mid) × (rest mid ≡ ok end)
>>=-eq-ok (ok mid) rest done = (mid, refl, done)
>>=-eq-ok (fault e) rest done = cc
>>=-eq-ok no_fuel rest done = cc

pub >>=-assoc {ℓ κ μ} :
    {A : Type ℓ} {B : Type κ} {D : Type μ} (m : Outcome A) (f : A → Outcome B) (g : B → Outcome D)
    → ((m >>= f) >>= g) ≡ (m >>= λ a. f a >>= g)
>>=-assoc (ok a) f g = refl
>>=-assoc (fault e) f g = refl
>>=-assoc no_fuel f g = refl

-- A bind runs out of fuel only if a part does.
pub >>=-ne-no_fuel {ℓ κ} :
    {A : Type ℓ} {B : Type κ} (m : Outcome A) (f : A → Outcome B)
    → m ≢ no_fuel
    → ((a : A) → m ≡ ok a → f a ≢ no_fuel)
    → (m >>= f) ≢ no_fuel
>>=-ne-no_fuel (ok a) f h k = k a refl
>>=-ne-no_fuel (fault e) f h k = λ e. cc
>>=-ne-no_fuel no_fuel f h k = λ _. h refl

pub load-append : (pre : Bytes) (x : ℕ) (post : Bytes) → load (pre ++ x ∷ post) (length pre) ≡ ok x
unfolding load
load-append [] x post = refl
load-append (y ∷ pre) x post = load-append pre x post

pub store-append :
    (pre : Bytes) (x : ℕ) (post : Bytes) (v : ℕ)
    → store (pre ++ x ∷ post) (length pre) v ≡ ok (pre ++ v ∷ post)
unfolding store
store-append [] x post v = refl
store-append (y ∷ pre) x post v = rw (store-append pre x post v)

-- The same at an index and a block given by equations.
pub load_at :
    (pre : Bytes) (x : ℕ) (post : Bytes) {b : Bytes} {i : ℕ}
    → b ≡ pre ++ x ∷ post
    → i ≡ length pre
    → load b i ≡ ok x
load_at pre x post e h = rw (e, h) (load-append pre x post)

pub store_at :
    (pre : Bytes) (x : ℕ) (post : Bytes) (v : ℕ) {b : Bytes} {i : ℕ}
    → b ≡ pre ++ x ∷ post
    → i ≡ length pre
    → store b i v ≡ ok (pre ++ v ∷ post)
store_at pre x post v e h = rw (e, h) (store-append pre x post v)

pub load_in_bounds : (b : Bytes) (i : ℕ) → i < length b → (x : ℕ) × (load b i ≡ ok x)
unfolding load
load_in_bounds [] i h = elim h [ ]
load_in_bounds (x ∷ xs) zero h = (x, refl)
load_in_bounds (x ∷ xs) (suc i) h = load_in_bounds xs i (omega arith)

pub load_out_of_bounds : (b : Bytes) (i : ℕ) → length b ≤ i → load b i ≡ fault out_of_bounds_read
unfolding load
load_out_of_bounds [] i h = refl
load_out_of_bounds (x ∷ xs) zero h = elim h [ ]
load_out_of_bounds (x ∷ xs) (suc i) h = load_out_of_bounds xs i (omega arith)

pub store_out_of_bounds :
    (b : Bytes) (i v : ℕ) → length b ≤ i → store b i v ≡ fault out_of_bounds_write
unfolding store
store_out_of_bounds [] i v h = refl
store_out_of_bounds (x ∷ xs) zero v h = elim h [ ]
store_out_of_bounds (x ∷ xs) (suc i) v h = rw (store_out_of_bounds xs i v (omega arith))

abbrev length_of : Outcome Bytes → ℕ
length_of (ok b) = length b
length_of _ = 0

pub length-store : (b : Bytes) (i v : ℕ) {b' : Bytes} → store b i v ≡ ok b' → length b' ≡ length b
unfolding store
length-store [] i v h = absurd (cc)
length-store (x ∷ xs) zero v h = sym (ap length_of h)
length-store (x ∷ xs) (suc i) v h =
    let (ys, e, e') = >>=-eq-ok (store xs i v) (λ l. ok (x ∷ l)) h in
    omega (arith, length-store xs i v e, ap length_of e')

pub store-lt : (b : Bytes) (i v : ℕ) {b' : Bytes} → store b i v ≡ ok b' → i + 1 ≤ length b
unfolding store
store-lt [] i v h = absurd (cc)
store-lt (x ∷ xs) zero v h = omega arith
store-lt (x ∷ xs) (suc i) v h =
    let (ys, e, _) = >>=-eq-ok (store xs i v) (λ l. ok (x ∷ l)) h in
    omega (arith, store-lt xs i v e)

-- A write never runs out of fuel.
pub store-ne-no_fuel : (b : Bytes) (i v : ℕ) → store b i v ≢ no_fuel
unfolding store
store-ne-no_fuel [] i v h = cc
store-ne-no_fuel (x ∷ xs) zero v h = cc
store-ne-no_fuel (x ∷ xs) (suc i) v h = ground (arith, store-ne-no_fuel xs i v)

pub load-ne-no_fuel : (b : Bytes) (i : ℕ) → load b i ≢ no_fuel
unfolding load
load-ne-no_fuel [] i h = cc
load-ne-no_fuel (x ∷ xs) zero h = cc
load-ne-no_fuel (x ∷ xs) (suc i) h = load-ne-no_fuel xs i h

pub c_string-ne-no_fuel : (b : Bytes) → c_string b ≢ no_fuel
unfolding c_string
c_string-ne-no_fuel [] h = cc
c_string-ne-no_fuel (x ∷ xs) h = ground (arith, c_string-ne-no_fuel xs)

pub strlen-ne-no_fuel : (b : Bytes) → strlen b ≢ no_fuel
unfolding strlen
strlen-ne-no_fuel b = >>=-ne-no_fuel (c_string b) _ (c_string-ne-no_fuel b) (λ s e h. cc)

-- No NUL among the characters.
abbrev pub IsText : Bytes → Type 0
IsText s = All (λ c. c ≢ 0) s

pub c_string_text : (s post : Bytes) → IsText s → c_string (s ++ 0 ∷ post) ≡ ok s
unfolding c_string
c_string_text [] post h = refl
c_string_text (c ∷ s) post (n, h) = rw (ne→== c 0 n, c_string_text s post h)

pub strlen_text : (s post : Bytes) → IsText s → strlen (s ++ 0 ∷ post) ≡ ok (length s)
unfolding strlen
strlen_text s post h = rw (c_string_text s post h)

pub store_all-append :
    (vs pre old post : Bytes) {block : Bytes} {i : ℕ}
    → length old ≡ length vs
    → block ≡ pre ++ (old ++ post)
    → i ≡ length pre
    → store_all block i vs ≡ ok (pre ++ (vs ++ post))
unfolding store_all
store_all-append [] pre [] post l e h = ap ok e
store_all-append [] pre (x ∷ old) post l e h = absurd (omega arith)
store_all-append (v ∷ vs) pre [] post l e h = absurd (omega arith)
store_all-append (v ∷ vs) pre (x ∷ old) post l e h = rw (store_at pre x (old ++ post) v e h) (
    store_all-append vs (pre ++ v ∷ []) old post (omega arith) (simp append_assoc)
      (omega (arith, length-append pre (v ∷ [])))
    ∙ simp append_assoc)

-- A write succeeds and keeps the size of its block, or is out of bounds.
pub store-cases :
    (b : Bytes) (i v : ℕ)
    → ((b' : Bytes) × (store b i v ≡ ok b') × (length b' ≡ length b))
      ⊎ (store b i v ≡ fault out_of_bounds_write)
unfolding store
store-cases [] i v = inr refl
store-cases (x ∷ xs) zero v = inl (v ∷ xs, refl, refl)
store-cases (x ∷ xs) (suc i) v = elim (store-cases xs i v) [
  | inl (b', e, l) ↦ inl (x ∷ b', rw e, ap suc l)
  | inr e ↦ inr (rw e)
]

pub store_all-cases :
    (vs b : Bytes) (i : ℕ)
    → ((b' : Bytes) × (store_all b i vs ≡ ok b') × (length b' ≡ length b))
      ⊎ (store_all b i vs ≡ fault out_of_bounds_write)
unfolding store_all
store_all-cases [] b i = inl (b, refl, refl)
store_all-cases (v ∷ vs) b i = elim (store-cases b i v) [
  | inl (b', e, l) ↦ elim (store_all-cases vs b' (i + 1)) [
    | inl (b'', e', l') ↦ inl (b'', rw (e, ◌>>=◌) e', l' ∙ l)
    | inr e' ↦ inr (rw (e, ◌>>=◌) e')
  ]
  | inr e ↦ inr (rw e)
]

pub load_n-append : (xs ys : Bytes) → load_n (length xs) (xs ++ ys) ≡ ok xs
unfolding load_n
load_n-append [] ys = refl
load_n-append (x ∷ xs) ys = rw (load_n-append xs ys)

pub load_n-take : (n : ℕ) (b : Bytes) → n ≤ length b → load_n n b ≡ ok (take n b)
unfolding load_n
load_n-take zero b h = refl
load_n-take (suc n) [] h = absurd (omega arith)
load_n-take (suc n) (x ∷ b) h = rw (load_n-take n b (omega arith))

pub load_n_short : (n : ℕ) (b : Bytes) → length b < n → load_n n b ≡ fault out_of_bounds_read
unfolding load_n
load_n_short zero b h = elim h [ ]
load_n_short (suc n) [] h = refl
load_n_short (suc n) (x ∷ b) h = rw (load_n_short n b (omega arith))
