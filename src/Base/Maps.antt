-- ===== src/Base/Maps.antt =====
-- `std::map` as an association list with one entry for each key, over a key type with a test.
use mathlib.Core.Path.{◌≡◌, refl}
use mathlib.Core.Logic.{◌↔◌}
use mathlib.Core.Bool.{Bool, true, false}
use mathlib.Core.Option.{Option, none, some}
use mathlib.Core.List.{List, [], ◌∷◌}
use native.Mathlib.Omega.{arith}
use Prim.Native.Nat.{ℕ}
use shadowc.Base.Tests.{◌==◌, if◌then◌else◌}

-- The keys of a map: a test that decides equality.
pub record Key {ℓ} (K : Type ℓ) : Type ℓ where
  pub beq : K → K → Bool
  pub beq_iff : (a b : K) → (beq a b ≡ true) ↔ (a ≡ b)

pub nat_beq_iff : (a b : ℕ) → ((a == b) ≡ true) ↔ (a ≡ b)
nat_beq_iff a b = ground arith

abbrev pub bytes_beq : List ℕ → List ℕ → Bool
bytes_beq [] [] = true
bytes_beq (x ∷ xs) (y ∷ ys) = if x == y then bytes_beq xs ys else false
bytes_beq _ _ = false

pub bytes_beq_iff : (a b : List ℕ) → (bytes_beq a b ≡ true) ↔ (a ≡ b)
bytes_beq_iff (x ∷ a) (y ∷ b) = ground (arith, bytes_beq_iff a b)
bytes_beq_iff _ _ = ground arith

instance abbrev pub nat_key : Key ℕ
nat_key = record { beq = ◌==◌; beq_iff = nat_beq_iff }

instance abbrev pub bytes_key : Key (List ℕ)
bytes_key = record { beq = bytes_beq; beq_iff = bytes_beq_iff }

module _ {ℓ κ} {K : Type ℓ} {V : Type κ} ⦃k : Key K⦄ where
  -- `m.find(a)`: `none` is `m.end()`.
  unfoldable pub find : K → List (K × V) → Option V
  find a [] = none
  find a ((b, v) ∷ m) = if k.beq b a then some v else find a m

  -- `m[a] = v`.
  unfoldable pub assign : K → V → List (K × V) → List (K × V)
  assign a v [] = (a, v) ∷ []
  assign a v ((b, w) ∷ m) = if k.beq b a then (b, v) ∷ m else (b, w) ∷ assign a v m

  -- `m.insert(pair(a, v))`, which keeps an entry that is there.
  unfoldable pub insert : K → V → List (K × V) → List (K × V)
  insert a v [] = (a, v) ∷ []
  insert a v ((b, w) ∷ m) = if k.beq b a then (b, w) ∷ m else (b, w) ∷ insert a v m

  -- `m.erase(a)`.
  unfoldable pub erase : K → List (K × V) → List (K × V)
  erase a [] = []
  erase a ((b, w) ∷ m) = if k.beq b a then erase a m else (b, w) ∷ erase a m

module _ {ℓ κ} {K : Type ℓ} {V : Type κ} ⦃k : Key K⦄ (a b : K) where
  pub find-assign :
      (v : V) (m : List (K × V)) → find b (assign a v m) ≡ (if k.beq a b then some v else find b m)
  unfolding find assign
  find-assign v [] = refl
  find-assign v ((c, w) ∷ m) =
      ground (arith, k.beq_iff a b, k.beq_iff c a, k.beq_iff c b, find-assign v m)

  pub find-insert :
      (v : V) (m : List (K × V))
      → find b (insert a v m)
        ≡ (if k.beq a b then some (elim (find a m) [ none ↦ v | some w ↦ w ]) else find b m)
  unfolding find insert
  find-insert v [] = ground arith
  find-insert v ((c, w) ∷ m) =
      ground (arith, k.beq_iff a b, k.beq_iff c a, k.beq_iff c b, find-insert v m)

  pub find-erase : (m : List (K × V)) → find b (erase a m) ≡ (if k.beq a b then none else find b m)
  unfolding find erase
  find-erase [] = ground arith
  find-erase ((c, w) ∷ m) =
      ground (arith, k.beq_iff a b, k.beq_iff c a, k.beq_iff c b, find-erase m)

module _ {ℓ} {K : Type ℓ} ⦃k : Key K⦄ where
  pub beq_refl : (a : K) → k.beq a a ≡ true
  beq_refl a = (k.beq_iff a a).1 refl
