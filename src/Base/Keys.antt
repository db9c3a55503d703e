-- ===== src/Base/Keys.antt =====
-- The keys of a map, in the order in which they were first assigned to.
use mathlib.Core.Path.{◌≡◌, refl, ap}
use mathlib.Core.Logic.{inl, inr}
use mathlib.Core.Bool.{false}
use mathlib.Core.Option.{some}
use mathlib.Core.List.{List, [], ◌∷◌}
use shadowc.Base.Tests.{if◌then◌else◌, Bool-cases}
use shadowc.Base.Lists.{All}
use shadowc.Base.Maps.{Key, find, assign, beq_refl}

module _ {ℓ κ} {K : Type ℓ} {V : Type κ} where
  abbrev pub keys : List (K × V) → List K
  keys [] = []
  keys ((a, v) ∷ m) = a ∷ keys m

module _ {ℓ} {K : Type ℓ} ⦃k : Key K⦄ where
  -- A key behind those that were there before it.
  abbrev pub note : K → List K → List K
  note a [] = a ∷ []
  note a (b ∷ ks) = if k.beq b a then b ∷ ks else b ∷ note a ks

  abbrev pub IsDistinct : List K → Type 0
  IsDistinct [] = Unit
  IsDistinct (b ∷ ks) = All (λ a. k.beq b a ≡ false) ks × IsDistinct ks

  pub note-note : (a : K) (ks : List K) → note a (note a ks) ≡ note a ks
  note-note a [] = rw (beq_refl a)
  note-note a (b ∷ ks) = elim (Bool-cases (k.beq b a)) [
    | inl same ↦ rw (same, same)
    | inr other ↦ rw (other, other) (ap (◌∷◌ b) (note-note a ks))
  ]

  All-note :
      (b a : K) (ks : List K)
      → k.beq b a ≡ false
      → All (λ c. k.beq b c ≡ false) ks
      → All (λ c. k.beq b c ≡ false) (note a ks)
  All-note b a [] ne h = (ne, tt)
  All-note b a (c ∷ ks) ne (h, hs) = elim (Bool-cases (k.beq c a)) [
    | inl same ↦ rw same (h, hs)
    | inr other ↦ rw other (h, All-note b a ks ne hs)
  ]

  pub note-IsDistinct : (a : K) (ks : List K) → IsDistinct ks → IsDistinct (note a ks)
  note-IsDistinct a [] d = (tt, tt)
  note-IsDistinct a (b ∷ ks) (h, d) = elim (Bool-cases (k.beq b a)) [
    | inl same ↦ rw same (h, d)
    | inr other ↦ rw other (All-note b a ks other h, note-IsDistinct a ks d)
  ]

module _ {ℓ κ} {K : Type ℓ} {V : Type κ} ⦃k : Key K⦄ where
  pub keys-assign : (a : K) (v : V) (m : List (K × V)) → keys (assign a v m) ≡ note a (keys m)
  unfolding assign
  keys-assign a v [] = refl
  keys-assign a v ((b, w) ∷ m) = elim (Bool-cases (k.beq b a)) [
    | inl same ↦ rw same refl
    | inr other ↦ rw other (ap (◌∷◌ b) (keys-assign a v m))
  ]

  -- Noting a key that is there changes nothing.
  pub note-keys : (a : K) (m : List (K × V)) {v : V} → find a m ≡ some v → note a (keys m) ≡ keys m
  unfolding find
  note-keys a [] e = absurd (cc)
  note-keys a ((b, w) ∷ m) e = elim (Bool-cases (k.beq b a)) [
    | inl same ↦ rw same refl
    | inr other ↦ rw other (ap (◌∷◌ b) (note-keys a m (rw other at e)))
  ]
