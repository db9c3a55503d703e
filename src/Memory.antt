-- ===== src/Memory.antt =====
-- Memory as the C code sees it: a block is the list of its bytes, an access outside it is a fault.
pub mod Laws
use shadowc.Base.{
  ℕ, zero, suc, ◌+◌, ◌-◌, List, [], ◌∷◌, Bytes, Option, none, some, get_elem?, set, length, leb,
  ltb, ◌==◌, if◌then◌else◌,
}

-- What the C++ standard leaves undefined, as far as the code can meet it.
pub data Fault : Type 0 where
  out_of_bounds_read out_of_bounds_write null_dereference invalid_free invalid_iterator : Fault

-- A run ends with a value or at its first fault, or uses up its fuel.
pub data Outcome {ℓ} (A : Type ℓ) : Type ℓ where
  ok : A → Outcome A
  fault : Fault → Outcome A
  no_fuel : Outcome A

infixl 5 ◌>>=◌ ◌>>◌
abbrev pub ◌>>=◌ {ℓ κ} : {A : Type ℓ} {B : Type κ} → Outcome A → (A → Outcome B) → Outcome B
ok a >>= f = f a
fault e >>= f = fault e
no_fuel >>= f = no_fuel

abbrev pub ◌>>◌ {ℓ} : {B : Type ℓ} → Outcome (Unit {0}) → Outcome B → Outcome B
m >> k = m >>= λ _. k

-- `block[i]`
unfoldable pub load : Bytes → ℕ → Outcome ℕ
load [] i = fault out_of_bounds_read
load (x ∷ xs) zero = ok x
load (x ∷ xs) (suc i) = load xs i

-- `block[i] = v`
unfoldable pub store : Bytes → ℕ → ℕ → Outcome Bytes
store [] i v = fault out_of_bounds_write
store (x ∷ xs) zero v = ok (v ∷ xs)
store (x ∷ xs) (suc i) v = do ys ← store xs i v; ok (x ∷ ys)

-- The characters of the C string at the start of a block; with no NUL the read leaves the block.
unfoldable pub c_string : Bytes → Outcome Bytes
c_string [] = fault out_of_bounds_read
c_string (x ∷ xs) = let rest = c_string xs in if x == 0 then ok [] else (do s ← rest; ok (x ∷ s))

-- `strlen(block)`
unfoldable pub strlen : Bytes → Outcome ℕ
strlen block = do s ← c_string block; ok (length s)

-- `block[i], block[i + 1], …` are assigned the bytes.
unfoldable pub store_all : Bytes → ℕ → Bytes → Outcome Bytes
store_all block i [] = ok block
store_all block i (v ∷ vs) = do block' ← store block i v; store_all block' (i + 1) vs

-- The first `n` bytes of a block, as `memcpy` reads them.
unfoldable pub load_n : ℕ → Bytes → Outcome Bytes
load_n zero block = ok []
load_n (suc n) [] = fault out_of_bounds_read
load_n (suc n) (x ∷ block) = do xs ← load_n n block; ok (x ∷ xs)
