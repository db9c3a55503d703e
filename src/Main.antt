-- ===== src/Main.antt =====
-- The program of src/server.cpp, over an interface to the library cxxopts of include/cxxopts.hpp.
pub mod Config
mod Tests
use shadowc.Base.{ℕ, Option, none, some, List, [], ◌∷◌, Bytes}
use shadowc.Base.Int.{ℤ}
use shadowc.Base.Text.{codes}
use shadowc.Asyncdns.Resolver.{Resolver, Freed}
use shadowc.Asyncdns.Resolver

-- The type of an option's value.
pub data ValueType : Type 0 where
  string int : ValueType

-- What the program uses of cxxopts. `none` stands for an exception.
pub record Cxxopts : Type 1 where
  pub Options : Type 0
  pub options : Bytes → Bytes → Options
  pub add_option : Options → Bytes → Bytes → ValueType → Option Options
  pub parse : Options → List Bytes → Option Options
  pub as_string : Options → Bytes → Option Bytes
  pub as_int : Options → Bytes → Option ℤ

-- A line of the output.
pub data Line : Type 0 where
  config_begins config_ends : Line
  password_is : Bytes → Line
  port_is worker_is : ℤ → Line

-- How the program ends: an exception that nobody catches terminates it. What it frees when the
-- resolver is deleted stands beside the lines.
pub data Ended : Type 0 where
  uncaught : Ended
  exited : List Line → Freed ℕ → Ended

-- The lines that are printed.
abbrev pub config : Bytes → ℤ → ℤ → List Line
config password port num_worker =
    config_begins ∷ password_is password ∷ port_is port ∷ worker_is num_worker ∷ config_ends ∷ []

-- `new` and `delete` of a resolver. The callbacks of a resolver are numbered here.
abbrev pub new_and_delete : Freed ℕ
new_and_delete = Resolver.destroy (Resolver.create {C = ℕ})

-- An exception ends what is done.
infixl 5 ◌>>=◌
abbrev pub ◌>>=◌ {ℓ κ} : {A : Type ℓ} {B : Type κ} → Option A → (A → Option B) → Option B
none >>= next = none
some a >>= next = next a

-- The value of an option, if nothing throws.
pub and_then {ℓ} : {A : Type ℓ} → Option A → (A → Ended) → Ended
and_then none next = uncaught
and_then (some a) next = next a

module _ (lib : Cxxopts) where
  open lib use {Options, options, add_option, as_string, as_int}

  -- The declarations of the options.
  pub declare_options : Options → Option Options
  declare_options o = do
    o₁ ← add_option o (codes "password") (codes "Password") string
    o₂ ← add_option o₁ (codes "port") (codes "Port") int
    add_option o₂ (codes "w,workers") (codes "Workers") int

  -- `program` is `argv[0]`, and `arguments` is what follows it.
  unfoldable pub main : Bytes → List Bytes → Ended
  unfolding declare_options and_then
  main program arguments =
      and_then (declare_options (options program (codes "Command Options"))) λ declared.
        and_then (lib.parse declared (program ∷ arguments)) λ parsed.
          and_then (as_string parsed (codes "password")) λ password.
            and_then (as_int parsed (codes "port")) λ port.
              and_then (as_int parsed (codes "workers"))
                λ num_worker. exited (config password port num_worker) new_and_delete
