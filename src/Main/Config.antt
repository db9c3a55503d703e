-- ===== src/Main/Config.antt =====
-- What the program prints, over the documented behaviour of cxxopts.
use shadowc.Base.{
  ℕ, ◌≤◌, ◌≡◌, refl, ◌∙◌, ◌⊎◌, inl, inr, none, some, List, [], ◌∷◌, ◌++◌, Bytes, All, find,
  bytes_key, length, Option-cases, arith,
}
use shadowc.Base.Int.{ℤ}
use shadowc.Base.Text.{codes}
use shadowc.Asyncdns.Resolver.{destroy, in_key_order}
use shadowc.Main.{
  ValueType, string, int, Cxxopts, exited, uncaught, config, declare_options, and_then, main,
}

-- A small letter, and a long name made of such.
abbrev pub IsLetter : ℕ → Type 0
IsLetter c = (b'a' ≤ c) × (c ≤ b'z')

abbrev pub IsLong : Bytes → Type 0
IsLong name = (2 ≤ length name) × All IsLetter name

-- What cxxopts documents: the names that have been declared, each with the type of its value, and
-- that a declared option can be read as that type, with a default if it has not been given. An
-- option has a long name, or a short one, a comma and a long one.
pub record IsCxxopts (lib : Cxxopts) : Type 0 where
  pub names : lib.Options → List (Bytes × ValueType)
  pub names-options : (program help : Bytes) → names (lib.options program help) ≡ []
  pub add_long :
      (o : lib.Options) (long desc : Bytes) (type : ValueType)
      → IsLong long
      → find long (names o) ≡ none
      → (o' : lib.Options) × (lib.add_option o long desc type ≡ some o')
        × (names o' ≡ names o ++ (long, type) ∷ [])
  pub add_both :
      (o : lib.Options) (short : ℕ) (long desc : Bytes) (type : ValueType)
      → IsLetter short
      → IsLong long
      → find (short ∷ []) (names o) ≡ none
      → find long (names o) ≡ none
      → (o' : lib.Options) × (lib.add_option o (short ∷ b',' ∷ long) desc type ≡ some o')
        × (names o' ≡ names o ++ (short ∷ [], type) ∷ (long, type) ∷ [])
  pub names-parse :
      (o o' : lib.Options) (arguments : List Bytes)
      → lib.parse o arguments ≡ some o'
      → names o' ≡ names o
  pub reads_string :
      (o : lib.Options) (name : Bytes)
      → find name (names o) ≡ some string
      → (v : Bytes) × (lib.as_string o name ≡ some v)
  pub reads_int :
      (o : lib.Options) (name : Bytes)
      → find name (names o) ≡ some int
      → (v : ℤ) × (lib.as_int o name ≡ some v)

-- The names that the program declares.
abbrev pub declared_names : List (Bytes × ValueType)
declared_names =
    (codes "password", string)
    ∷ (codes "port", int)
    ∷ (codes "w", int)
    ∷ (codes "workers", int)
    ∷ []

module _ {lib : Cxxopts} (c : IsCxxopts lib) (program : Bytes) where
  declare_options-names :
      (declared : lib.Options) × (declare_options lib
          (lib.options program (codes "Command Options"))
        ≡ some declared)
      × (c.names declared ≡ declared_names)
  unfolding declare_options find
  declare_options-names =
      let o = lib.options program (codes "Command Options") in
      let none_yet = c.names-options program (codes "Command Options") in
      let (o₁, e₁, n₁) =
        c.add_long o (codes "password") (codes "Password") string (omega arith)
          (rw none_yet refl) in
      let m₁ : c.names o₁ ≡ (codes "password", string) ∷ [] = n₁ ∙ rw none_yet refl in
      let (o₂, e₂, n₂) =
        c.add_long o₁ (codes "port") (codes "Port") int (omega arith) (rw m₁ refl) in
      let m₂ : c.names o₂ ≡ (codes "password", string) ∷ (codes "port", int) ∷ [] =
        n₂ ∙ rw m₁ refl in
      let (o₃, e₃, n₃) =
        c.add_both o₂ b'w' (codes "workers") (codes "Workers") int (omega arith) (omega arith)
          (rw m₂ refl) (rw m₂ refl) in
      (o₃, rw (e₁, e₂) e₃, n₃ ∙ rw m₂ refl)

  -- Over a library that does what cxxopts documents, the declarations of the options succeed. If
  -- the arguments cannot be parsed, the program ends with an exception that nobody catches, and
  -- prints nothing; if they can, no look-up throws, and the program prints the values that the
  -- library has for the three options, between its two lines, and frees the array of the two
  -- servers, with no vector of callbacks.
  pub main-IsCxxopts :
      (arguments : List Bytes)
      → (declared : lib.Options) × (declare_options lib
            (lib.options program (codes "Command Options"))
          ≡ some declared)
        × (((lib.parse declared (program ∷ arguments) ≡ none)
              × (main lib program arguments ≡ uncaught))
            ⊎ ((parsed : lib.Options) × (password : Bytes) × (port : ℤ) × (num_worker : ℤ)
                × (lib.parse declared (program ∷ arguments) ≡ some parsed)
                × (lib.as_string parsed (codes "password") ≡ some password)
                × (lib.as_int parsed (codes "port") ≡ some port)
                × (lib.as_int parsed (codes "workers") ≡ some num_worker)
                × (main lib program arguments
                    ≡ exited (config password port num_worker) (record {
                      servers = codes "8.8.4.4" ∷ codes "8.8.8.8" ∷ [];
                      vectors = [];
                    }))))
  unfolding main and_then find destroy in_key_order
  main-IsCxxopts arguments =
      let (declared, e, n) = declare_options-names in
      (
        declared,
        e,
        elim (Option-cases (lib.parse declared (program ∷ arguments))) [
          | inl refused ↦ inl (refused, rw (e, main, refused) refl)
          | inr (parsed, accepted) ↦
              let m = c.names-parse declared parsed (program ∷ arguments) accepted ∙ n in
              let (password, p) = c.reads_string parsed (codes "password") (rw m refl) in
              let (port, q) = c.reads_int parsed (codes "port") (rw m refl) in
              let (num_worker, w) = c.reads_int parsed (codes "workers") (rw m refl) in
              inr (
                parsed,
                password,
                port,
                num_worker,
                accepted,
                p,
                q,
                w,
                rw (e, main, accepted, p, q, w) refl,
              )
        ],
      )
