-- ===== src/Main/Tests.antt =====
-- A library that takes the first argument for the text, and counts the arguments, of which it accepts
-- at most four.
use shadowc.Base.{
  ◌≡◌, refl, ◌⊎◌, true, false, Option, none, some, List, [], ◌∷◌, ◌++◌, Bytes, find, bytes_key,
  length, ltb, ◌==◌, ne→==, arith,
}
use shadowc.Base.Int.{ℤ, pos}
use shadowc.Base.Text.{codes}
use shadowc.Main.{ValueType, string, int, Cxxopts, exited, uncaught, config, declare_options, main}
use shadowc.Main.Config.{IsLong, IsCxxopts, main-IsCxxopts}

record CountingOptions : Type 0 where
  names : List (Bytes × ValueType)
  given : List Bytes

abbrev plain_or_both : CountingOptions → Bytes → ValueType → CountingOptions
plain_or_both o (short ∷ comma ∷ long) type = elim (comma == b',') [
  | true ↦ record o { names = o.names ++ (short ∷ [], type) ∷ (long, type) ∷ [] }
  | false ↦ record o { names = o.names ++ (short ∷ comma ∷ long, type) ∷ [] }
]
plain_or_both o name type = record o { names = o.names ++ (name, type) ∷ [] }

abbrev first : List Bytes → Bytes
first [] = []
first (a ∷ arguments) = a

abbrev text_of : List Bytes → Option ValueType → Option Bytes
text_of given (some string) = some (first given)
text_of given _ = none

abbrev count_of : List Bytes → Option ValueType → Option ℤ
count_of given (some int) = some (pos (length given))
count_of given _ = none

abbrev take_arguments : CountingOptions → List Bytes → Option CountingOptions
take_arguments o [] = none
take_arguments o (program ∷ arguments) = elim (ltb 4 (length arguments)) [
  | true ↦ none
  | false ↦ some (record o { given = arguments })
]

abbrev counting : Cxxopts
counting = record {
  Options = CountingOptions;
  options = λ program help. record { names = []; given = [] };
  add_option = λ o name desc type. some (plain_or_both o name type);
  parse = take_arguments;
  as_string = λ o name. text_of o.given (find name o.names);
  as_int = λ o name. count_of o.given (find name o.names);
}

plain_long :
    (o : CountingOptions) (long : Bytes) (type : ValueType)
    → IsLong long
    → (plain_or_both o long type).names ≡ o.names ++ (long, type) ∷ []
plain_long o [] type (size, letters) = elim size [ ]
plain_long o (c ∷ []) type (size, letters) = refl
plain_long o (c ∷ d ∷ long) type (size, letters) =
    rw (ne→== d b',' (λ e. omega (arith, letters.1.0)), plain_or_both) refl

take_arguments-names :
    (o o' : CountingOptions) (arguments : List Bytes)
    → take_arguments o arguments ≡ some o'
    → o'.names ≡ o.names
take_arguments-names o o' [] e = absurd (cc)
take_arguments-names o o' (program ∷ arguments) e = ground arith

counting-IsCxxopts : IsCxxopts counting
counting-IsCxxopts = record {
  names = λ o. o.names;
  names-options = λ program help. refl;
  add_long =
      λ o long desc type is fresh. (plain_or_both o long type, refl, plain_long o long type is);
  add_both = λ o short long desc type letter is fresh fresh'. (_, refl, refl);
  names-parse = take_arguments-names;
  reads_string = λ o name e. (first o.given, rw e refl);
  reads_int = λ o name e. (pos (length o.given), rw e refl);
}

abbrev arguments : List Bytes
arguments = codes "secret" ∷ codes "b" ∷ []

main-IsCxxopts_example :
    (declared : CountingOptions) × (declare_options counting
        (counting.options (codes "server") (codes "Command Options"))
      ≡ some declared)
    × (((counting.parse declared (codes "server" ∷ arguments) ≡ none)
          × (main counting (codes "server") arguments ≡ uncaught))
        ⊎ ((parsed : CountingOptions) × (password : Bytes) × (port : ℤ) × (num_worker : ℤ)
            × (counting.parse declared (codes "server" ∷ arguments) ≡ some parsed)
            × (counting.as_string parsed (codes "password") ≡ some password)
            × (counting.as_int parsed (codes "port") ≡ some port)
            × (counting.as_int parsed (codes "workers") ≡ some num_worker)
            × (main counting (codes "server") arguments
                ≡ exited
                    (config password port num_worker)
                    (record { servers = codes "8.8.4.4" ∷ codes "8.8.8.8" ∷ []; vectors = [] }))))
main-IsCxxopts_example = main-IsCxxopts counting-IsCxxopts (codes "server") arguments
