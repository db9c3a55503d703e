-- ===== src/Asyncdns/Response/Finding.antt =====
-- The address that `handle_data` finds among the records.
use shadowc.Base.{
  ◌≡◌, refl, Option, none, some, List, [], ◌∷◌, Bytes, length, take, take-append_left, All, le→ltb,
  ne→==,
}
use shadowc.Memory.{ok, ◌>>=◌, c_string}
use shadowc.Asyncdns.Names.Labels.{joined}
use shadowc.Asyncdns.Response.{ResRecord, qtype_a, first_address}
use shadowc.Asyncdns.Response.Parsing.{Answer, address, alias, HoldsAll}

-- The answer that a resolver of addresses looks for: the first of type A.
abbrev pub first_of_type_a : List Answer → Option (List Bytes × Bytes)
first_of_type_a [] = none
first_of_type_a (address names rdata ∷ answers) = some (names, rdata)
first_of_type_a (alias names target ∷ answers) = first_of_type_a answers

-- Each address has its four bytes.
abbrev pub IsIpv4 : Answer → Type 0
IsIpv4 (address names rdata) = length rdata ≡ 4
IsIpv4 (alias names target) = Unit

-- What `first_address` finds, for what the message says.
abbrev pub Finds : Option (List Bytes × Bytes) → Option (Bytes × Bytes) → Type 0
Finds none found = found ≡ none
Finds (some (names, rdata)) found =
    (block : Bytes) × (found ≡ some (block, rdata)) × (c_string block ≡ ok (joined names))

-- For records that hold answers whose addresses have four bytes, the loop of `handle_data` finds
-- the name and the address of the first answer of type A, or nothing if there is none.
pub first_address-HoldsAll :
    (message : Bytes) (answers : List Answer) (records : List ResRecord)
    → All IsIpv4 answers
    → HoldsAll message answers records
    → (found : Option (Bytes × Bytes)) × (first_address message records ≡ ok found)
      × Finds (first_of_type_a answers) found
unfolding first_address
first_address-HoldsAll message [] [] v h = (none, refl, refl)
first_address-HoldsAll message [] (r ∷ records) v h = absurd h
first_address-HoldsAll message (a ∷ answers) [] v h = absurd h
first_address-HoldsAll message (address names rdata ∷ answers) (r ∷ records) v
      ((text, type, (rest, block), room), h) =
    let four : take 4 r.rdata ≡ rdata = rw (block, ← v.0) (take-append_left rdata (0 ∷ rest)) in
    (
      some (r.name, rdata),
      rw (type, ◌>>=◌, le→ltb (length r.rdata) 8 room, four),
      (r.name, refl, text),
    )
first_address-HoldsAll message (alias names target ∷ answers) (r ∷ records) v
      ((text, (type, e, ne), text'), h) =
    let (found, run, finds) = first_address-HoldsAll message answers records v.1 h in
    (found, rw (e, ◌>>=◌, ne→== type qtype_a ne, run), finds)
