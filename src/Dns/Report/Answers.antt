-- ===== src/Dns/Report/Answers.antt =====
-- The lines that dns.c prints for the answers, against what lib/asyncdns.cpp makes of them.
use mathlib.Core.Option
use shadowc.Base.{
  ℕ, ◌≤◌, ◌≡◌, ◌≢◌, refl, ◌∙◌, Option, none, some, List, [], ◌∷◌, ◌++◌, Bytes, All, length, take,
  take-append_left, le→ltb, ne→==, Bool-cases, inl, inr, ◌==◌,
}
use shadowc.Memory.{ok, ◌>>=◌, c_string}
use shadowc.Asyncdns.Header.{ntohs_at}
use shadowc.Asyncdns.Names.Labels.{joined}
use shadowc.Asyncdns.Response.{ResRecord, qtype_a, load_address}
use shadowc.Asyncdns.Response.Parsing.{Answer, address, alias, HoldsAll}
use shadowc.Asyncdns.Response.Finding.{IsIpv4, first_of_type_a}
use shadowc.Dns.Report.{
  Saying, has_ipv4_address, has_alias_name, has_nameserver, Line, print_answer, print_all, t_cname,
}

-- The name and the text of the first address that lines show.
abbrev pub first_shown : List Line → Option (Bytes × Bytes)
first_shown [] = none
first_shown (line ∷ lines) = first_said line.name line.sayings (first_shown lines)
  where
    first_said : Bytes → List Saying → Option (Bytes × Bytes) → Option (Bytes × Bytes)
    first_said name [] rest = rest
    first_said name (has_ipv4_address text ∷ sayings) rest = some (name, text)
    first_said name (has_alias_name text ∷ sayings) rest = first_said name sayings rest
    first_said name (has_nameserver text ∷ sayings) rest = first_said name sayings rest

module _ (inet_ntoa : Bytes → Bytes) (message : Bytes) where
  -- The text that is printed for an answer that was looked for.
  abbrev pub shown_as : List Bytes × Bytes → Bytes × Bytes
  shown_as (names, rdata) = (joined names, inet_ntoa rdata)

  print_address :
      (names : List Bytes) (rdata rest : Bytes) (r : ResRecord)
      → c_string r.name ≡ ok (joined names)
      → ntohs_at message r.resource ≡ ok qtype_a
      → r.rdata ≡ rdata ++ 0 ∷ rest
      → 8 ≤ length r.rdata
      → length rdata ≡ 4
      → print_answer inet_ntoa message r
        ≡ ok (record { name = joined names; sayings = has_ipv4_address (inet_ntoa rdata) ∷ [] })
  unfolding print_answer load_address
  print_address names rdata rest r text type block room four =
      let first : take 4 r.rdata ≡ rdata = rw (block, ← four) (take-append_left rdata (0 ∷ rest)) in
      rw (text, ◌>>=◌, type, le→ltb (length r.rdata) 8 room, first) refl

  -- A record of another type prints no address.
  print_alias :
      (names target : List Bytes) (r : ResRecord) (type : ℕ)
      → c_string r.name ≡ ok (joined names)
      → ntohs_at message r.resource ≡ ok type
      → type ≢ qtype_a
      → c_string r.rdata ≡ ok (joined target)
      → (line : Line) × (print_answer inet_ntoa message r ≡ ok line)
        × ((lines : List Line) → first_shown (line ∷ lines) ≡ first_shown lines)
  unfolding print_answer
  print_alias names target r type text t ne text' = elim (Bool-cases (type == t_cname)) [
    | inl cname ↦ (
      record { name = joined names; sayings = has_alias_name (joined target) ∷ [] },
      rw (text, ◌>>=◌, t, ne→== type qtype_a ne, cname, text') refl,
      λ lines. refl,
    )
    | inr other ↦ (
      record { name = joined names; sayings = [] },
      rw (text, ◌>>=◌, t, ne→== type qtype_a ne, other) refl,
      λ lines. refl,
    )
  ]

  -- For records that hold answers whose addresses have four bytes, dns.c prints lines of which the
  -- first with an address shows the first answer of type A.
  pub print_all-HoldsAll :
      (answers : List Answer) (records : List ResRecord)
      → All IsIpv4 answers
      → HoldsAll message answers records
      → (lines : List Line) × (print_all inet_ntoa message (print_answer inet_ntoa message) records
          ≡ ok lines)
        × (first_shown lines ≡ Option.map shown_as (first_of_type_a answers))
  unfolding print_all
  print_all-HoldsAll [] [] v h = ([], refl, refl)
  print_all-HoldsAll [] (r ∷ records) v h = absurd h
  print_all-HoldsAll (a ∷ answers) [] v h = absurd h
  print_all-HoldsAll (address names rdata ∷ answers) (r ∷ records) v
        ((text, type, (rest, block), room), h) =
      let (lines, run, shown) = print_all-HoldsAll answers records v.1 h in
      let line = print_address names rdata rest r text type block room v.0 in
      (
        record { name = joined names; sayings = has_ipv4_address (inet_ntoa rdata) ∷ [] } ∷ lines,
        rw (line, ◌>>=◌, run) refl,
        refl,
      )
  print_all-HoldsAll (alias names target ∷ answers) (r ∷ records) v
        ((text, (type, t, ne), text'), h) =
      let (lines, run, shown) = print_all-HoldsAll answers records v.1 h in
      let (line, printed, silent) = print_alias names target r type text t ne text' in
      (line ∷ lines, rw (printed, ◌>>=◌, run) refl, silent lines ∙ shown)
