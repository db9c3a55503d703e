-- ===== src/Dns/Tests.antt =====
-- dns.c on small blocks: a host name, and a message of two address records.
use shadowc.Base.{length, All, ℕ, ◌≡◌, refl, true, List, [], ◌∷◌, ◌++◌, Bytes, replicate, arith}
use shadowc.Base.Text.{codes}
use shadowc.Memory.{Outcome, ok, fault, out_of_bounds_write, load, store, strlen, c_string}
use shadowc.Asyncdns.Header.{decode, ntohs_at}
use shadowc.Asyncdns.Names.{read_name}
use shadowc.Asyncdns.Names.Labels.{wire, split_from, split, IsLabel}
use shadowc.Asyncdns.Response.{ResRecord, parse_rdata, parse_answers}
use shadowc.Asyncdns.Response.Tests.{roomy_malloc}
use shadowc.Dns.{query_packet, read_section}
use shadowc.Dns.Asked.{query_packet-read_name}
use shadowc.Asyncdns.Query.{query_header}
use shadowc.Asyncdns.Header.{encode}
use shadowc.Dns.Sections.{read_section_overflow}

-- A record's type, class, time to live, length and data.
abbrev address_record : Bytes
address_record = 0 ∷ 1 ∷ 0 ∷ 1 ∷ 0 ∷ 0 ∷ 0 ∷ 9 ∷ 0 ∷ 4 ∷ 10 ∷ 0 ∷ 0 ∷ 7 ∷ []

abbrev two_records : Bytes
two_records = (1 ∷ 97 ∷ 0 ∷ []) ++ (address_record ++ (192 ∷ 0 ∷ address_record))

abbrev records_of : Outcome (List ResRecord) → List ResRecord
records_of (ok records) = records
records_of _ = []

abbrev parsed : ℕ → List ResRecord
parsed i = records_of (parse_answers 9 roomy_malloc two_records 2 i 0)

read_section_overflow_example :
    read_section 9 roomy_malloc two_records true 2 19 38 0 ≡ fault out_of_bounds_write
unfolding parse_answers parse_rdata read_name ntohs_at load store strlen c_string
read_section_overflow_example =
    read_section_overflow 9 roomy_malloc two_records 2 19 38 0 {records = parsed 19} refl
      (omega arith) (omega arith) refl

abbrev dirty : Bytes
dirty = replicate 30 9

short_labels : All IsLabel (split (codes "a.b"))
unfolding split_from
short_labels = (
  record { nonempty = omega arith; short = omega arith; plain = omega arith },
  (record { nonempty = omega arith; short = omega arith; plain = omega arith }, tt),
)

query_packet-read_name_example :
    let packet = encode (query_header 7) ++ (1 ∷ 97 ∷ 1 ∷ 98 ∷ 0 ∷ 0 ∷ 1 ∷ 0 ∷ 1 ∷ []) in
    (name : Bytes) × (query_packet 10 7 dirty (codes "a.b" ++ 0 ∷ 8 ∷ []) 1 ≡ ok packet)
    × (length packet ≡ 21)
    × (decode packet ≡ ok (query_header 7))
    × (read_name 10 packet 12 dirty ≡ ok (name, 5))
    × (c_string name ≡ ok (codes "a.b"))
    × (ntohs_at packet 17 ≡ ok 1)
    × (ntohs_at packet 19 ≡ ok 1)
unfolding wire split_from
query_packet-read_name_example =
    query_packet-read_name 7 1 (codes "a.b") [] (replicate 12 9) (9 ∷ 9 ∷ 9 ∷ 9 ∷ [])
      (9 ∷ 9 ∷ 9 ∷ 9 ∷ []) (replicate 9 9) dirty 8 9 10 ((λ e. cc), ((λ e. cc), ((λ e. cc), tt)))
      short_labels (omega arith) refl refl refl (omega arith) (omega arith)
