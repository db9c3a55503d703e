-- ===== src/Asyncdns/Tests.antt =====
-- Concrete names.
use shadowc.Base.{◌≡◌, refl, List, [], ◌∷◌, ◌++◌, Bytes, replicate, All, arith}
use shadowc.Base.Text.{codes}
use shadowc.Memory.{ok, fault, out_of_bounds_write, load, store, c_string}
use shadowc.Asyncdns.Names.{change_to_dns_name_format, read_name}
use shadowc.Asyncdns.Names.Labels.{IsLabel, split, split_from, wire, joined}
use shadowc.Asyncdns.Names.Reading.{pointer}
use shadowc.Asyncdns.Names.RoundTrip.{
  plain-Encodes, read_name-Encodes, read_name-change_to_dns_name_format, read_name_root,
}

-- "ab.c"
abbrev host : Bytes
host = codes "ab.c"

abbrev labels : List Bytes
labels = codes "ab" ∷ codes "c" ∷ []

-- A block of 256 stale bytes.
abbrev block : Bytes
block = replicate 256 7

labels-IsLabel : All IsLabel labels
labels-IsLabel = (
  record { nonempty = omega arith; short = omega arith; plain = omega arith },
  (record { nonempty = omega arith; short = omega arith; plain = omega arith }, tt),
)

host-IsLabel : All IsLabel (split host)
unfolding split_from
host-IsLabel = labels-IsLabel

-- "ab.c" as it is written, with a stale byte 9 behind it.
format_host :
    change_to_dns_name_format (replicate 8 9) 0 host
    ≡ ok (2 ∷ b'a' ∷ b'b' ∷ 1 ∷ b'c' ∷ 9 ∷ 0 ∷ 9 ∷ [])
unfolding change_to_dns_name_format store
format_host = refl

read_name-change_to_dns_name_format_example :
    (message : Bytes) × (name : Bytes) × (change_to_dns_name_format
        (replicate 5 9 ++ 0 ∷ 9 ∷ [])
        0
        host
      ≡ ok message)
    × (read_name 6 message 0 block ≡ ok (name, 6))
    × (c_string name ≡ ok host)
read_name-change_to_dns_name_format_example =
    read_name-change_to_dns_name_format host [] (replicate 5 9) [] block 9 6 host-IsLabel refl
      (omega arith) (omega arith)

-- The name, and behind it a pointer back to it.
abbrev compressed : Bytes
compressed = 2 ∷ b'a' ∷ b'b' ∷ 1 ∷ b'c' ∷ 0 ∷ 192 ∷ 0 ∷ []

read_name-Encodes_example :
    (name : Bytes) × (read_name 7 compressed 6 block ≡ ok (name, 2))
    × (c_string name ≡ ok (joined labels))
unfolding load wire
read_name-Encodes_example =
    read_name-Encodes compressed block 7 6 labels
      (pointer {c = 192} {low = 0} refl (omega arith) refl
        (plain-Encodes [] (wire labels) (192 ∷ 0 ∷ []) refl (omega arith)))
      labels-IsLabel (λ e. cc) (omega arith) (omega arith)

read_name_root_example : read_name 1 compressed 5 block ≡ fault out_of_bounds_write
unfolding load
read_name_root_example = read_name_root compressed block 0 5 refl (omega arith)
