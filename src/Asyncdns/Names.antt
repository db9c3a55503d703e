-- ===== src/Asyncdns/Names.antt =====
-- Domain names on the wire: `change_to_dns_name_format` and `read_name` of lib/asyncdns.cpp.
-- A pointer into a block is an index. `host` is the C string's characters, without the NUL.
pub mod Labels
pub mod Formatting
pub mod Overflow
pub mod Dotting
pub mod Reading
pub mod Termination
pub mod RoundTrip
use shadowc.Base.{
  ℕ, zero, suc, ◌+◌, ◌-◌, ◌*◌, ◌%◌, Bool, true, false, [], ◌∷◌, Bytes, ltb, leb, ◌==◌,
  if◌then◌else◌, length,
}
use shadowc.Memory.{Outcome, ok, fault, no_fuel, out_of_bounds_write, ◌>>=◌, load, store, strlen}

-- The loop of `change_to_dns_name_format`, and the two writes behind it. `label_len` is an
-- `unsigned char`, and wraps.
format_loop : Bytes → ℕ → ℕ → ℕ → Bytes → Outcome Bytes
format_loop [] dns label_len label_len_ptr block = do
  block' ← store block label_len_ptr label_len
  store block' (dns + 1) 0
format_loop (v ∷ host) dns label_len label_len_ptr block = elim (v == b'.') [
  | true ↦ do block' ← store block label_len_ptr label_len; format_loop host (dns + 1) 0 dns block'
  | false ↦ do
    block' ← store block dns v
    format_loop host (dns + 1) ((label_len + 1) % 256) label_len_ptr block'
]

-- Writes the name `host` at index `dns` of the block.
unfoldable pub change_to_dns_name_format : Bytes → ℕ → Bytes → Outcome Bytes
unfolding format_loop
change_to_dns_name_format block dns host = format_loop host (dns + 1) 0 dns block

-- The variables of the first loop of `read_name` that outlive it.
pub record ReadState : Type 0 where
  pub name : Bytes
  pub p : ℕ
  pub jumped : Bool
  pub count : ℕ

-- `while (*reader != 0)`: every byte from 192 on is taken for the first half of a pointer.
pub read_loop : ℕ → Bytes → ℕ → ReadState → Outcome ReadState
read_loop zero buffer reader s = no_fuel
read_loop (suc fuel) buffer reader s = do
  c ← load buffer reader
  elim (c == 0) [
    | true ↦ ok s
    | false ↦ elim (leb 192 c) [
      | true ↦ do
        low ← load buffer (reader + 1)
        read_loop fuel buffer (c * 256 + low - 49152) (record s { jumped = true })
      | false ↦ do
        name' ← store s.name s.p c
        read_loop fuel buffer (reader + 1) (record s {
          name = name';
          p = s.p + 1;
          count = if s.jumped then s.count else s.count + 1;
        })
    ]
  ]

-- The inner loop of the conversion: the label moves down over its length byte.
shift : ℕ → ℕ → Bytes → Outcome (ℕ × Bytes)
shift zero i name = ok (i, name)
shift (suc n) i name = do c ← load name (i + 1); name' ← store name i c; shift n (i + 1) name'

-- The outer loop of the conversion.
pub dot_loop : ℕ → ℕ → Bytes → Outcome (ℕ × Bytes)
dot_loop zero i name = no_fuel
dot_loop (suc fuel) i name = do
  n ← strlen name
  elim (ltb i n) [
    | true ↦ do
      p ← load name i
      (i', name') ← shift p i name
      name'' ← store name' i' b'.'
      dot_loop fuel (i' + 1) name''
    | false ↦ ok (i, name)
  ]

-- `name[i-1] = '\0'`
pub end_name : ℕ → Bytes → Outcome Bytes
end_name zero name = fault out_of_bounds_write
end_name (suc i) name = store name i 0

-- `block` is what `malloc(256)` returns, stale bytes and all. The result is the block, with the
-- final `*count`.
unfoldable pub read_name : ℕ → Bytes → ℕ → Bytes → Outcome (Bytes × ℕ)
unfolding read_loop dot_loop end_name shift
read_name fuel buffer reader block = do
  cleared ← store block 0 0
  s ← read_loop fuel buffer reader (record { name = cleared; p = 0; jumped = false; count = 1 })
  name ← store s.name s.p 0
  (i, dotted) ← dot_loop (length name + 1) 0 name
  result ← end_name i dotted
  ok (result, if s.jumped then s.count + 1 else s.count)
