-- ===== src/Asyncdns/Response.antt =====
-- `parse_response` of lib/asyncdns.cpp, and the choice that `handle_data` makes among the records.
-- Printing is left out. Pointers into the message are indices into `message`.
pub mod Copying
pub mod Parsing
pub mod Finding
pub mod Reply
pub mod Overflow
pub mod Release
pub mod Termination
pub mod Tests
use shadowc.Base.{
  ℕ, zero, suc, ◌+◌, ◌*◌, Bool, true, false, Option, none, some, List, [], ◌∷◌, Bytes, drop, take,
  ltb, length, ◌==◌, if◌then◌else◌,
}
use shadowc.Memory.{Outcome, ok, fault, out_of_bounds_read, ◌>>=◌, load, store, strlen}
use shadowc.Asyncdns.Header.{DnsHeader, decode, ntohs_at, header_len}
use shadowc.Asyncdns.Names.{read_name}

-- `RES_RECORD`. The blocks are owned, and have the numbers of the calls of `malloc` that made them;
-- `resource` points into the message.
pub record ResRecord : Type 0 where
  pub name_block : ℕ
  pub name : Bytes
  pub resource : ℕ
  pub rdata_block : ℕ
  pub rdata : Bytes

-- `malloc k n` is the block, stale bytes included, that the k-th call returns for n bytes.
abbrev pub Malloc : Type 0
Malloc = ℕ → ℕ → Bytes

abbrev pub qtype_a : ℕ
qtype_a = 1

-- `sizeof(QUESTION)`, `sizeof(R_DATA)` and the index of `data_len` in it
abbrev pub question_len : ℕ
question_len = 4

abbrev pub r_data_len : ℕ
r_data_len = 10

abbrev pub data_len_at : ℕ
data_len_at = 8

-- `for (int j = 0; j < resource_len; ++j) rdata[j] = reader[j]`, with `n` rounds to go.
pub copy : ℕ → ℕ → Bytes → ℕ → Bytes → Outcome Bytes
copy zero j message reader rdata = ok rdata
copy (suc n) j message reader rdata = do
  c ← load message (reader + j)
  rdata' ← store rdata j c
  copy n (j + 1) message reader rdata'

-- The resource data at `reader`, behind the `R_DATA` at `resource`: the block, and the reader
-- behind it.
unfoldable pub parse_rdata : ℕ → Bytes → ℕ → ℕ → ℕ → (ℕ → Bytes) → Outcome (Bytes × ℕ)
unfolding copy
parse_rdata fuel message type resource reader allocate = elim (type == qtype_a) [
  | true ↦ do
    resource_len ← ntohs_at message (resource + data_len_at)
    rdata ← copy resource_len 0 message reader (allocate resource_len)
    rdata' ← store rdata resource_len 0
    ok (rdata', reader + resource_len)
  | false ↦ do
    (rdata, count) ← read_name fuel message reader (allocate 256)
    ok (rdata, reader + count)
]

-- The loop over the answers: record `i`, with `n` to go.
unfoldable pub parse_answers : ℕ → Malloc → Bytes → ℕ → ℕ → ℕ → Outcome (List ResRecord)
parse_answers fuel malloc message zero i reader = ok []
parse_answers fuel malloc message (suc n) i reader = do
  (name, count) ← read_name fuel message reader (malloc (2 * i) 256)
  let resource = reader + count
  type ← ntohs_at message resource
  (rdata, reader') ←
      parse_rdata fuel message type resource (resource + r_data_len) (malloc (2 * i + 1))
  answers ← parse_answers fuel malloc message n (i + 1) reader'
  ok (
      record {
        name_block = 2 * i;
        name = name;
        resource = resource;
        rdata_block = 2 * i + 1;
        rdata = rdata;
      }
      ∷ answers)

unfoldable pub parse_response : ℕ → Malloc → Bytes → Outcome (List ResRecord)
unfolding parse_answers parse_rdata
parse_response fuel malloc message = do
  dns ← decode message
  query ← strlen (drop header_len message)
  parse_answers fuel malloc message dns.ans_count 0 (header_len + (query + 1) + question_len)

-- `a.sin_addr.s_addr = *(long*) rdata`: a read of eight bytes, of which an address keeps the first
-- four in memory.
unfoldable pub load_address : Bytes → Outcome Bytes
load_address rdata = if ltb (length rdata) 8 then fault out_of_bounds_read else ok (take 4 rdata)

-- The loop of `handle_data`: the first record of type A, as its name's block and its address.
unfoldable pub first_address : Bytes → List ResRecord → Outcome (Option (Bytes × Bytes))
unfolding load_address
first_address message [] = ok none
first_address message (answer ∷ answers) =
    let rest = first_address message answers in
    do
      type ← ntohs_at message answer.resource
      elim (type == qtype_a) [
        | true ↦ do address ← load_address answer.rdata; ok (some (answer.name, address))
        | false ↦ rest
      ]

-- What `free` is given: the array of records, or the block of a call of `malloc` for a name or data.
pub data Freed : Type 0 where
  array : Freed
  block : ℕ → Freed

free_records : List ResRecord → List Freed
free_records [] = array ∷ []
free_records (r ∷ records) = block r.name_block ∷ block r.rdata_block ∷ free_records records

-- The pair's count is the length of the list.
unfoldable pub free_response : List ResRecord → List Freed
unfolding free_records
free_response records = free_records records
