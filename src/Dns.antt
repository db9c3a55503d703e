-- ===== src/Dns.antt =====
-- dns.c, the stand-alone resolver program: its names, and how it reads the sections of a response.
-- A pointer into a block is an index. Printing and the socket are left out.
pub mod Formatting
pub mod Sections
pub mod Packet
pub mod Asked
pub mod Report
mod Tests
use shadowc.Base.{
  ℕ, zero, suc, ◌+◌, ◌-◌, ◌*◌, ◌%◌, Bool, true, false, List, [], ◌∷◌, Bytes, drop, ltb, ◌==◌,
}
use shadowc.Memory.{
  Outcome, ok, fault, no_fuel, out_of_bounds_write, ◌>>=◌, load, store, store_all, strlen,
}
use shadowc.Asyncdns.Header.{encode, decode, ntohs_at, header_len}
use shadowc.Asyncdns.Response.{
  ResRecord, Malloc, qtype_a, question_len, r_data_len, parse_rdata, load_address,
}
use shadowc.Asyncdns.Names.{read_name}
use shadowc.Asyncdns.Query.{query_header, ask}

-- `strcat(host, ".")`
unfoldable pub strcat_dot : Bytes → Outcome Bytes
strcat_dot host = do n ← strlen host; host' ← store host n b'.'; store host' (n + 1) 0

-- `for (; lock < i; lock++) *dns++ = host[lock]`, with `n` rounds to go.
copy_label : ℕ → Bytes → ℕ → ℕ → Bytes → Outcome (ℕ × ℕ × Bytes)
copy_label zero host lock dns block = ok (lock, dns, block)
copy_label (suc n) host lock dns block = do
  c ← load host lock
  block' ← store block dns c
  copy_label n host (lock + 1) (dns + 1) block'

-- The loop of `ChangetoDnsNameFormat`, and the write behind it.
label_loop : ℕ → Bytes → ℕ → ℕ → ℕ → Bytes → Outcome Bytes
label_loop zero host i lock dns block = no_fuel
label_loop (suc fuel) host i lock dns block = do
  n ← strlen host
  elim (ltb i n) [
    | false ↦ store block dns 0
    | true ↦ do
      c ← load host i
      elim (c == b'.') [
        | false ↦ label_loop fuel host (i + 1) lock dns block
        | true ↦ do
          block' ← store block dns ((i - lock) % 256)
          (lock', dns', block'') ← copy_label (i - lock) host lock (dns + 1) block'
          label_loop fuel host (i + 1) (lock' + 1) dns' block''
      ]
  ]

-- `ChangetoDnsNameFormat`: `host` is the whole block that holds the host name, to which the dot is
-- added.
unfoldable pub changeto_dns_name_format : ℕ → Bytes → ℕ → Bytes → Outcome Bytes
unfolding label_loop copy_label
changeto_dns_name_format fuel block dns host = do
  dotted ← strcat_dot host
  label_loop fuel dotted 0 0 dns block

-- The query that `ngethostbyname` sends, built in `buf`; `host` is the block with the host name.
unfoldable pub query_packet : ℕ → ℕ → Bytes → Bytes → ℕ → Outcome Bytes
query_packet fuel pid buf host query_type = do
  headed ← store_all buf 0 (encode (query_header pid))
  named ← changeto_dns_name_format fuel headed header_len host
  ask named query_type

-- `ReadName`, whose text is that of `read_name`.
abbrev pub readname : ℕ → Bytes → ℕ → Bytes → Outcome (Bytes × ℕ)
readname = read_name

-- `answers[20], auth[20], addit[20]`
abbrev pub capacity : ℕ
capacity = 20

-- The data of a record, behind the `R_DATA` at `resource`. The loop over the authorities does not
-- look at the type.
read_data : ℕ → Bytes → Bool → ℕ → (ℕ → Bytes) → Outcome (Bytes × ℕ)
read_data fuel message true resource allocate = do
  type ← ntohs_at message resource
  parse_rdata fuel message type resource (resource + r_data_len) allocate
read_data fuel message false resource allocate = do
  (rdata, count) ← readname fuel message (resource + r_data_len) (allocate 256)
  ok (rdata, resource + r_data_len + count)

-- The loop over a section: record `i`, with `n` to go, and `k` blocks allocated before. The result
-- is the records, and the reader behind them.
pub read_section : ℕ → Malloc → Bytes → Bool → ℕ → ℕ → ℕ → ℕ → Outcome (List ResRecord × ℕ)
unfolding read_data
read_section fuel malloc message typed zero i k reader = ok ([], reader)
read_section fuel malloc message typed (suc n) i k reader = do
  (name, count) ← readname fuel message reader (malloc k 256)
  elim (ltb i capacity) [
    | false ↦ fault out_of_bounds_write
    | true ↦ do
      (rdata, reader') ← read_data fuel message typed (reader + count) (malloc (k + 1))
      (records, end) ← read_section fuel malloc message typed n (i + 1) (k + 2) reader'
      ok (
        record {
          name_block = k;
          name = name;
          resource = reader + count;
          rdata_block = k + 1;
          rdata = rdata;
        }
            ∷ records,
        end,
      )
  ]

pub record Records : Type 0 where
  pub answers : List ResRecord
  pub auth : List ResRecord
  pub addit : List ResRecord

-- The part of `ngethostbyname` that reads the response; `message` is the buffer as it stands after
-- `recvfrom`.
unfoldable pub read_response : ℕ → Malloc → Bytes → Outcome Records
unfolding read_section
read_response fuel malloc message = do
  dns ← decode message
  query ← strlen (drop header_len message)
  let start = header_len + (query + 1) + question_len
  (answers, after_answers) ← read_section fuel malloc message true dns.ans_count 0 0 start
  (auth, after_auth) ←
      read_section fuel malloc message false dns.auth_count 0 (2 * dns.ans_count) after_answers
  (addit, end) ←
      read_section fuel malloc message true dns.add_count 0 (2 * dns.ans_count + 2 * dns.auth_count)
        after_auth
  ok (record { answers = answers; auth = auth; addit = addit })
