-- ===== src/Asyncdns/Response/Overflow.antt =====
-- What `parse_response` writes behind the end of a block, for any data that a record may hold.
use shadowc.Base.{ℕ, suc, ◌+◌, ◌*◌, ◌≡◌, Bytes, length, arith}
use shadowc.Memory.{ok, fault, out_of_bounds_write, ◌>>=◌}
use shadowc.Memory.Laws.{store_out_of_bounds}
use shadowc.Asyncdns.Header.{ntohs_at}
use shadowc.Asyncdns.Names.{read_name}
use shadowc.Asyncdns.Response.{
  Malloc, qtype_a, r_data_len, data_len_at, copy, parse_rdata, parse_answers,
}
use shadowc.Asyncdns.Response.Copying.{length-copy}

-- If a record's name is read, its type is A, its data are copied to their block, and that block is
-- not longer than the program asks for, `parse_answers` ends in a write outside a block.
pub parse_answers_overflow :
    (fuel : ℕ) (malloc : Malloc) (message : Bytes) (n i reader count resource_len : ℕ)
    (name rdata : Bytes)
    → read_name fuel message reader (malloc (2 * i) 256) ≡ ok (name, count)
    → ntohs_at message (reader + count) ≡ ok qtype_a
    → ntohs_at message (reader + count + data_len_at) ≡ ok resource_len
    → copy resource_len 0 message (reader + count + r_data_len) (malloc (2 * i + 1) resource_len)
      ≡ ok rdata
    → length (malloc (2 * i + 1) resource_len) ≡ resource_len
    → parse_answers fuel malloc message (suc n) i reader ≡ fault out_of_bounds_write
unfolding parse_answers parse_rdata
parse_answers_overflow fuel malloc message n i reader count len name rdata a b c d exact =
    let full = length-copy len 0 message (reader + count + r_data_len) _ d in
    rw (a, ◌>>=◌, b, c, d, store_out_of_bounds rdata len 0 (omega arith))
