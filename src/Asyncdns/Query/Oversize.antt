-- ===== src/Asyncdns/Query/Oversize.antt =====
-- Host names that do not fit into the 128 bytes of `buf`.
use shadowc.Base.{ℕ, ◌≤◌, ◌≡◌, inl, inr, Bytes, length, arith}
use shadowc.Memory.{fault, out_of_bounds_write, ◌>>=◌}
use shadowc.Memory.Laws.{store_all-cases}
use shadowc.Asyncdns.Header.{encode, header_len}
use shadowc.Asyncdns.Names.Overflow.{change_to_dns_name_format_overflow}
use shadowc.Asyncdns.Query.{query_header, build_query}

-- A host name of 114 characters or more overruns the buffer of 128 bytes, whatever the buffer held.
pub build_query_oversize :
    (pid query_type : ℕ) (buf hostname : Bytes)
    → length buf ≡ 128
    → 114 ≤ length hostname
    → build_query pid buf hostname query_type ≡ fault out_of_bounds_write
unfolding build_query
build_query_oversize pid query_type buf hostname b h =
    elim (store_all-cases (encode (query_header pid)) buf 0) [
      | inl (headed, e, l) ↦
          rw (e, ◌>>=◌, change_to_dns_name_format_overflow hostname headed header_len (omega arith))
      | inr e ↦ rw e
    ]
