-- ===== src/Asyncdns/Query.antt =====
-- The datagram of `DNSResolver::send_req` of lib/asyncdns.cpp.
pub mod Packet
pub mod Oversize
pub mod Fitting
mod Tests
use shadowc.Base.{ℕ, ◌+◌, ◌%◌, ◌++◌, Bytes, take, drop}
use shadowc.Memory.{Outcome, ok, ◌>>=◌, store_all, strlen}
use shadowc.Asyncdns.Header.{DnsHeader, encode, htons, header_len}
use shadowc.Asyncdns.Names.{change_to_dns_name_format}
use shadowc.Asyncdns.Response.{question_len}

-- A standard query with one question, recursion desired.
abbrev pub query_header : ℕ → DnsHeader
query_header pid = record {
  id = pid % 65536;
  rd = 1;
  tc = 0;
  aa = 0;
  opcode = 0;
  qr = 0;
  rcode = 0;
  cd = 0;
  ad = 0;
  z = 0;
  ra = 0;
  q_count = 1;
  ans_count = 0;
  auth_count = 0;
  add_count = 0;
}

-- The question's type, and class IN.
abbrev pub question : ℕ → Bytes
question query_type = htons query_type ++ htons 1

-- Behind the name: the question is written, and the datagram measured; `named` is the buffer.
unfoldable pub ask : Bytes → ℕ → Outcome Bytes
ask named query_type = do
  qname_len ← strlen (drop header_len named)
  asked ← store_all named (header_len + (qname_len + 1)) (question query_type)
  qname_len' ← strlen (drop header_len asked)
  ok (take (header_len + (qname_len' + 1) + question_len) asked)

-- `buf` is the stack array of 128 bytes, with what stood there before. The result is what each
-- `sendto` sends, the first `len` bytes.
unfoldable pub build_query : ℕ → Bytes → Bytes → ℕ → Outcome Bytes
unfolding ask
build_query pid buf hostname query_type = do
  headed ← store_all buf 0 (encode (query_header pid))
  named ← change_to_dns_name_format headed header_len hostname
  ask named query_type
