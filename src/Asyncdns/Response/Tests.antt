-- ===== src/Asyncdns/Response/Tests.antt =====
-- A response with one address record, and one that answers with an alias.
use shadowc.Base.{ℕ, ◌+◌, ◌≡◌, refl, List, [], ◌∷◌, ◌++◌, Bytes, length-replicate, replicate, arith}
use shadowc.Base.Text.{codes}
use shadowc.Memory.{Outcome, ok, fault, out_of_bounds_write, load, c_string, strlen, store}
use shadowc.Asyncdns.Header.{DnsHeader, decode, ntohs_at}
use shadowc.Asyncdns.Names.{read_name}
use shadowc.Asyncdns.Names.Labels.{wire}
use shadowc.Asyncdns.Names.Reading.{pointer}
use shadowc.Asyncdns.Names.RoundTrip.{plain-Encodes}
use shadowc.Asyncdns.Response.{
  ResRecord, Malloc, parse_answers, parse_response, copy, block, array, free_response, parse_rdata,
}
use shadowc.Asyncdns.Response.Parsing.{
  IsRoomy, NameAt, Answer, address, done, address_at, IsResponse, HoldsAll,
  parse_response-IsResponse,
}
use shadowc.Asyncdns.Response.Release.{parse_response-free_response}
use shadowc.Asyncdns.Response.Overflow.{parse_answers_overflow}

-- Blocks with eight bytes to spare, and blocks with none.
abbrev pub roomy_malloc : Malloc
roomy_malloc k n = replicate (n + 8) 7

abbrev exact_malloc : Malloc
exact_malloc k n = replicate n 7

pub roomy_malloc-IsRoomy : IsRoomy roomy_malloc
roomy_malloc-IsRoomy = record {
  spare = λ k n. omega (arith, length-replicate {A = ℕ} (n + 8) 7);
  room_for_long = λ k n. omega (arith, length-replicate {A = ℕ} (n + 8) 7);
}

abbrev pub dns : DnsHeader
dns = record {
  id = 258;
  rd = 1;
  tc = 0;
  aa = 0;
  opcode = 0;
  qr = 1;
  rcode = 0;
  cd = 0;
  ad = 0;
  z = 0;
  ra = 1;
  q_count = 1;
  ans_count = 1;
  auth_count = 0;
  add_count = 0;
}

-- Header and question, for the name "a".
abbrev question_part : Bytes
question_part =
    1 ∷ 2 ∷ 0x81 ∷ 0x80 ∷ 0 ∷ 1 ∷ 0 ∷ 1 ∷ 0 ∷ 0 ∷ 0 ∷ 0 ∷ 1 ∷ b'a' ∷ 0 ∷ 0 ∷ 1 ∷ 0 ∷ 1 ∷ []

-- A pointer to the name, type A, class IN, a time to live, the length 4.
abbrev record_part : Bytes
record_part = 192 ∷ 12 ∷ 0 ∷ 1 ∷ 0 ∷ 1 ∷ 0 ∷ 0 ∷ 0 ∷ 9 ∷ 0 ∷ 4 ∷ []

abbrev pub ip_bytes : Bytes
ip_bytes = 10 ∷ 0 ∷ 0 ∷ 7 ∷ []

abbrev pub message : Bytes
message = (question_part ++ record_part) ++ (ip_bytes ++ 0 ∷ 0 ∷ [])

abbrev pub names : List Bytes
names = codes "a" ∷ []

abbrev pub answers : List Answer
answers = address names ip_bytes ∷ []

name_at : NameAt message 20 19 names 2
unfolding load wire
name_at = record {
  steps = 4;
  encodes = pointer {c = 192} {low = 12} refl (omega arith) refl (
      plain-Encodes (1 ∷ 2 ∷ 0x81 ∷ 0x80 ∷ 0 ∷ 1 ∷ 0 ∷ 1 ∷ 0 ∷ 0 ∷ 0 ∷ 0 ∷ []) (wire names) _ refl
        (omega arith));
  labels = (record { nonempty = omega arith; short = omega arith; plain = omega arith }, tt);
  nonempty = λ e. cc;
  fits = omega arith;
  enough = omega arith;
}

pub message-IsResponse : IsResponse message 20 answers
unfolding decode load strlen c_string
message-IsResponse = record {
  dns = dns;
  query = 2;
  decodes = refl;
  counted = refl;
  query_len = refl;
  answers_at =
      address_at (question_part ++ record_part) (0 ∷ 0 ∷ []) name_at refl refl refl refl done;
}

pub message-answers_only :
    (message-IsResponse.dns.auth_count ≡ 0) × (message-IsResponse.dns.add_count ≡ 0)
unfolding message-IsResponse
message-answers_only = (refl, refl)

parse_response-IsResponse_example :
    (records : List ResRecord) × (parse_response 20 roomy_malloc message ≡ ok records)
    × HoldsAll message answers records
parse_response-IsResponse_example =
    parse_response-IsResponse roomy_malloc-IsRoomy message 20 message-IsResponse

parse_answers_overflow_example :
    parse_answers 20 exact_malloc message 1 0 19 ≡ fault out_of_bounds_write
unfolding read_name ntohs_at load store strlen c_string copy
parse_answers_overflow_example =
    parse_answers_overflow 20 exact_malloc message 0 0 19 2 4 _ _ refl refl refl refl refl

abbrev records_of : Outcome (List ResRecord) → List ResRecord
records_of (ok records) = records
records_of _ = []

abbrev parsed : List ResRecord
parsed = records_of (parse_response 20 roomy_malloc message)

parse_response-free_response_example : free_response parsed ≡ block 0 ∷ block 1 ∷ array ∷ []
unfolding parse_response parse_answers parse_rdata read_name ntohs_at load store strlen c_string
    decode
parse_response-free_response_example =
    parse_response-free_response 20 roomy_malloc message {dns = dns} {records = parsed} refl refl
