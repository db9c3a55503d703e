-- ===== src/Asyncdns/Response/Parsing.antt =====
-- `parse_response` on messages whose answers are well-formed records.
use shadowc.Base.{
  ℕ, suc, ◌+◌, ◌*◌, ◌≤◌, ◌<◌, ◌≡◌, ◌≢◌, refl, List, [], ◌∷◌, ◌++◌, Bytes, length, length-append,
  drop, All, ne→==, arith, length-drop,
}
use shadowc.Memory.{ok, ◌>>=◌, strlen, c_string}
use shadowc.Asyncdns.Header.{DnsHeader, decode, ntohs_at, header_len}
use shadowc.Asyncdns.Names.{read_name}
use shadowc.Asyncdns.Names.Labels.{wire, joined, IsLabel}
use shadowc.Asyncdns.Names.Reading.{Encodes}
use shadowc.Asyncdns.Names.RoundTrip.{read_name-Encodes}
use shadowc.Asyncdns.Response.{
  ResRecord, Malloc, qtype_a, question_len, r_data_len, data_len_at, parse_rdata, parse_answers,
  parse_response,
}
use shadowc.Asyncdns.Response.Copying.{copy-data, store_terminator}

-- Every block has a byte to spare, and room for a `long`: more than `malloc` promises.
pub record IsRoomy (malloc : Malloc) : Type 0 where
  pub spare : (k n : ℕ) → n < length (malloc k n)
  pub room_for_long : (k n : ℕ) → 8 ≤ length (malloc k n)

-- A name in the message, with at most 255 bytes on the wire, that takes up `used` bytes at `pos`.
pub record NameAt (message : Bytes) (fuel pos : ℕ) (names : List Bytes) (used : ℕ) : Type 0 where
  pub steps : ℕ
  pub encodes : Encodes message pos (wire names) used steps
  pub labels : All IsLabel names
  pub nonempty : names ≢ []
  pub fits : length (wire names) < 256
  pub enough : steps ≤ fuel

-- What a record says: an address, or another type whose data is a name.
pub data Answer : Type 0 where
  address : List Bytes → Bytes → Answer
  alias : List Bytes → List Bytes → Answer

-- The answers that stand in the message from a position on.
pub data AnswersAt (message : Bytes) (fuel : ℕ) : ℕ → List Answer → Type 0 where
  done : {pos : ℕ} → AnswersAt message fuel pos []
  address_at :
      {pos used : ℕ} {names : List Bytes} {rdata : Bytes} {answers : List Answer} (pre post : Bytes)
      → NameAt message fuel pos names used
      → ntohs_at message (pos + used) ≡ ok qtype_a
      → ntohs_at message (pos + used + data_len_at) ≡ ok (length rdata)
      → message ≡ pre ++ (rdata ++ post)
      → pos + used + r_data_len ≡ length pre
      → AnswersAt message fuel (pos + used + r_data_len + length rdata) answers
      → AnswersAt message fuel pos (address names rdata ∷ answers)
  alias_at :
      {pos used used' type : ℕ} {names target : List Bytes} {answers : List Answer}
      → NameAt message fuel pos names used
      → ntohs_at message (pos + used) ≡ ok type
      → type ≢ qtype_a
      → NameAt message fuel (pos + used + r_data_len) target used'
      → AnswersAt message fuel (pos + used + r_data_len + used') answers
      → AnswersAt message fuel pos (alias names target ∷ answers)

-- A response with these answers behind one question, whose name is `query` bytes long.
pub record IsResponse (message : Bytes) (fuel : ℕ) (answers : List Answer) : Type 0 where
  pub dns : DnsHeader
  pub query : ℕ
  pub decodes : decode message ≡ ok dns
  pub counted : dns.ans_count ≡ length answers
  pub query_len : strlen (drop header_len message) ≡ ok query
  pub answers_at : AnswersAt message fuel (header_len + (query + 1) + question_len) answers

-- A record of the result holds an answer of the message.
abbrev pub Holds : Bytes → Answer → ResRecord → Type 0
Holds message (address names rdata) r =
    (c_string r.name ≡ ok (joined names))
    × (ntohs_at message r.resource ≡ ok qtype_a)
    × ((rest : Bytes) × (r.rdata ≡ rdata ++ 0 ∷ rest))
    × (8 ≤ length r.rdata)
Holds message (alias names target) r =
    (c_string r.name ≡ ok (joined names))
    × ((type : ℕ) × (ntohs_at message r.resource ≡ ok type) × (type ≢ qtype_a))
    × (c_string r.rdata ≡ ok (joined target))

abbrev pub HoldsAll : Bytes → List Answer → List ResRecord → Type 0
HoldsAll message [] [] = Unit
HoldsAll message (a ∷ answers) (r ∷ records) = Holds message a r × HoldsAll message answers records
HoldsAll message _ _ = ⊥

module _ {malloc : Malloc} (roomy : IsRoomy malloc) (message : Bytes) (fuel : ℕ) where
  read_name_at :
      (k pos : ℕ) {names : List Bytes} {used : ℕ}
      → NameAt message fuel pos names used
      → (name : Bytes) × (read_name fuel message pos (malloc k 256) ≡ ok (name, used))
        × (c_string name ≡ ok (joined names))
  read_name_at k pos {names} n =
      read_name-Encodes message (malloc k 256) fuel pos names n.encodes n.labels n.nonempty
        (omega (arith, n.fits, roomy.spare k 256)) n.enough

  parse_rdata_address :
      (k resource reader : ℕ) (rdata pre post : Bytes)
      → ntohs_at message (resource + data_len_at) ≡ ok (length rdata)
      → message ≡ pre ++ (rdata ++ post)
      → reader ≡ length pre
      → parse_rdata fuel message qtype_a resource reader (malloc k)
        ≡ ok (rdata ++ 0 ∷ drop (length rdata + 1) (malloc k (length rdata)), reader + length rdata)
  unfolding parse_rdata
  parse_rdata_address k resource reader rdata pre post len m p =
      let room = roomy.spare k (length rdata) in
      rw (
        len,
        copy-data pre rdata post (malloc k (length rdata)) m p (omega arith),
        store_terminator rdata (malloc k (length rdata)) room,
      )

  parse_rdata_alias :
      (k type resource reader : ℕ) {target : List Bytes} {used : ℕ}
      → type ≢ qtype_a
      → NameAt message fuel reader target used
      → (rdata : Bytes) × (parse_rdata fuel message type resource reader (malloc k)
          ≡ ok (rdata, reader + used))
        × (c_string rdata ≡ ok (joined target))
  unfolding parse_rdata
  parse_rdata_alias k type resource reader ne n =
      let (rdata, run, text) = read_name_at k reader n in
      (rdata, rw (ne→== type qtype_a ne, parse_rdata, run), text)

  parse_answers_step :
      (n i reader count type reader' : ℕ) (name rdata : Bytes) (records : List ResRecord)
      → read_name fuel message reader (malloc (2 * i) 256) ≡ ok (name, count)
      → ntohs_at message (reader + count) ≡ ok type
      → parse_rdata fuel message type
          (reader + count)
          (reader + count + r_data_len)
          (malloc (2 * i + 1))
        ≡ ok (rdata, reader')
      → parse_answers fuel malloc message n (i + 1) reader' ≡ ok records
      → parse_answers fuel malloc message (suc n) i reader
        ≡ ok (
            record {
              name_block = 2 * i;
              name = name;
              resource = reader + count;
              rdata_block = 2 * i + 1;
              rdata = rdata;
            }
            ∷ records)
  unfolding parse_answers
  parse_answers_step n i reader count type reader' name rdata records a b c d =
      rw (a, ◌>>=◌, b, c, d)

  pub parse_answers-AnswersAt :
      {pos : ℕ} {answers : List Answer}
      → AnswersAt message fuel pos answers
      → (i : ℕ)
      → (records : List ResRecord) × (parse_answers fuel malloc message (length answers) i pos
          ≡ ok records)
        × HoldsAll message answers records
  unfolding parse_answers
  parse_answers-AnswersAt done i = ([], refl, tt)
  parse_answers-AnswersAt {pos}
        (address_at {used} {names} {rdata} {answers} pre post n type len m p more) i =
      let k : ℕ = 2 * i + 1 in
      let (name, run, text) = read_name_at (2 * i) pos n in
      let (records, rest, held) =
        parse_answers-AnswersAt {pos = pos + used + r_data_len + length rdata} more (i + 1) in
      let stored : Bytes = rdata ++ 0 ∷ drop (length rdata + 1) (malloc k (length rdata)) in
      (
        record {
          name_block = 2 * i;
          name = name;
          resource = pos + used;
          rdata_block = k;
          rdata = stored;
        }
            ∷ records,
        parse_answers_step (length answers) i pos used qtype_a _ name stored records run type
            (parse_rdata_address k (pos + used) (pos + used + r_data_len) rdata pre post len m p)
            rest,
        (
          (
            text,
            type,
            (drop (length rdata + 1) (malloc k (length rdata)), refl),
            long_room k rdata,
          ),
          held,
        ),
      )
    where
      long_room :
          (k : ℕ) (rdata : Bytes)
          → 8 ≤ length (rdata ++ 0 ∷ drop (length rdata + 1) (malloc k (length rdata)))
      long_room k rdata = omega (
        arith,
        length-append rdata (0 ∷ drop (length rdata + 1) (malloc k (length rdata))),
        length-drop (length rdata + 1) (malloc k (length rdata)),
        roomy.room_for_long k (length rdata),
      )
  parse_answers-AnswersAt {pos}
        (alias_at {used} {used'} {type} {names} {target} {answers} n t ne n' more) i =
      let k : ℕ = 2 * i + 1 in
      let (name, run, text) = read_name_at (2 * i) pos n in
      let (rdata, run', text') =
        parse_rdata_alias k type (pos + used) (pos + used + r_data_len) ne n' in
      let (records, rest, held) =
        parse_answers-AnswersAt {pos = pos + used + r_data_len + used'} more (i + 1) in
      (
        record {
          name_block = 2 * i;
          name = name;
          resource = pos + used;
          rdata_block = k;
          rdata = rdata;
        }
            ∷ records,
        parse_answers_step (length answers) i pos used type _ name rdata records run t run' rest,
        ((text, (type, t, ne), text'), held),
      )

  -- Let a message count the answers that follow its question, whose name is the bytes up to a zero.
  -- Let each answer have an owner, and be of type A, with any data, or of another type whose data
  -- is a name; let these names be of one or more proper labels, at most 255 bytes long on the wire
  -- without the final zero, compressed or not, and such that the fuel suffices for them. With an
  -- allocator that leaves a byte to spare in each block, and room for a `long`, the message is
  -- parsed, and the records hold its answers in order: the names, the types, and the data.
  pub parse_response-IsResponse :
      {answers : List Answer}
      → IsResponse message fuel answers
      → (records : List ResRecord) × (parse_response fuel malloc message ≡ ok records)
        × HoldsAll message answers records
  unfolding parse_response
  parse_response-IsResponse r =
      let (records, run, held) = parse_answers-AnswersAt r.answers_at 0 in
      (records, rw (r.decodes, r.query_len, ◌>>=◌, r.counted, run), held)
