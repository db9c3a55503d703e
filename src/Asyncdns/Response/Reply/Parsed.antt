-- ===== src/Asyncdns/Response/Reply/Parsed.antt =====
-- A reply is a response that says what its records say.
use shadowc.Base.{
  ℕ, suc, ◌+◌, ◌≤◌, ◌<◌, ◌≡◌, refl, ◌∙◌, sym, List, [], ◌∷◌, ◌++◌, Bytes, length, length-append,
  append_assoc, All, arith,
}
use shadowc.Memory.{ok, load}
use shadowc.Memory.Laws.{load_at, strlen_text}
use shadowc.Asyncdns.Header.{DnsHeader, encode, htons, ntohs_at, header_len}
use shadowc.Asyncdns.Header.Laws.{IsHeader, decode-encode, ntohs_at-htons}
use shadowc.Asyncdns.Names.Labels.{wire, split, wire-IsText, length-wire-split}
use shadowc.Asyncdns.Names.Reading.{Encodes, pointer}
use shadowc.Asyncdns.Names.RoundTrip.{plain-Encodes, wire-plain, split_from-ne-nil}
use shadowc.Asyncdns.Query.{question}
use shadowc.Asyncdns.Response.{qtype_a, r_data_len, data_len_at}
use shadowc.Asyncdns.Response.Parsing.{NameAt, AnswersAt, done, address_at, alias_at, IsResponse}
use shadowc.Asyncdns.Response.Reply.{
  Name, asked, spelled, Record, a_record, cname_record, cname, encode_name, encode_records, reply,
  IsName, NameIsName, IsRecord, host_of, answers_of,
}

length-answers_of :
    (host : Bytes) (records : List Record) → length (answers_of host records) ≡ length records
length-answers_of host [] = refl
length-answers_of host (r ∷ records) = omega (arith, length-answers_of host records)

encode_name-short : (name : Name) → NameIsName name → length (encode_name name) < 65536
encode_name-short asked v = omega arith
encode_name-short (spelled host) v =
    omega (arith, length-append (wire (split host)) (0 ∷ []), length-wire-split host, v.fits)

-- Fuel for a pointer and a name of 255 bytes.
abbrev pub reply_fuel : ℕ
reply_fuel = 257

module _ {message host : Bytes} {fuel : ℕ} (n : IsName host)
    (question_at : Encodes message header_len
      (wire (split host))
      (length host + 2)
      (length host + 2))
    (enough : reply_fuel ≤ fuel) where
  name_at :
      (name : Name) (pre post : Bytes) {pos : ℕ}
      → NameIsName name
      → message ≡ pre ++ (encode_name name ++ post)
      → pos ≡ length pre
      → NameAt message fuel pos (split (host_of host name)) (length (encode_name name))
  name_at asked pre post {pos} v e h =
      let two : load message (pos + 1) ≡ ok header_len =
        load_at (pre ++ 192 ∷ []) header_len post (e ∙ simp append_assoc)
          (omega (arith, length-append pre (192 ∷ []))) in
      record {
        steps = suc (length host + 2);
        encodes =
            pointer {c = 192} {low = header_len} (load_at pre 192 (header_len ∷ post) e h)
              (omega arith) two question_at;
        labels = n.labels;
        nonempty = split_from-ne-nil [] host;
        fits = omega (arith, length-wire-split host, n.fits);
        enough = omega (arith, n.fits);
      }
  name_at (spelled other) pre post {pos} v e h =
      let raw : Bytes = wire (split other) in
      let here : Encodes message (length pre) raw (suc (length raw)) (suc (length raw)) =
        plain-Encodes pre raw post (e ∙ simp append_assoc) (wire-plain (split other) v.labels) in
      let used : suc (length raw) ≡ length (encode_name (spelled other)) =
        omega (arith, length-append raw (0 ∷ [])) in
      record {
        steps = suc (length raw);
        encodes = rw (h, ← used) here;
        labels = v.labels;
        nonempty = split_from-ne-nil [] other;
        fits = omega (arith, length-wire-split other, v.fits);
        enough = omega (arith, length-wire-split other, v.fits);
      }

  -- Where the parts of a record stand whose data are `payload`.
  record PartsAt (pos used type : ℕ) (payload post : Bytes) : Type 0 where
    before : Bytes
    type_at : ntohs_at message (pos + used) ≡ ok type
    len_at : ntohs_at message (pos + used + data_len_at) ≡ ok (length payload)
    payload_at : message ≡ before ++ (payload ++ post)
    payload_pos : pos + used + r_data_len ≡ length before

  parts_at :
      (name pre ttl payload post : Bytes) (type : ℕ) {pos : ℕ}
      → length ttl ≡ 4
      → type < 65536
      → length payload < 65536
      → message
        ≡ pre
          ++ (name
              ++ (htons type
                  ++ (htons 1 ++ (ttl ++ (htons (length payload) ++ (payload ++ post))))))
      → pos ≡ length pre
      → PartsAt pos (length name) type payload post
  parts_at name pre ttl payload post type {pos} t small short e h =
      let front : Bytes = pre ++ name in
      let middle : Bytes = front ++ (htons type ++ (htons 1 ++ ttl)) in
      let at_front : pos + length name ≡ length front = omega (arith, length-append pre name) in
      let at_middle : pos + length name + data_len_at ≡ length middle = omega (
        arith,
        length-append front (htons type ++ (htons 1 ++ ttl)),
        length-append (htons type) (htons 1 ++ ttl),
        length-append (htons 1) ttl,
      ) in
      record {
        before = middle ++ htons (length payload);
        type_at =
            ntohs_at-htons type front
              (htons 1 ++ (ttl ++ (htons (length payload) ++ (payload ++ post))))
              (e ∙ simp append_assoc) at_front small;
        len_at =
            ntohs_at-htons (length payload) middle (payload ++ post) (e ∙ simp append_assoc)
              at_middle short;
        payload_at = e ∙ simp append_assoc;
        payload_pos = omega (arith, length-append middle (htons (length payload)));
      }

  records_at :
      (records : List Record) (pre rest : Bytes) {pos : ℕ}
      → All IsRecord records
      → message ≡ pre ++ (encode_records records ++ rest)
      → pos ≡ length pre
      → AnswersAt message fuel pos (answers_of host records)
  records_at [] pre rest v e h = done
  records_at (a_record owner ttl ip ∷ records) pre rest {pos} ((named, four, short), vs) e h =
      let post : Bytes = encode_records records ++ rest in
      let name : Bytes = encode_name owner in
      let cut : message
          ≡ pre
            ++ (name
                ++ (htons qtype_a ++ (htons 1 ++ (ttl ++ (htons (length ip) ++ (ip ++ post)))))) =
        e ∙ rw short (simp append_assoc) in
      let parts : PartsAt pos (length name) qtype_a ip post =
        parts_at name pre ttl ip post qtype_a four (omega arith) (omega arith) cut h in
      address_at parts.before post (name_at owner pre _ named cut h) parts.type_at parts.len_at
        parts.payload_at parts.payload_pos
        (records_at records (parts.before ++ ip) rest vs (parts.payload_at ∙ simp append_assoc)
          (omega (arith, parts.payload_pos, length-append parts.before ip)))
  records_at (cname_record owner ttl target ∷ records) pre rest {pos} ((named, four, aimed), vs) e
        h =
      let post : Bytes = encode_records records ++ rest in
      let name : Bytes = encode_name owner in
      let payload : Bytes = encode_name target in
      let cut : message
          ≡ pre
            ++ (name
                ++ (htons cname
                    ++ (htons 1 ++ (ttl ++ (htons (length payload) ++ (payload ++ post)))))) =
        e ∙ simp append_assoc in
      let parts : PartsAt pos (length name) cname payload post =
        parts_at name pre ttl payload post cname four (omega arith) (encode_name-short target aimed)
          cut h in
      alias_at (name_at owner pre _ named cut h) parts.type_at (λ e. cc)
        (name_at target parts.before post aimed parts.payload_at parts.payload_pos)
        (records_at records (parts.before ++ payload) rest vs (parts.payload_at ∙ simp append_assoc)
          (omega (arith, parts.payload_pos, length-append parts.before payload)))

reply-Encodes :
    (dns : DnsHeader) (host : Bytes) (records : List Record) (rest : Bytes)
    → IsName host
    → Encodes
        (reply dns host records ++ rest)
        header_len
        (wire (split host))
        (length host + 2)
        (length host + 2)
unfolding encode
reply-Encodes dns host records rest n =
    let raw : Bytes = wire (split host) in
    let steps : suc (length raw) ≡ length host + 2 = omega (arith, length-wire-split host) in
    rw steps at (
      plain-Encodes (encode dns) raw ((question qtype_a ++ encode_records records) ++ rest)
        {buffer = reply dns host records ++ rest} (simp append_assoc)
        (wire-plain (split host) n.labels))

-- A reply is a response that says what its records say.
pub reply-IsResponse :
    (dns : DnsHeader) (host : Bytes) (records : List Record) (rest : Bytes) (fuel : ℕ)
    → IsHeader dns
    → dns.ans_count ≡ length records
    → IsName host
    → All IsRecord records
    → reply_fuel ≤ fuel
    → IsResponse (reply dns host records ++ rest) fuel (answers_of host records)
unfolding encode
reply-IsResponse dns host records rest fuel d counted n v enough =
    let raw : Bytes = wire (split host) in
    let message : Bytes = reply dns host records ++ rest in
    let behind : Bytes = question qtype_a ++ (encode_records records ++ rest) in
    let pre : Bytes = encode dns ++ (raw ++ 0 ∷ question qtype_a) in
    record {
      dns = dns;
      query = length raw;
      decodes = rw (append_assoc (encode dns) _ rest) (decode-encode dns _ d);
      counted = counted ∙ sym (length-answers_of host records);
      query_len =
          rw (append_assoc raw _ rest) (strlen_text raw behind (wire-IsText (split host) n.labels));
      answers_at =
          records_at n (reply-Encodes dns host records rest n) enough records pre rest v
            (simp append_assoc) (omega (arith, length-append raw (0 ∷ question qtype_a)));
    }
