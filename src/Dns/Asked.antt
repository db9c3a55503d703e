-- ===== src/Dns/Asked.antt =====
-- What a server reads in the query of dns.c.
use shadowc.Base.{
  ℕ, suc, ◌+◌, ◌<◌, ◌≤◌, ◌≡◌, refl, ◌∙◌, ap, [], ◌∷◌, ◌++◌, Bytes, length, length-append,
  append_assoc, All, arith,
}
use shadowc.Memory.{ok, c_string}
use shadowc.Memory.Laws.{IsText}
use shadowc.Asyncdns.Names.{read_name}
use shadowc.Asyncdns.Names.Labels.{
  wire, split, IsLabel, wire-IsText, joined-split, length-wire-split,
}
use shadowc.Asyncdns.Names.Reading.{Encodes}
use shadowc.Asyncdns.Names.RoundTrip.{
  read_name-Encodes, plain-Encodes, wire-plain, split_from-ne-nil,
}
use shadowc.Asyncdns.Header.{encode, decode, ntohs_at, htons, header_len}
use shadowc.Asyncdns.Header.Laws.{IsHeader, decode-encode, ntohs_at-htons}
use shadowc.Asyncdns.Query.{query_header, question}
use shadowc.Asyncdns.Query.Packet.{length-encode}
use shadowc.Dns.{query_packet}
use shadowc.Dns.Packet.{query_packet_lem}

query_header-IsHeader : (pid : ℕ) → IsHeader (query_header pid)
query_header-IsHeader pid = omega arith

-- If buffer and host block of dns.c have room, the name has no zero byte and splits at its dots
-- into proper labels, and there is fuel for each character and 2 more, the datagram is the header,
-- the labels of the name in wire form, a zero, the type and the class IN, whatever the buffer held;
-- and a server reads it as it is meant: the header, the name behind it, read into any block that is
-- long enough, the type and the class are the ones asked with.
pub query_packet-read_name :
    (pid query_type : ℕ) (host more old body question_old rest block : Bytes) (w z fuel : ℕ)
    → IsText host
    → All IsLabel (split host)
    → query_type < 65536
    → length old ≡ 12
    → length body ≡ length host + 1
    → length question_old ≡ 4
    → length host + 2 ≤ fuel
    → length host + 1 < length block
    → let packet =
        encode (query_header pid) ++ (wire (split host) ++ 0 ∷ (htons query_type ++ htons 1)) in
      (name : Bytes) × (query_packet fuel pid
          (old ++ (body ++ z ∷ (question_old ++ rest)))
          (host ++ 0 ∷ w ∷ more)
          query_type
        ≡ ok packet)
      × (length packet ≡ header_len + (length host + 2) + 4)
      × (decode packet ≡ ok (query_header pid))
      × (read_name fuel packet header_len block ≡ ok (name, length host + 2))
      × (c_string name ≡ ok host)
      × (ntohs_at packet (header_len + (length host + 2)) ≡ ok query_type)
      × (ntohs_at packet (header_len + (length host + 2) + 2) ≡ ok 1)
query_packet-read_name pid query_type host more old body question_old rest block w z fuel t v small
      l b q f r =
    let head : Bytes = encode (query_header pid) in
    let raw : Bytes = wire (split host) in
    let packet : Bytes = head ++ (raw ++ 0 ∷ question query_type) in
    let size = length-wire-split host in
    let start : length head ≡ header_len = length-encode pid in
    let steps : suc (length raw) ≡ length host + 2 = omega arith in
    let encoded : Encodes packet header_len raw (length host + 2) (length host + 2) =
      rw (start, steps) at
        (plain-Encodes head raw (question query_type) {buffer = packet} refl
          (wire-plain (split host) v)) in
    let (name, run, text) =
      read_name-Encodes packet block fuel header_len (split host) encoded v
        (split_from-ne-nil [] host) (omega arith) f in
    let pre : Bytes = head ++ (raw ++ 0 ∷ []) in
    let cut : packet ≡ pre ++ question query_type = simp append_assoc in
    let behind : header_len + (length host + 2) ≡ length pre =
      omega (arith, length-append head (raw ++ 0 ∷ []), length-append raw (0 ∷ [])) in
    let pre' : Bytes = pre ++ htons query_type in
    let cut' : packet ≡ pre' ++ (htons 1 ++ []) = cut ∙ simp append_assoc in
    let behind' : header_len + (length host + 2) + 2 ≡ length pre' =
      omega (arith, behind, length-append pre (htons query_type)) in
    let whole : length packet ≡ header_len + (length host + 2) + 4 =
      ap length cut ∙ omega (arith, behind, length-append pre (question query_type)) in
    (
      name,
      query_packet_lem pid query_type host more old body question_old rest w z fuel t
          (wire-IsText (split host) v) l b q (omega arith),
      whole,
      decode-encode (query_header pid) (raw ++ 0 ∷ question query_type) (query_header-IsHeader pid),
      run,
      text ∙ ap ok (joined-split host),
      ntohs_at-htons query_type pre (htons 1) cut behind small,
      ntohs_at-htons 1 pre' [] cut' behind' (omega arith),
    )
