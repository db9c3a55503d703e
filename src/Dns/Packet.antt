-- ===== src/Dns/Packet.antt =====
-- The query of dns.c, whatever its buffer held.
use shadowc.Base.{ℕ, ◌+◌, ◌<◌, ◌≡◌, refl, ◌∙◌, sym, [], ◌∷◌, ◌++◌, Bytes, length}
use shadowc.Memory.{ok, ◌>>=◌, store_all}
use shadowc.Memory.Laws.{store_all-append, IsText}
use shadowc.Asyncdns.Header.{encode, header_len}
use shadowc.Asyncdns.Names.Labels.{wire, split}
use shadowc.Asyncdns.Query.{query_header, question}
use shadowc.Asyncdns.Query.Packet.{ask-qname, length-encode}
use shadowc.Dns.{changeto_dns_name_format, query_packet}
use shadowc.Dns.Formatting.{changeto_dns_name_format-split}

-- The query of dns.c does not depend on what its buffer held: if buffer and host block have room,
-- neither the host name nor its wire form has a zero byte, and there is fuel for each character, it
-- is the header, the wire form and its zero, and the question's type and class.
pub query_packet_lem :
    (pid query_type : ℕ) (host more old body question_old rest : Bytes) (w z fuel : ℕ)
    → IsText host
    → IsText (wire (split host))
    → length old ≡ 12
    → length body ≡ length host + 1
    → length question_old ≡ 4
    → length host + 1 < fuel
    → query_packet fuel pid
        (old ++ (body ++ z ∷ (question_old ++ rest)))
        (host ++ 0 ∷ w ∷ more)
        query_type
      ≡ ok (encode (query_header pid) ++ (wire (split host) ++ 0 ∷ question query_type))
unfolding query_packet
query_packet_lem pid query_type host more old body question_old rest w z fuel t s l b q f =
    let head : Bytes = encode (query_header pid) in
    let after : Bytes = body ++ z ∷ (question_old ++ rest) in
    let headed : store_all (old ++ after) 0 head ≡ ok (head ++ after) =
      store_all-append head [] old after (l ∙ sym (length-encode pid)) refl refl in
    let named : changeto_dns_name_format fuel (head ++ after) header_len (host ++ 0 ∷ w ∷ more)
        ≡ ok (head ++ (wire (split host) ++ 0 ∷ (question_old ++ rest))) =
      rw (← length-encode pid) (
        changeto_dns_name_format-split host more head body (question_old ++ rest) w z fuel t b f) in
    rw (headed, ◌>>=◌, named) (ask-qname pid query_type (wire (split host)) question_old rest s q)
