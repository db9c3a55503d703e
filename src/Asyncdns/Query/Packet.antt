-- ===== src/Asyncdns/Query/Packet.antt =====
-- The query that goes out, by the byte that stood behind the name's place in `buf`.
use shadowc.Base.{
  ℕ, ◌+◌, ◌≡◌, ◌≢◌, refl, ◌∙◌, sym, [], ◌∷◌, ◌++◌, Bytes, length, length-append, append_assoc, drop,
  take-append_left, All-append, arith,
}
use shadowc.Memory.{ok, ◌>>=◌, store_all, strlen}
use shadowc.Memory.Laws.{store_all-append, strlen_text, IsText}
use shadowc.Asyncdns.Header.{encode, header_len}
use shadowc.Asyncdns.Names.{change_to_dns_name_format}
use shadowc.Asyncdns.Names.Labels.{wire, split}
use shadowc.Asyncdns.Names.Formatting.{change_to_dns_name_format-split}
use shadowc.Asyncdns.Query.{query_header, question, ask, build_query}

pub length-encode : (pid : ℕ) → length (encode (query_header pid)) ≡ header_len
unfolding encode
length-encode pid = refl

drop-encode : (pid : ℕ) (rest : Bytes) → drop header_len (encode (query_header pid) ++ rest) ≡ rest
unfolding encode
drop-encode pid rest = refl

-- The steps behind the name, once the C string `qname` with its NUL stands behind the header.
pub ask-qname :
    (pid query_type : ℕ) (qname old rest : Bytes)
    → IsText qname
    → length old ≡ 4
    → ask (encode (query_header pid) ++ (qname ++ 0 ∷ (old ++ rest))) query_type
      ≡ ok (encode (query_header pid) ++ (qname ++ 0 ∷ question query_type))
unfolding ask
ask-qname pid query_type qname old rest t l =
    let head : Bytes = encode (query_header pid) in
    let packet : Bytes = head ++ (qname ++ 0 ∷ question query_type) in
    let first : strlen (drop header_len (head ++ (qname ++ 0 ∷ (old ++ rest))))
        ≡ ok (length qname) =
      rw (drop-encode pid (qname ++ 0 ∷ (old ++ rest))) (strlen_text qname (old ++ rest) t) in
    let asked : store_all (head ++ (qname ++ 0 ∷ (old ++ rest))) (header_len + (length qname + 1))
          (question query_type)
        ≡ ok ((head ++ (qname ++ 0 ∷ [])) ++ (question query_type ++ rest)) =
      store_all-append (question query_type) (head ++ (qname ++ 0 ∷ [])) old rest l
        (simp append_assoc)
        (omega (
          arith,
          length-append head (qname ++ 0 ∷ []),
          length-append qname (0 ∷ []),
          length-encode pid,
        )) in
    let same : (head ++ (qname ++ 0 ∷ [])) ++ (question query_type ++ rest)
        ≡ head ++ (qname ++ 0 ∷ (question query_type ++ rest)) =
      simp append_assoc in
    let second : strlen (drop header_len (head ++ (qname ++ 0 ∷ (question query_type ++ rest))))
        ≡ ok (length qname) =
      rw (drop-encode pid (qname ++ 0 ∷ (question query_type ++ rest)))
        (strlen_text qname (question query_type ++ rest) t) in
    let whole : head ++ (qname ++ 0 ∷ (question query_type ++ rest)) ≡ packet ++ rest =
      simp append_assoc in
    let size : header_len + (length qname + 1) + 4 ≡ length packet = omega (
      arith,
      length-append head (qname ++ 0 ∷ question query_type),
      length-append qname (0 ∷ question query_type),
      length-encode pid,
    ) in
    rw (first, ◌>>=◌, asked, same, second, size, whole, take-append_left packet rest)

build_query-qname :
    (pid query_type : ℕ) (buf hostname qname old rest : Bytes) {headed : Bytes}
    → store_all buf 0 (encode (query_header pid)) ≡ ok headed
    → change_to_dns_name_format headed header_len hostname
      ≡ ok (encode (query_header pid) ++ (qname ++ 0 ∷ (old ++ rest)))
    → IsText qname
    → length old ≡ 4
    → build_query pid buf hostname query_type
      ≡ ok (encode (query_header pid) ++ (qname ++ 0 ∷ question query_type))
unfolding build_query
build_query-qname pid query_type buf hostname qname old rest h n t l =
    rw (h, ◌>>=◌, n) (ask-qname pid query_type qname old rest t l)

-- If the buffer has room for the query, no byte of the host's wire form is zero, and the byte of
-- the buffer behind the place of that form is zero, the datagram is the header, the wire form and
-- its zero, and the question's type and class.
pub build_query_clean :
    (pid query_type : ℕ) (hostname old body question_old rest : Bytes)
    → IsText (wire (split hostname))
    → length old ≡ 12
    → length body ≡ length hostname + 1
    → length question_old ≡ 3
    → (last : ℕ)
    → build_query pid (old ++ (body ++ 0 ∷ last ∷ (question_old ++ rest))) hostname query_type
      ≡ ok (encode (query_header pid) ++ (wire (split hostname) ++ 0 ∷ question query_type))
build_query_clean pid query_type hostname old body question_old rest t l b q last =
    let head : Bytes = encode (query_header pid) in
    build_query-qname pid query_type _ hostname (wire (split hostname)) (0 ∷ question_old) rest
      (store_all-append head [] old _ (l ∙ sym (length-encode pid)) refl refl)
      (rw (← length-encode pid)
        (change_to_dns_name_format-split hostname head body 0 last (question_old ++ rest) b))
      t (omega arith)

-- If the buffer has room for the query, no byte of the host's wire form is zero, but the byte of
-- the buffer behind the place of that form is `stale`, not zero, then the datagram asks for the
-- wire form followed by `stale`.
pub build_query_stale :
    (pid query_type stale : ℕ) (hostname old body question_old rest : Bytes)
    → IsText (wire (split hostname))
    → stale ≢ 0
    → length old ≡ 12
    → length body ≡ length hostname + 1
    → length question_old ≡ 4
    → (last : ℕ)
    → build_query pid (old ++ (body ++ stale ∷ last ∷ (question_old ++ rest))) hostname query_type
      ≡ ok (
          encode (query_header pid)
          ++ ((wire (split hostname) ++ stale ∷ []) ++ 0 ∷ question query_type))
build_query_stale pid query_type stale hostname old body question_old rest t s l b q last =
    let head : Bytes = encode (query_header pid) in
    let name : Bytes = wire (split hostname) in
    build_query-qname pid query_type _ hostname (name ++ stale ∷ []) question_old rest
      (store_all-append head [] old _ (l ∙ sym (length-encode pid)) refl refl)
      (rw (← length-encode pid, append_assoc name (stale ∷ []) (0 ∷ (question_old ++ rest)))
        (change_to_dns_name_format-split hostname head body stale last (question_old ++ rest) b))
      (All-append _ name _ t (s, tt)) q
