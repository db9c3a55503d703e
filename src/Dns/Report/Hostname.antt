-- ===== src/Dns/Report/Hostname.antt =====
-- How long a name `main` copes with.
use shadowc.Base.{
  ℕ, ◌+◌, ◌≤◌, ◌<◌, ◌≡◌, refl, ◌∙◌, ap, sym, inl, inr, some, List, [], ◌∷◌, ◌++◌, Bytes, length,
  length-append, append-nil, ltb, ltb→lt, Bool-cases, arith,
}
use shadowc.Memory.{fault, ok, out_of_bounds_write, ◌>>=◌, store, store_all}
use shadowc.Memory.Laws.{
  store-lt, store_all-append, store_all-cases, store-cases, store_at, store_out_of_bounds,
  strlen_text, IsText,
}
use shadowc.Dns.{strcat_dot, changeto_dns_name_format, query_packet}
use shadowc.Dns.Report.{ngethostbyname, get_dns_servers, read_hostname, main}
use shadowc.Asyncdns.Header.{encode}
use shadowc.Asyncdns.Query.{query_header}
use shadowc.Asyncdns.Response.{Malloc, qtype_a}

-- Bytes that do not fit.
store_all_overflow :
    (vs block : Bytes) (i : ℕ)
    → i ≤ length block
    → length block < i + length vs
    → store_all block i vs ≡ fault out_of_bounds_write
unfolding store_all
store_all_overflow [] block i h k = absurd (omega arith)
store_all_overflow (v ∷ vs) block i h k = elim (store-cases block i v) [
  | inr e ↦ rw e
  | inl (block', e, l) ↦
      rw (e, ◌>>=◌)
        (store_all_overflow vs block' (i + 1) (omega (arith, store-lt block i v e)) (omega arith))
]

-- A block that the name and its NUL fill has no room for the dot.
strcat_dot_full :
    (word : Bytes) → IsText word → strcat_dot (word ++ 0 ∷ []) ≡ fault out_of_bounds_write
unfolding strcat_dot
strcat_dot_full word t =
    let dot : store (word ++ 0 ∷ []) (length word) b'.' ≡ ok (word ++ b'.' ∷ []) =
      store_at word 0 [] b'.' refl refl in
    let past : store (word ++ b'.' ∷ []) (length word + 1) 0 ≡ fault out_of_bounds_write =
      store_out_of_bounds (word ++ b'.' ∷ []) (length word + 1) 0
        (omega (arith, length-append word (b'.' ∷ []))) in
    rw (strlen_text word [] t, ◌>>=◌, dot, past)

module _ (fuel pid : ℕ) (malloc : Malloc) (inet_ntoa : Bytes → Bytes) where
  query_packet_full :
      (word buf : Bytes) (query_type : ℕ)
      → IsText word
      → query_packet fuel pid buf (word ++ 0 ∷ []) query_type ≡ fault out_of_bounds_write
  unfolding query_packet changeto_dns_name_format
  query_packet_full word buf query_type t =
      elim (store_all-cases (encode (query_header pid)) buf 0) [
        | inl (headed, e, l) ↦ rw (e, ◌>>=◌, strcat_dot_full word t)
        | inr e ↦ rw e
      ]

  -- With a resolv.conf, a typed name of 99 characters or more, none of them zero, overruns the
  -- array of 100 bytes, by itself or with its dot.
  pub main_overflow :
      (lines : List Bytes) (hostname word buf message : Bytes)
      → length hostname ≡ 100
      → IsText word
      → 99 ≤ length word
      → main fuel pid malloc inet_ntoa (some lines) hostname word buf message
        ≡ fault out_of_bounds_write
  unfolding main get_dns_servers read_hostname ngethostbyname
  main_overflow lines hostname word buf message h t n = elim (Bool-cases (ltb 99 (length word))) [
    | inl longer ↦ rw (
        store_all_overflow (word ++ 0 ∷ []) hostname 0 (omega arith)
          (omega (arith, length-append word (0 ∷ []), ltb→lt 99 (length word) longer)))
    | inr full ↦
        let fits : length word ≡ 99 = ground (arith, full) in
        let typed : store_all hostname 0 (word ++ 0 ∷ []) ≡ ok (word ++ 0 ∷ []) =
          store_all-append (word ++ 0 ∷ []) [] hostname []
            (omega (arith, length-append word (0 ∷ []))) (sym (append-nil hostname)) refl
          ∙ ap ok (append-nil (word ++ 0 ∷ [])) in
        rw (typed, ◌>>=◌, query_packet_full word buf qtype_a t)
  ]
