-- ===== src/Dns/Report/Session.antt =====
-- `main`, from the name that is typed to the lines that are printed.
use mathlib.Core.Option
use shadowc.Base.{
  ℕ, ◌+◌, ◌≤◌, ◌<◌, ◌≡◌, refl, ◌∙◌, sym, ap, some, List, [], ◌∷◌, ◌++◌, Bytes, All, length,
  length-append, append_assoc, arith,
}
use shadowc.Base.Text.{codes}
use shadowc.Memory.{ok, ◌>>=◌}
use shadowc.Memory.Laws.{IsText, store_all-append}
use shadowc.Asyncdns.Header.{encode}
use shadowc.Asyncdns.Names.Labels.{wire, split}
use shadowc.Asyncdns.Query.{query_header, question}
use shadowc.Asyncdns.Query.Fitting.{cut}
use shadowc.Asyncdns.Response.{Malloc, qtype_a}
use shadowc.Asyncdns.Response.Parsing.{IsRoomy, Answer, IsResponse}
use shadowc.Asyncdns.Response.Finding.{IsIpv4, first_of_type_a}
use shadowc.Dns.{query_packet}
use shadowc.Dns.Packet.{query_packet_lem}
use shadowc.Dns.Report.{Lookup, ngethostbyname, get_dns_servers, read_hostname, main}
use shadowc.Dns.Report.Agreement.{read_response-IsResponse}
use shadowc.Dns.Report.Answers.{first_shown, shown_as}

one_more : (b : Bytes) → 1 ≤ length b → (x : ℕ) × (t : Bytes) × (b ≡ x ∷ t)
one_more [] h = absurd (omega arith)
one_more (x ∷ t) h = (x, t, refl)

-- The array with a name that leaves room for a dot.
typed :
    (hostname word : Bytes)
    → length word + 2 ≤ length hostname
    → (w : ℕ) × (more : Bytes) × (read_hostname hostname word ≡ ok (word ++ 0 ∷ w ∷ more))
unfolding read_hostname
typed hostname word h =
    let parts = cut (length word + 1) hostname (omega arith) in
    let (w, more, e) = one_more parts.back (omega (arith, parts.back_len)) in
    (
      w,
      more,
      store_all-append (word ++ 0 ∷ []) [] parts.front parts.back
            (parts.front_len ∙ sym (length-append word (0 ∷ []))) parts.whole refl
          ∙ rw e (ap ok (append_assoc word (0 ∷ []) (w ∷ more))),
    )

-- The query of `query_packet_lem` for any buffer that is long enough.
query_packet_fits :
    (pid query_type : ℕ) (host more buf : Bytes) (w fuel : ℕ)
    → IsText host
    → IsText (wire (split host))
    → length host + 18 ≤ length buf
    → length host + 1 < fuel
    → query_packet fuel pid buf (host ++ 0 ∷ w ∷ more) query_type
      ≡ ok (encode (query_header pid) ++ (wire (split host) ++ 0 ∷ question query_type))
query_packet_fits pid query_type host more buf w fuel t s h f =
    let head = cut 12 buf (omega arith) in
    let name = cut (length host + 1) head.back (omega (arith, head.back_len)) in
    let (z, behind, e) = one_more name.back (omega (arith, head.back_len, name.back_len)) in
    let asked = cut 4 behind (omega (arith, head.back_len, name.back_len, ap length e)) in
    let whole : buf ≡ head.front ++ (name.front ++ z ∷ (asked.front ++ asked.back)) =
      head.whole
      ∙ ap (◌++◌ head.front) (name.whole ∙ ap (◌++◌ name.front) (e ∙ ap (◌∷◌ z) asked.whole)) in
    rw whole (
      query_packet_lem pid query_type host more head.front name.front asked.front asked.back w z
        fuel t s head.front_len name.front_len asked.front_len f)

module _ {malloc : Malloc} (roomy : IsRoomy malloc) (fuel pid : ℕ) (inet_ntoa : Bytes → Bytes) where
  -- With a resolv.conf, whatever it says, an allocator that leaves room behind each block, a typed
  -- name of at most 98 characters, none of them zero and none in its wire form, fuel for each
  -- character, and a well-formed response with at most 20 answers, whose address records have four
  -- bytes, and no further records, `main` ends without a fault: it asks 208.67.222.222 for the
  -- address of the name, and the first line with an address shows the first address record.
  pub main_lem :
      (resolv_conf : List Bytes) (hostname word buf message : Bytes) {answers : List Answer}
      → length hostname ≡ 100
      → length buf ≡ 65536
      → length word ≤ 98
      → IsText word
      → IsText (wire (split word))
      → length word + 1 < fuel
      → (response : IsResponse message fuel answers) → response.dns.auth_count ≡ 0
      → response.dns.add_count ≡ 0
      → length answers ≤ 20
      → All IsIpv4 answers
      → (lookup : Lookup) × (main fuel pid malloc inet_ntoa
            (some resolv_conf)
            hostname
            word
            buf
            message
          ≡ ok lookup)
        × (lookup.server ≡ codes "208.67.222.222")
        × (lookup.packet ≡ encode (query_header pid) ++ (wire (split word) ++ 0 ∷ question qtype_a))
        × (first_shown lookup.answers
            ≡ Option.map (shown_as inet_ntoa message) (first_of_type_a answers))
  unfolding main get_dns_servers ngethostbyname
  main_lem resolv_conf hostname word buf message {answers} h b n t s f response no_auth no_addit few
        v =
      let (w, more, read) = typed hostname word (omega arith) in
      let packet = query_packet_fits pid qtype_a word more buf w fuel t s (omega arith) f in
      let (records, lines, parsed, printed, shown) =
        read_response-IsResponse roomy fuel inet_ntoa message response no_auth no_addit few v in
      (
        record {
          server = codes "208.67.222.222";
          packet = encode (query_header pid) ++ (wire (split word) ++ 0 ∷ question qtype_a);
          answers = lines;
          auth = [];
          addit = [];
        },
        rw (read, ◌>>=◌, packet, parsed, printed) refl,
        refl,
        refl,
        shown,
      )
