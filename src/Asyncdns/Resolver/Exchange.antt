-- ===== src/Asyncdns/Resolver/Exchange.antt =====
-- A request of the resolver, on its way to a DNS server and back.
mod Tests
use Prim.Native.Nat.{bit_and}
use shadowc.Base.{
  ℕ, ◌+◌, ◌≤◌, ◌<◌, ◌≡◌, refl, ◌∙◌, ap, inl, inr, true, none, some, List, [], ◌∷◌, ◌++◌, map, Bytes,
  All, length, find, find-assign, bytes_key, beq_refl, Option-cases, arith, if◌then◌else◌,
}
use shadowc.Base.Int.{int_eq}
use shadowc.Memory.{ok}
use shadowc.Eventloop.{EpollEvent, epollerr}
use shadowc.Asyncdns.Header.{DnsHeader, encode}
use shadowc.Asyncdns.Header.Laws.{IsHeader}
use shadowc.Asyncdns.Names.Labels.{split, wire, wire-IsText}
use shadowc.Asyncdns.Query.{query_header, question}
use shadowc.Asyncdns.Query.Packet.{build_query_clean}
use shadowc.Asyncdns.Response.{Malloc, qtype_a}
use shadowc.Asyncdns.Response.Parsing.{IsRoomy}
use shadowc.Asyncdns.Response.Reply.{Name, asked, Record, reply, IsName, IsRecord, first_a}
use shadowc.Asyncdns.Response.Reply.Parsed.{reply_fuel}
use shadowc.Asyncdns.Resolver.{Resolver, Effect, sends, calls, resolve, call_callback, handle_event}
use shadowc.Asyncdns.Resolver.Pending.{pending, or_nil, waits_too, pending-waits_too, resolve_lem}
use shadowc.Asyncdns.Resolver.Service.{waits_too-dns_socket}
use shadowc.Asyncdns.Resolver.Replying.{handle_event-reply}

-- A query for the addresses of `host`.
abbrev pub query : ℕ → Bytes → Bytes
query pid host = encode (query_header pid) ++ (wire (split host) ++ 0 ∷ question qtype_a)

-- The header of the reply to a query: the same number and question, and a count of records.
abbrev pub reply_header : ℕ → ℕ → DnsHeader
reply_header pid count = record (query_header pid) { qr = 1; ra = 1; ans_count = count }

-- A server that answers each query for the addresses of a proper name with the records that it has
-- for it.
abbrev pub Serves : (Bytes → List Record) → (Bytes → Bytes) → Type 0
Serves zone server =
    (pid : ℕ) (host : Bytes)
    → IsName host
    → server (query pid host) ≡ reply (reply_header pid (length (zone host))) host (zone host)

reply_header-IsHeader : (pid count : ℕ) → count < 65536 → IsHeader (reply_header pid count)
reply_header-IsHeader pid count h = omega (arith, h)

module _ {C : Type 0} where
  -- Everybody who waits for a name is called, and nobody waits any more.
  call_callback-pending :
      (r : Resolver C) (hostname ip : Bytes)
      → let (r', effects) = call_callback r hostname ip in
        (effects ≡ map (λ cb. calls cb hostname ip) (pending hostname r))
        × (pending hostname r' ≡ [])
  unfolding call_callback
  call_callback-pending r hostname ip = elim (Option-cases (find hostname r.hostname_to_cb)) [
    | inl e ↦ rw (e, call_callback) (refl, rw e refl)
    | inr (callbacks, e) ↦
        rw (e, call_callback)
          (refl, rw (find-assign hostname hostname [] r.hostname_to_cb, beq_refl hostname) refl)
  ]

  -- With an allocator that leaves room behind each block, fuel of 257, and a server that answers
  -- each query for a proper name with its at most 65535 well-formed records for it, the first
  -- address of which is of the asked name: a request for such a name, from a buffer that has room
  -- for the query and a zero behind the place of the name, sends one datagram to each server of the
  -- resolver, and if the server's answer to it stands at the front of what an event of the
  -- resolver's socket without EPOLLERR brings, everybody who waits for the name is called with its
  -- first address, in order, the new callback last, and nobody waits any more.
  pub resolve-Serves :
      {malloc : Malloc} (roomy : IsRoomy malloc) (fuel : ℕ) (inet_ntoa : Bytes → Bytes)
      (zone : Bytes → List Record) (server : Bytes → Bytes) (pid : ℕ) (r : Resolver C)
      (hostname : Bytes) (cb : C) (old body question_old rest junk ip : Bytes) (last : ℕ)
      (evt : EpollEvent)
      → Serves zone server
      → IsName hostname
      → All IsRecord (zone hostname)
      → length (zone hostname) < 65536
      → first_a (zone hostname) ≡ some (asked, ip)
      → length old ≡ 12
      → length body ≡ length hostname + 1
      → length question_old ≡ 3
      → reply_fuel ≤ fuel
      → int_eq r.dns_socket evt.fd ≡ true
      → bit_and evt.events epollerr ≡ 0
      → (packet : Bytes) × (r₁ : Resolver C) × (r₂ : Resolver C) × (resolve pid
            (old ++ (body ++ 0 ∷ last ∷ (question_old ++ rest)))
            r
            hostname
            cb
          ≡ ok (r₁, map (λ s. sends r.dns_socket s packet) r.servers))
        × (handle_event fuel malloc inet_ntoa r₁ evt (server packet ++ junk)
            ≡ ok (r₂, map (λ cb. calls cb hostname (inet_ntoa ip)) (pending hostname r ++ cb ∷ [])))
        × (pending hostname r₂ ≡ [])
  resolve-Serves roomy fuel inet_ntoa zone server pid r hostname cb old body question_old rest junk
        ip last evt serves n v few first l b q enough fd fine =
      let packet : Bytes = query pid hostname in
      let records : List Record = zone hostname in
      let dns : DnsHeader = reply_header pid (length records) in
      let r₁ : Resolver C = waits_too r hostname cb (find hostname r.hostname_to_cb) in
      let built =
        build_query_clean pid qtype_a hostname old body question_old rest
          (wire-IsText (split hostname) n.labels) l b q last in
      let fd₁ : int_eq r₁.dns_socket evt.fd ≡ true =
        rw (waits_too-dns_socket r hostname cb (find hostname r.hostname_to_cb)) fd in
      let (answered, over) = call_callback-pending r₁ hostname (inet_ntoa ip) in
      let waiting : pending hostname r₁ ≡ pending hostname r ++ cb ∷ [] =
        pending-waits_too hostname hostname cb r ∙ rw (beq_refl hostname) refl in
      let told_of : handle_event fuel _ inet_ntoa r₁ evt (reply dns hostname records ++ junk)
          ≡ ok (call_callback r₁ hostname (inet_ntoa ip)) =
        handle_event-reply roomy fuel inet_ntoa r₁ evt dns hostname records junk
          (reply_header-IsHeader pid (length records) few) refl n v enough fd₁ fine
        ∙ rw first refl in
      let (r₂, effects) = call_callback r₁ hostname (inet_ntoa ip) in
      (
        packet,
        r₁,
        r₂,
        resolve_lem pid _ r hostname cb ∙ rw built refl,
        rw (serves pid hostname n) told_of ∙ ap (λ es. ok (r₂, es)) (answered ∙ rw waiting refl),
        over,
      )
