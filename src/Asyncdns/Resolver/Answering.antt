-- ===== src/Asyncdns/Resolver/Answering.antt =====
-- What a response brings about.
use Prim.Native.Nat.{bit_and}
use shadowc.Base.{
  ℕ, true, false, Option, none, some, List, [], ◌≡◌, ◌≢◌, refl, ◌∙◌, map, Bytes, All, bytes_beq,
  bytes_beq_iff, bytes_key, beq_refl, find, find-assign, find-erase, eq→==, Bool-cases,
  Option-cases, inl, inr,
}
use shadowc.Base.Int.{int_eq}
use shadowc.Memory.{ok, ◌>>=◌}
use shadowc.Eventloop.{EpollEvent, epollerr}
use shadowc.Asyncdns.Names.Labels.{joined}
use shadowc.Asyncdns.Response.{Malloc}
use shadowc.Asyncdns.Response.Parsing.{IsRoomy, IsResponse, Answer, parse_response-IsResponse}
use shadowc.Asyncdns.Response.Finding.{IsIpv4, Finds, first_of_type_a, first_address-HoldsAll}
use shadowc.Asyncdns.Resolver.{
  Resolver, Effect, calls, call_callback, handle_found, handle_data, handle_event,
}
use shadowc.Asyncdns.Resolver.Pending.{pending, called, called-calls_other}

ne→beq : (a b : Bytes) → a ≢ b → bytes_beq a b ≡ false
ne→beq a b h = elim (Bool-cases (bytes_beq a b)) [
  | inl e ↦ absurd (h ((bytes_beq_iff a b).0 e))
  | inr e ↦ e
]

module _ {C : Type 0} where
  -- What the resolver does for the answer that was looked for.
  abbrev pub answer_with :
      (Bytes → Bytes) → Resolver C → Option (List Bytes × Bytes) → Resolver C × List (Effect C)
  answer_with inet_ntoa r none = (r, [])
  answer_with inet_ntoa r (some (names, rdata)) = call_callback r (joined names) (inet_ntoa rdata)

  -- If the host name has an entry, its callbacks are called with the address, in order, then nobody
  -- waits for it any more, and its status is gone.
  pub call_callback_found :
      (r : Resolver C) (hostname ip : Bytes) (callbacks : List C)
      → find hostname r.hostname_to_cb ≡ some callbacks
      → let (r', effects) = call_callback r hostname ip in
        (effects ≡ map (λ cb. calls cb hostname ip) callbacks)
        × (find hostname r'.hostname_to_cb ≡ some [])
        × (find hostname r'.hostname_status_map ≡ none)
  unfolding call_callback
  call_callback_found r hostname ip callbacks e =
      rw (e, call_callback)
        (
          refl,
          rw (find-assign hostname hostname [] r.hostname_to_cb, beq_refl hostname),
          rw (find-erase hostname hostname r.hostname_status_map, beq_refl hostname),
        )

  -- A call for one host name leaves those who wait for another alone.
  pub call_callback_other :
      (r : Resolver C) (host hostname ip : Bytes)
      → hostname ≢ host
      → let (r', effects) = call_callback r hostname ip in
        (called host effects ≡ []) × (pending host r' ≡ pending host r)
  unfolding call_callback
  call_callback_other r host hostname ip ne = elim (Option-cases (find hostname r.hostname_to_cb)) [
    | inl e ↦ rw (e, call_callback) (refl, refl)
    | inr (callbacks, e) ↦
        let other = ne→beq hostname host ne in
        rw (e, call_callback)
          (
            called-calls_other host hostname ip callbacks other,
            rw (find-assign hostname host [] r.hostname_to_cb, other),
          )
  ]

module _ {C : Type 0} {malloc : Malloc} (roomy : IsRoomy malloc) (fuel : ℕ)
    (inet_ntoa : Bytes → Bytes) where
  handle_found-Finds :
      (r : Resolver C) (wanted : Option (List Bytes × Bytes)) (found : Option (Bytes × Bytes))
      → Finds wanted found
      → handle_found fuel malloc inet_ntoa r found ≡ ok (answer_with inet_ntoa r wanted)
  unfolding handle_found
  handle_found-Finds r none found e = rw e
  handle_found-Finds r (some (names, rdata)) found (block, e, text) = rw (e, handle_found, text)

  -- With an allocator that leaves room behind each block, an event of the resolver's socket without
  -- EPOLLERR and with a well-formed response, whose address records have four bytes, calls the
  -- callbacks of the owner of the first address record with that address, and does nothing else;
  -- without an address record it does nothing.
  pub handle_event-IsResponse :
      (r : Resolver C) (evt : EpollEvent) (message : Bytes) {answers : List Answer}
      → IsResponse message fuel answers
      → All IsIpv4 answers
      → int_eq r.dns_socket evt.fd ≡ true
      → bit_and evt.events epollerr ≡ 0
      → handle_event fuel malloc inet_ntoa r evt message
        ≡ ok (answer_with inet_ntoa r (first_of_type_a answers))
  unfolding handle_event handle_data
  handle_event-IsResponse r evt message {answers} response v fd fine =
      let (records, run, held) = parse_response-IsResponse roomy message fuel response in
      let (found, first, finds) = first_address-HoldsAll message answers records v held in
      rw (fd, handle_event, eq→== _ 0 fine, run, ◌>>=◌, first)
        (handle_found-Finds r (first_of_type_a answers) found finds)

  -- With an allocator that leaves room behind each block, an event of the resolver's socket without
  -- EPOLLERR and with a well-formed response, whose address records have four bytes: if the owner
  -- of the first address record is not the host asked for, as behind an alias, then no callback for
  -- the host is called, and the same ones go on waiting for it.
  pub handle_event_alias :
      (r : Resolver C) (evt : EpollEvent) (message host rdata : Bytes) (names : List Bytes)
      {answers : List Answer}
      → IsResponse message fuel answers
      → All IsIpv4 answers
      → int_eq r.dns_socket evt.fd ≡ true
      → bit_and evt.events epollerr ≡ 0
      → first_of_type_a answers ≡ some (names, rdata)
      → joined names ≢ host
      → (r' : Resolver C) × (effects : List (Effect C)) × (handle_event fuel malloc inet_ntoa r evt
            message
          ≡ ok (r', effects))
        × (called host effects ≡ [])
        × (pending host r' ≡ pending host r)
  handle_event_alias r evt message host rdata names response v fd fine first other =
      let (r', effects) = call_callback r (joined names) (inet_ntoa rdata) in
      let (uncalled, kept) = call_callback_other r host (joined names) (inet_ntoa rdata) other in
      (
        r',
        effects,
        handle_event-IsResponse r evt message response v fd fine ∙ rw first refl,
        uncalled,
        kept,
      )
