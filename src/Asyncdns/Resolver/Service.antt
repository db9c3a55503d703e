-- ===== src/Asyncdns/Resolver/Service.antt =====
-- Histories in which nothing goes wrong: host names that fit, and well-formed responses.
use Prim.Native.Nat.{bit_and}
use shadowc.Base.{
  ℕ, ◌≤◌, ◌≡◌, refl, ◌∙◌, sym, ap, inl, inr, ◌⊎◌, true, false, List, [], ◌∷◌, ◌++◌, Bytes, length,
  All, Option, none, some, map, find, bytes_key, ◌==◌, append_assoc, ==→eq, Bool-cases,
  Option-cases,
}
use shadowc.Base.Int.{ℤ, int_eq}
use shadowc.Memory.{Outcome, ok, ◌>>=◌}
use shadowc.Memory.Laws.{IsText, >>=-eq-ok, ok-injective}
use shadowc.Eventloop.{EpollEvent, epollerr}
use shadowc.Asyncdns.Names.Labels.{wire, split, joined}
use shadowc.Asyncdns.Query.Fitting.{build_query_fits}
use shadowc.Asyncdns.Header.{encode}
use shadowc.Asyncdns.Query.{query_header, question}
use shadowc.Asyncdns.Response.{Malloc, qtype_a}
use shadowc.Asyncdns.Response.Parsing.{IsRoomy, IsResponse, Answer}
use shadowc.Asyncdns.Response.Finding.{IsIpv4, first_of_type_a}
use shadowc.Asyncdns.Resolver.{
  Resolver, Effect, sends, closes, new_entry, resolve, call_callback, handle_event,
}
use shadowc.Asyncdns.Resolver.Pending.{pending, called, waits_too, resolve_lem}
use shadowc.Asyncdns.Resolver.Answering.{answer_with, handle_event-IsResponse}
use shadowc.Asyncdns.Resolver.History.{Happening, requested, received, registered, run, run-pending}

-- Effects before those of an outcome.
abbrev pub extend :
    {C : Type 0}
    → List (Effect C)
    → Outcome (Resolver C × List (Effect C))
    → Outcome (Resolver C × List (Effect C))
extend before o = do (r, more) ← o; ok (r, before ++ more)

-- A host name that `send_req` has room for.
pub record IsHost (hostname : Bytes) : Type 0 where
  pub short : length hostname ≤ 109
  pub plain : IsText (wire (split hostname))

-- A response that a resolver can read, with these answers.
pub record IsReadable (fuel : ℕ) (message : Bytes) (answers : List Answer) : Type 0 where
  pub response : IsResponse message fuel answers
  pub four : All IsIpv4 answers

module _ {C : Type 0} (fuel : ℕ) (socket : ℤ) where
  -- What a resolver with this socket copes with.
  abbrev pub Copes : Happening C → Type 0
  Copes (requested pid buf hostname cb) = (length buf ≡ 128) × IsHost hostname
  Copes (received evt buf) =
      (int_eq socket evt.fd ≡ false)
      ⊎ ((bit_and evt.events epollerr == 0 ≡ false)
          ⊎ ((answers : List Answer) × IsReadable fuel buf answers))

module _ {C : Type 0} where
  pub waits_too-dns_socket :
      (r : Resolver C) (hostname : Bytes) (cb : C) (o : Option (List C))
      → (waits_too r hostname cb o).dns_socket ≡ r.dns_socket
  unfolding new_entry
  waits_too-dns_socket r hostname cb none = refl
  waits_too-dns_socket r hostname cb (some callbacks) = refl

  call_callback-dns_socket :
      (r : Resolver C) (hostname ip : Bytes)
      → (call_callback r hostname ip).0.dns_socket ≡ r.dns_socket
  unfolding call_callback
  call_callback-dns_socket r hostname ip = elim (Option-cases (find hostname r.hostname_to_cb)) [
    | inl e ↦ rw (e, call_callback) refl
    | inr (callbacks, e) ↦ rw (e, call_callback) refl
  ]

  pub answer_with-dns_socket :
      (inet_ntoa : Bytes → Bytes) (r : Resolver C) (found : Option (List Bytes × Bytes))
      → (answer_with inet_ntoa r found).0.dns_socket ≡ r.dns_socket
  answer_with-dns_socket inet_ntoa r none = refl
  answer_with-dns_socket inet_ntoa r (some (names, rdata)) =
      call_callback-dns_socket r (joined names) (inet_ntoa rdata)

  -- A step that ends well and keeps the socket.
  abbrev pub Goes : Outcome (Resolver C × List (Effect C)) → ℤ → Type 0
  Goes step socket =
      (r' : Resolver C) × (effects : List (Effect C)) × (step ≡ ok (r', effects))
      × (r'.dns_socket ≡ socket)

  -- A request that fits: the callback waits too, and some datagram goes to each server.
  pub resolve_fits :
      (pid : ℕ) (buf : Bytes) (r : Resolver C) (hostname : Bytes) (cb : C)
      → length buf ≡ 128
      → IsHost hostname
      → (packet : Bytes) × (resolve pid buf r hostname cb
          ≡ ok (
            waits_too r hostname cb (find hostname r.hostname_to_cb),
            map (λ server. sends r.dns_socket server packet) r.servers,
          ))
  resolve_fits pid buf r hostname cb b h =
      let (extra, packet, _) = build_query_fits pid qtype_a buf hostname b h.short h.plain in
      (
        encode (query_header pid) ++ ((wire (split hostname) ++ extra) ++ 0 ∷ question qtype_a),
        resolve_lem pid buf r hostname cb ∙ rw (packet, ◌>>=◌) refl,
      )

  resolve-IsHost :
      (pid : ℕ) (buf : Bytes) (r : Resolver C) (hostname : Bytes) (cb : C)
      → length buf ≡ 128
      → IsHost hostname
      → Goes (resolve pid buf r hostname cb) r.dns_socket
  resolve-IsHost pid buf r hostname cb b h =
      let (packet, sent) = resolve_fits pid buf r hostname cb b h in
      (
        waits_too r hostname cb (find hostname r.hostname_to_cb),
        map (λ server. sends r.dns_socket server packet) r.servers,
        sent,
        waits_too-dns_socket r hostname cb (find hostname r.hostname_to_cb),
      )

module _ {C : Type 0} {malloc : Malloc} (roomy : IsRoomy malloc) (fuel : ℕ)
    (inet_ntoa : Bytes → Bytes) where
  handle_event-Copes :
      (r : Resolver C) (evt : EpollEvent) (buf : Bytes)
      → Copes {C = C} fuel r.dns_socket (received evt buf)
      → Goes (handle_event fuel malloc inet_ntoa r evt buf) r.dns_socket
  unfolding handle_event
  handle_event-Copes r evt buf c = elim (Bool-cases (int_eq r.dns_socket evt.fd)) [
    | inr other ↦ (r, [], rw (other, handle_event) refl, refl)
    | inl ours ↦ elim (Bool-cases (bit_and evt.events epollerr == 0)) [
      | inr error ↦ (r, closes evt.fd ∷ [], rw (ours, handle_event, error) refl, refl)
      | inl fine ↦
          let (answers, readable) = readable_of r.dns_socket evt buf c ours fine in
          let found = first_of_type_a answers in
          (
            (answer_with inet_ntoa r found).0,
            (answer_with inet_ntoa r found).1,
            handle_event-IsResponse roomy fuel inet_ntoa r evt buf readable.response readable.four
                ours (==→eq _ 0 fine),
            answer_with-dns_socket inet_ntoa r found,
          )
    ]
  ]
    where
      readable_of :
          (socket : ℤ) (evt : EpollEvent) (buf : Bytes)
          → Copes {C = C} fuel socket (received evt buf)
          → int_eq socket evt.fd ≡ true
          → (bit_and evt.events epollerr == 0) ≡ true
          → (answers : List Answer) × IsReadable fuel buf answers
      readable_of socket evt buf (inl other) ours fine = absurd (cc)
      readable_of socket evt buf (inr (inl error)) ours fine = absurd (cc)
      readable_of socket evt buf (inr (inr readable)) ours fine = readable

  pub run-Goes :
      (hs : List (Happening C)) (r : Resolver C) {socket : ℤ}
      → socket ≡ r.dns_socket
      → All (Copes {C = C} fuel socket) hs
      → Goes (run fuel malloc inet_ntoa hs r) socket
  unfolding run
  run-Goes [] r e c = (r, [], refl, sym e)
  run-Goes (requested pid buf hostname cb ∷ hs) r e ((b, h), cs) =
      let (r₁, first, step, kept) = resolve-IsHost pid buf r hostname cb b h in
      let (r₂, more, rest, kept') = run-Goes hs r₁ (e ∙ sym kept) cs in
      (r₂, first ++ more, rw (step, ◌>>=◌, rest) refl, kept')
  run-Goes (received evt buf ∷ hs) r {socket} e (c, cs) =
      let c' : Copes {C = C} fuel r.dns_socket (received evt buf) = rw e at c in
      let (r₁, first, step, kept) = handle_event-Copes r evt buf c' in
      let (r₂, more, rest, kept') = run-Goes hs r₁ (e ∙ sym kept) cs in
      (r₂, first ++ more, rw (step, ◌>>=◌, rest) refl, kept')

  -- A history of what the resolver copes with ends without a fault, and every callback is accounted
  -- for: called, or waiting still.
  pub run-Copes :
      (hs : List (Happening C)) (r : Resolver C)
      → All (Copes {C = C} fuel r.dns_socket) hs
      → (r' : Resolver C) × (effects : List (Effect C)) × (run fuel malloc inet_ntoa hs r
          ≡ ok (r', effects))
        × ((host : Bytes)
            → called host effects ++ pending host r' ≡ pending host r ++ registered host hs)
  run-Copes hs r c =
      let (r', effects, ends, _) = run-Goes hs r refl c in
      (r', effects, ends, λ host. run-pending fuel malloc inet_ntoa host hs r ends)

  together :
      (now later more first : List (Effect C)) {r : Resolver C}
      → now ++ later ≡ first
      → ◌≡◌ {A = Outcome (Resolver C × List (Effect C))}
          (ok (r, now ++ (later ++ more)))
          (ok (r, first ++ more))
  together now later more first {r} e =
      ap (λ (l : List (Effect C)). ok (r, l))
        (sym (append_assoc now later more) ∙ ap (λ l. l ++ more) e)

  pub run-append :
      (hs hs' : List (Happening C)) (r : Resolver C) {r₁ r₂ : Resolver C}
      {first more : List (Effect C)}
      → run fuel malloc inet_ntoa hs r ≡ ok (r₁, first)
      → run fuel malloc inet_ntoa hs' r₁ ≡ ok (r₂, more)
      → run fuel malloc inet_ntoa (hs ++ hs') r ≡ ok (r₂, first ++ more)
  unfolding run
  run-append [] hs' r {r₁} {r₂} {first} {more} e e' =
      let same = ok-injective (r, []) (r₁, first) e in
      ap (run fuel malloc inet_ntoa hs') (ap (λ p. p.0) same)
      ∙ e'
      ∙ ap (λ (l : List (Effect C)). ok (r₂, l ++ more)) (ap (λ p. p.1) same)
  run-append (requested pid buf hostname cb ∷ hs) hs' r {r₁} {r₂} {first} {more} e e' =
      let ((q, now), step, f) = >>=-eq-ok (resolve pid buf r hostname cb) _ e in
      let ((q', later), rest, done) = >>=-eq-ok (run fuel malloc inet_ntoa hs q) _ f in
      let same = ok-injective (q', now ++ later) (r₁, first) done in
      let onward =
        run-append hs hs' q rest (ap (run fuel malloc inet_ntoa hs') (ap (λ p. p.0) same) ∙ e') in
      rw (step, ◌>>=◌) (ap (extend now) onward ∙ together now later more first (ap (λ p. p.1) same))
  run-append (received evt buf ∷ hs) hs' r {r₁} {r₂} {first} {more} e e' =
      let ((q, now), step, f) = >>=-eq-ok (handle_event fuel malloc inet_ntoa r evt buf) _ e in
      let ((q', later), rest, done) = >>=-eq-ok (run fuel malloc inet_ntoa hs q) _ f in
      let same = ok-injective (q', now ++ later) (r₁, first) done in
      let onward =
        run-append hs hs' q rest (ap (run fuel malloc inet_ntoa hs') (ap (λ p. p.0) same) ∙ e') in
      rw (step, ◌>>=◌) (ap (extend now) onward ∙ together now later more first (ap (λ p. p.1) same))
