-- ===== src/Asyncdns/Resolver/History.antt =====
-- Any history of requests and network events: what becomes of the callbacks.
use Prim.Native.Nat.{bit_and}
use shadowc.Base.{
  ℕ, Option, none, some, List, [], ◌∷◌, ◌++◌, ◌≡◌, ◌∙◌, sym, ap, Bytes, append-nil, append_assoc,
  bytes_beq, if◌then◌else◌, ◌==◌, Bool-cases, inl, inr,
}
use shadowc.Base.Int.{int_eq}
use shadowc.Memory.{Outcome, ok, ◌>>=◌, c_string}
use shadowc.Memory.Laws.{>>=-eq-ok}
use shadowc.Eventloop.{EpollEvent, epollerr}
use shadowc.Asyncdns.Query.{build_query}
use shadowc.Asyncdns.Response.{Malloc, qtype_a, parse_response, first_address}
use shadowc.Asyncdns.Resolver.{Resolver, Effect, resolve, handle_found, handle_data, handle_event}
use shadowc.Asyncdns.Resolver.Pending.{
  pending, called, called-append, called-sends, resolve_lem, pending-call_callback,
  pending-waits_too,
}

-- What happens to the resolver: a request, with what the stack held, or an event of the loop, with
-- the bytes received.
pub data Happening (C : Type 0) : Type 0 where
  requested : ℕ → Bytes → Bytes → C → Happening C
  received : EpollEvent → Bytes → Happening C

module _ {C : Type 0} where
  -- The callbacks that ask for `host`, in order.
  abbrev pub registered : Bytes → List (Happening C) → List C
  registered host [] = []
  registered host (requested pid buf hostname cb ∷ hs) =
      (if bytes_beq hostname host then cb ∷ [] else []) ++ registered host hs
  registered host (received evt buf ∷ hs) = registered host hs

  -- The callbacks for `host` in a result: those called, and those that wait.
  abbrev total : Bytes → Outcome (Resolver C × List (Effect C)) → List C
  total host (ok (r, effects)) = called host effects ++ pending host r
  total host _ = []

  -- One step, and then the rest.
  chain :
      (host : Bytes) (r₁ r₂ : Resolver C) (first more : List (Effect C)) (p x rest : List C)
      → called host first ++ pending host r₁ ≡ p ++ x
      → called host more ++ pending host r₂ ≡ pending host r₁ ++ rest
      → called host (first ++ more) ++ pending host r₂ ≡ p ++ (x ++ rest)
  chain host r₁ r₂ first more p x rest a b = rw (called-append host first more) (
      append_assoc (called host first) (called host more) (pending host r₂)
      ∙ ap (◌++◌ (called host first)) b
      ∙ sym (append_assoc (called host first) (pending host r₁) rest)
      ∙ ap (λ l. l ++ rest) a
      ∙ append_assoc p x rest)

  resolve-pending :
      (host : Bytes) (pid : ℕ) (buf : Bytes) (r : Resolver C) (hostname : Bytes) (cb : C)
      {r' : Resolver C} {effects : List (Effect C)}
      → resolve pid buf r hostname cb ≡ ok (r', effects)
      → called host effects ++ pending host r'
        ≡ pending host r ++ (if bytes_beq hostname host then cb ∷ [] else [])
  resolve-pending host pid buf r hostname cb {r'} {effects} e =
      let (packet, _, done) =
        >>=-eq-ok (build_query pid buf hostname qtype_a) _
          (sym (resolve_lem pid buf r hostname cb) ∙ e) in
      ap (total host) (sym done)
      ∙ rw (called-sends host packet r r.servers) (pending-waits_too host hostname cb r)

module _ {C : Type 0} (fuel : ℕ) (malloc : Malloc) (inet_ntoa : Bytes → Bytes) where
  handle_found-pending :
      (host : Bytes) (r : Resolver C) (found : Option (Bytes × Bytes)) {r' : Resolver C}
      {effects : List (Effect C)}
      → handle_found fuel malloc inet_ntoa r found ≡ ok (r', effects)
      → called host effects ++ pending host r' ≡ pending host r
  unfolding handle_found
  handle_found-pending host r none e = ap (total host) (sym e)
  handle_found-pending host r (some (name, address)) e =
      let (hostname, _, done) = >>=-eq-ok (c_string name) _ e in
      ap (total host) (sym done) ∙ pending-call_callback host hostname (inet_ntoa address) r

  handle_event-pending :
      (host : Bytes) (r : Resolver C) (evt : EpollEvent) (buf : Bytes) {r' : Resolver C}
      {effects : List (Effect C)}
      → handle_event fuel malloc inet_ntoa r evt buf ≡ ok (r', effects)
      → called host effects ++ pending host r' ≡ pending host r
  unfolding handle_event handle_data
  handle_event-pending host r evt buf e = elim (Bool-cases (int_eq r.dns_socket evt.fd)) [
    | inr other ↦ ap (total host) (sym (rw (other, handle_event) at e))
    | inl ours ↦ elim (Bool-cases (bit_and evt.events epollerr == 0)) [
      | inr error ↦ ap (total host) (sym (rw (ours, handle_event, error) at e))
      | inl fine ↦
          let (response, _, e') =
            >>=-eq-ok (parse_response fuel malloc buf) _ (rw (ours, handle_event, fine) at e) in
          let (found, _, e'') = >>=-eq-ok (first_address buf response) _ e' in
          handle_found-pending host r found e''
    ]
  ]

  -- The resolver after what happens, with all effects in order.
  unfoldable pub run : List (Happening C) → Resolver C → Outcome (Resolver C × List (Effect C))
  run [] r = ok (r, [])
  run (requested pid buf hostname cb ∷ hs) r = do
    (r', effects) ← resolve pid buf r hostname cb
    (r'', more) ← run hs r'
    ok (r'', effects ++ more)
  run (received evt buf ∷ hs) r = do
    (r', effects) ← handle_event fuel malloc inet_ntoa r evt buf
    (r'', more) ← run hs r'
    ok (r'', effects ++ more)

  -- Over any history of requests and events that ends without a fault, the callbacks called for a
  -- host name, followed by those that still wait for it, are the ones that waited at first,
  -- followed by the ones registered: none is lost, called twice or called out of order.
  pub run-pending :
      (host : Bytes) (hs : List (Happening C)) (r : Resolver C) {r' : Resolver C}
      {effects : List (Effect C)}
      → run hs r ≡ ok (r', effects)
      → called host effects ++ pending host r' ≡ pending host r ++ registered host hs
  unfolding run
  run-pending host [] r e = ap (total host) (sym e) ∙ sym (append-nil (pending host r))
  run-pending host (requested pid buf hostname cb ∷ hs) r e =
      let ((r₁, first), step, e') = >>=-eq-ok (resolve pid buf r hostname cb) _ e in
      let ((r₂, more), rest, done) = >>=-eq-ok (run hs r₁) _ e' in
      ap (total host) (sym done)
      ∙ chain host r₁ r₂ first more (pending host r) _ (registered host hs)
          (resolve-pending host pid buf r hostname cb step) (run-pending host hs r₁ rest)
  run-pending host (received evt buf ∷ hs) r e =
      let ((r₁, first), step, e') = >>=-eq-ok (handle_event fuel malloc inet_ntoa r evt buf) _ e in
      let ((r₂, more), rest, done) = >>=-eq-ok (run hs r₁) _ e' in
      ap (total host) (sym done)
      ∙ chain host r₁ r₂ first more (pending host r) [] (registered host hs)
          (handle_event-pending host r evt buf step ∙ sym (append-nil (pending host r)))
          (run-pending host hs r₁ rest)
