-- ===== src/Asyncdns/Resolver/Refinement.antt =====
-- The resolver against its queues.
mod Tests
use Prim.Native.Nat.{bit_and}
use mathlib.Core.Path.{fun_ext}
use shadowc.Base.{
  ℕ, ◌≡◌, refl, ◌∙◌, sym, ap, inl, inr, ◌⊎◌, true, false, List, [], ◌∷◌, ◌++◌, Bytes, All, Option,
  none, some, map, find, assign, find-assign, bytes_beq, bytes_beq_iff, bytes_key, ◌==◌,
  if◌then◌else◌, ==→eq, Bool-cases, Option-cases, append_assoc, append-nil,
}
use shadowc.Base.Int.{ℤ, int_eq}
use shadowc.Memory.{Outcome, ok, ◌>>=◌}
use shadowc.Eventloop.{EpollEvent, epollerr}
use shadowc.Asyncdns.Names.Labels.{joined}
use shadowc.Asyncdns.Response.{Malloc}
use shadowc.Asyncdns.Response.Parsing.{IsRoomy, Answer}
use shadowc.Asyncdns.Response.Finding.{first_of_type_a}
use shadowc.Asyncdns.Resolver.{
  Resolver, Effect, sends, calls, closes, unblocks, resolve, call_callback, handle_event,
}
use shadowc.Asyncdns.Resolver.Pending.{pending, or_nil, waits_too, pending-waits_too}
use shadowc.Asyncdns.Resolver.Answering.{answer_with, handle_event-IsResponse}
use shadowc.Asyncdns.Resolver.History.{Happening, requested, received, run}
use shadowc.Asyncdns.Resolver.Service.{
  IsHost, IsReadable, Copes, resolve_fits, waits_too-dns_socket, answer_with-dns_socket,
}
use shadowc.Asyncdns.Resolver.Queues.{
  Input, ask, answer, Call, Queues, step, after, behave, behave-append,
}
use shadowc.Asyncdns.Resolver.Meaning.{
  queues, calls_of, meaning, heard, resolve-step, call_callback-step, answer_with-behave,
  next_meaning,
}

module _ {C : Type 0} (fuel : ℕ) (socket : ℤ) (inet_ntoa : Bytes → Bytes) where
  -- What something that happens means to the queues: a response counts if it comes to the socket,
  -- without an error.
  abbrev pub meant : (h : Happening C) → Copes {C = C} fuel socket h → List (Input C)
  meant (requested pid buf hostname cb) c = ask hostname cb ∷ []
  meant (received evt buf) (inl other) = []
  meant (received evt buf) (inr (inl error)) = []
  meant (received evt buf) (inr (inr (answers, readable))) =
      if int_eq socket evt.fd
      then if bit_and evt.events epollerr == 0
        then heard inet_ntoa (first_of_type_a answers)
        else []
      else []

  abbrev pub all_meant :
      (hs : List (Happening C)) → All (Copes {C = C} fuel socket) hs → List (Input C)
  all_meant [] c = []
  all_meant (h ∷ hs) (c, cs) = meant h c ++ all_meant hs cs

module _ {C : Type 0} {malloc : Malloc} (roomy : IsRoomy malloc) (fuel : ℕ)
    (inet_ntoa : Bytes → Bytes) where
  -- One thing that happens, done as it is meant.
  abbrev Refines : Outcome (Resolver C × List (Effect C)) → ℤ → List (Input C) → Queues C → Type 0
  Refines o socket inputs q =
      (r' : Resolver C) × (effects : List (Effect C)) × (o ≡ ok (r', effects))
      × (r'.dns_socket ≡ socket)
      × (meaning (r', effects) ≡ behave inputs q)

  handle_event-meant :
      (socket : ℤ) (r : Resolver C) (evt : EpollEvent) (buf : Bytes)
      → r.dns_socket ≡ socket
      → (c : Copes {C = C} fuel socket (received evt buf))
      → Refines
          (handle_event fuel malloc inet_ntoa r evt buf)
          socket
          (meant fuel socket inet_ntoa (received evt buf) c)
          (queues r)
  unfolding handle_event
  handle_event-meant socket r evt buf e (inl other) =
      let other' : int_eq r.dns_socket evt.fd ≡ false = rw e other in
      (r, [], rw (other', handle_event) refl, e, refl)
  handle_event-meant socket r evt buf e (inr (inl error)) =
      elim (Bool-cases (int_eq r.dns_socket evt.fd)) [
        | inr other ↦ (r, [], rw (other, handle_event) refl, e, refl)
        | inl ours ↦ (r, closes evt.fd ∷ [], rw (ours, handle_event, error) refl, e, refl)
      ]
  handle_event-meant socket r evt buf e (inr (inr (answers, readable))) =
      elim (Bool-cases (int_eq socket evt.fd)) [
        | inr other ↦
            let other' : int_eq r.dns_socket evt.fd ≡ false = rw e other in
            (r, [], rw (other', handle_event) refl, e, rw other refl)
        | inl ours ↦
            let ours' : int_eq r.dns_socket evt.fd ≡ true = rw e ours in
            elim (Bool-cases (bit_and evt.events epollerr == 0)) [
              | inr error ↦ (
                r,
                closes evt.fd ∷ [],
                rw (ours', handle_event, error) refl,
                e,
                rw (ours, error) refl,
              )
              | inl fine ↦
                  let found = first_of_type_a answers in
                  (
                    (answer_with inet_ntoa r found).0,
                    (answer_with inet_ntoa r found).1,
                    handle_event-IsResponse roomy fuel inet_ntoa r evt buf readable.response
                        readable.four ours' (==→eq _ 0 fine),
                    answer_with-dns_socket inet_ntoa r found ∙ e,
                    rw (ours, fine) (answer_with-behave inet_ntoa r found),
                  )
            ]
      ]

  -- With an allocator that leaves room behind each block, a resolver, over any history that it
  -- copes with, does not fault and does what its queues do: the callbacks that wait for each host
  -- name at the end, and the calls made, in order, with their names and addresses, are those of a
  -- queue for each host name, to which a request adds and which the first address of a readable
  -- response to its own socket, without EPOLLERR, empties.
  pub run-behave :
      (hs : List (Happening C)) (r : Resolver C) {socket : ℤ}
      → r.dns_socket ≡ socket
      → (c : All (Copes {C = C} fuel socket) hs)
      → (r' : Resolver C) × (effects : List (Effect C)) × (run fuel malloc inet_ntoa hs r
          ≡ ok (r', effects))
        × ((queues r', calls_of effects) ≡ behave (all_meant fuel socket inet_ntoa hs c) (queues r))
  unfolding run
  run-behave [] r e c = (r, [], refl, refl)
  run-behave (requested pid buf hostname cb ∷ hs) r {socket} e ((b, h), cs) =
      let (packet, step) = resolve_fits pid buf r hostname cb b h in
      let r₁ : Resolver C = waits_too r hostname cb (find hostname r.hostname_to_cb) in
      let sent : List (Effect C) = map (λ server. sends r.dns_socket server packet) r.servers in
      let e₁ : r₁.dns_socket ≡ socket =
        waits_too-dns_socket r hostname cb (find hostname r.hostname_to_cb) ∙ e in
      let (r₂, more, rest, later) = run-behave hs r₁ e₁ cs in
      (
        r₂,
        sent ++ more,
        rw (step, ◌>>=◌, rest) refl,
        next_meaning r₁ r₂ sent more (ask hostname cb ∷ []) (all_meant fuel socket inet_ntoa hs cs)
            (queues r) (resolve-step hostname packet cb r) later,
      )
  run-behave (received evt buf ∷ hs) r {socket} e (c, cs) =
      let (r₁, first, step, e₁, now) = handle_event-meant socket r evt buf e c in
      let (r₂, more, rest, later) = run-behave hs r₁ e₁ cs in
      (
        r₂,
        first ++ more,
        rw (step, ◌>>=◌, rest) refl,
        next_meaning r₁ r₂ first more (meant fuel socket inet_ntoa (received evt buf) c)
            (all_meant fuel socket inet_ntoa hs cs) (queues r) now later,
      )
