-- ===== src/Asyncdns/Resolver/Serving.antt =====
-- From requests over the loop's events to the calls of the callbacks.
use Prim.Native.Nat.{bit_and}
use shadowc.Base.{
  ℕ, ◌≡◌, refl, ◌∙◌, sym, ap, inl, inr, true, Option, none, some, List, [], ◌∷◌, ◌++◌, Bytes, All,
  All-append, find, find-assign, append_assoc, append-nil, beq_refl, bytes_key, Bool-cases, drop,
  Option-cases,
}
use shadowc.Base.Int.{ℤ, int_eq, int_key}
use shadowc.Memory.{ok, ◌>>=◌}
use shadowc.Memory.Laws.{ok-injective}
use shadowc.Eventloop.{EventLoop, EpollEvent, epollerr, Wait, dispatch_all}
use shadowc.Eventloop
use shadowc.Eventloop.Registry.{handler_of, handler_of-add}
use shadowc.Eventloop.Schedule.{delivered, breaks, ends, run-delivered}
use shadowc.Asyncdns.Names.Labels.{joined}
use shadowc.Asyncdns.Response.{Malloc}
use shadowc.Asyncdns.Response.Parsing.{IsRoomy, Answer}
use shadowc.Asyncdns.Response.Finding.{first_of_type_a}
use shadowc.Asyncdns.Resolver.{Resolver, Effect, create, call_callback, add_to_loop}
use shadowc.Asyncdns.Resolver.Pending.{pending, called}
use shadowc.Asyncdns.Resolver.Answering.{answer_with, handle_event-IsResponse}
use shadowc.Asyncdns.Resolver.History.{Happening, requested, received, registered, run, run-pending}
use shadowc.Asyncdns.Resolver.Service.{
  IsReadable, Copes, run-Goes, run-append, answer_with-dns_socket,
}
use shadowc.Asyncdns.Resolver.Dispatch.{
  World, loop_of, arrivals, on_event, IsAlone, dispatch_all-arrivals,
}

append_nil_split : {C : Type 0} (xs ys : List C) → xs ++ ys ≡ [] → (xs ≡ []) × (ys ≡ [])
append_nil_split [] ys e = (refl, e)
append_nil_split (x ∷ xs) ys e = absurd (cc)

-- A response that the resolver reads, and whose first address is `host`'s.
pub record IsAnswer (fuel : ℕ) (socket : ℤ) (host : Bytes) (evt : EpollEvent) (buf : Bytes)
    : Type 0 where
  pub ours : int_eq socket evt.fd ≡ true
  pub fine : bit_and evt.events epollerr ≡ 0
  pub answers : List Answer
  pub readable : IsReadable fuel buf answers
  pub names : List Bytes
  pub rdata : Bytes
  pub first : first_of_type_a answers ≡ some (names, rdata)
  pub owner : joined names ≡ host

module _ {C : Type 0} where
  registered-append :
      (host : Bytes) (hs hs' : List (Happening C))
      → registered host (hs ++ hs') ≡ registered host hs ++ registered host hs'
  registered-append host [] hs' = refl
  registered-append host (requested pid buf hostname cb ∷ hs) hs' =
      rw (registered-append host hs hs')
        (sym (append_assoc _ (registered host hs) (registered host hs')))
  registered-append host (received evt buf ∷ hs) hs' = registered-append host hs hs'

  registered-arrivals :
      (host : Bytes) (socket : ℤ) (es : List EpollEvent) (bs : List Bytes)
      → registered {C = C} host (arrivals socket es bs) ≡ []
  registered-arrivals host socket [] bs = refl
  registered-arrivals host socket (e ∷ es) bs = elim (Bool-cases (int_eq socket e.fd)) [
    | inl ours ↦ rw ours (registered-arrivals host socket es (drop 1 bs))
    | inr other ↦ rw other (registered-arrivals host socket es bs)
  ]

  pending-call_callback_self :
      (host ip : Bytes) (r : Resolver C) → pending host (call_callback r host ip).0 ≡ []
  unfolding call_callback
  pending-call_callback_self host ip r = elim (Option-cases (find host r.hostname_to_cb)) [
    | inl e ↦ rw (e, call_callback, e) refl
    | inr (callbacks, e) ↦
        rw (e, call_callback, find-assign host host [] r.hostname_to_cb, beq_refl host) refl
  ]

  pending-answer_with :
      (inet_ntoa : Bytes → Bytes) (host rdata : Bytes) (names : List Bytes) (r : Resolver C)
      (found : Option (List Bytes × Bytes))
      → found ≡ some (names, rdata)
      → joined names ≡ host
      → pending host (answer_with inet_ntoa r found).0 ≡ []
  pending-answer_with inet_ntoa host rdata names r found e owner =
      ap (λ (f : Option (List Bytes × Bytes)). pending host (answer_with inet_ntoa r f).0) e
      ∙ ap (λ (n : Bytes). pending host (call_callback r n (inet_ntoa rdata)).0) owner
      ∙ pending-call_callback_self host (inet_ntoa rdata) r

  -- Nobody waits at the end, so everybody was called.
  settle :
      (calls waiting waiting' asked before after : List C)
      → calls ++ waiting' ≡ waiting ++ asked
      → waiting' ≡ []
      → asked ≡ before ++ after
      → after ≡ []
      → calls ≡ waiting ++ before
  settle calls waiting waiting' asked before after all none_waits parts none_later =
      sym (append-nil calls)
      ∙ ap (◌++◌ calls) (sym none_waits)
      ∙ all
      ∙ ap (◌++◌ waiting) (parts ∙ ap (◌++◌ before) none_later ∙ append-nil before)

module _ {C : Type 0} {malloc : Malloc} (roomy : IsRoomy malloc) (fuel : ℕ)
    (inet_ntoa : Bytes → Bytes) where
  -- Once the answer for `host` has come, everybody who asked for it before has been called, once and
  -- in order.
  pub run-IsAnswer :
      (host : Bytes) (before after : List (Happening C)) (evt : EpollEvent) (buf : Bytes)
      (r : Resolver C)
      → All (Copes {C = C} fuel r.dns_socket) before
      → IsAnswer fuel r.dns_socket host evt buf
      → All (Copes {C = C} fuel r.dns_socket) after
      → registered host after ≡ []
      → (r' : Resolver C) × (effects : List (Effect C)) × (run fuel malloc inet_ntoa
            (before ++ received evt buf ∷ after)
            r
          ≡ ok (r', effects))
        × (called host effects ≡ pending host r ++ registered host before)
  unfolding run
  run-IsAnswer host before after evt buf r c a d none_later =
      let (r₁, es₁, run₁, kept₁) = run-Goes roomy fuel inet_ntoa before r refl c in
      let found = first_of_type_a a.answers in
      let r₂ : Resolver C = (answer_with inet_ntoa r₁ found).0 in
      let es₂ : List (Effect C) = (answer_with inet_ntoa r₁ found).1 in
      let ours : int_eq r₁.dns_socket evt.fd ≡ true = rw kept₁ a.ours in
      let step =
        handle_event-IsResponse roomy fuel inet_ntoa r₁ evt buf a.readable.response a.readable.four
          ours a.fine in
      let kept₂ : r₂.dns_socket ≡ r.dns_socket =
        answer_with-dns_socket inet_ntoa r₁ found ∙ kept₁ in
      let (r₃, es₃, run₃, _) = run-Goes roomy fuel inet_ntoa after r₂ (sym kept₂) d in
      let onward : run fuel malloc inet_ntoa (received evt buf ∷ after) r₁ ≡ ok (r₃, es₂ ++ es₃) =
        rw (step, ◌>>=◌, run₃) refl in
      let whole = run-append roomy fuel inet_ntoa before (received evt buf ∷ after) r run₁ onward in
      let idle : pending host r₂ ≡ [] =
        pending-answer_with inet_ntoa host a.rdata a.names r₁ found a.first a.owner in
      let nobody = append_nil_split (called host es₃) (pending host r₃) (
        run-pending fuel malloc inet_ntoa host after r₂ run₃
        ∙ ap (λ l. l ++ registered host after) idle
        ∙ none_later) in
      let all =
        run-pending fuel malloc inet_ntoa host (before ++ received evt buf ∷ after) r whole in
      (
        r₃,
        es₁ ++ (es₂ ++ es₃),
        whole,
        settle (called host (es₁ ++ (es₂ ++ es₃))) (pending host r) (pending host r₃)
            (registered host (before ++ received evt buf ∷ after)) (registered host before)
            (registered host after) all nobody.1
            (registered-append host before (received evt buf ∷ after)) none_later,
      )

  -- A new resolver joins a loop without handlers, over an allocator that leaves room behind each
  -- block, and copes with all requests and events first (`asked`), then with the events of its
  -- socket that the waits of the loop deliver: names of at most 109 characters without a zero byte
  -- in their wire form, buffers of 128 bytes, and responses that it can read where an event is its
  -- own and without EPOLLERR. If one of the delivered events is a response whose first address
  -- record is of `host`, nothing faults, `run` dispatches all that its waits deliver, and everybody
  -- who asked for `host` has been called, once and in order.
  pub run_waits-IsAnswer {ℓ} :
      {H : Type ℓ} (self : H) (socket : ℤ) (loop : EventLoop H) (asked : List (Happening C))
      (waits : List Wait) (buffers : List Bytes) (host : Bytes) (before after : List (Happening C))
      (evt : EpollEvent) (buf : Bytes)
      → ((fd : ℤ) → handler_of loop fd ≡ none)
      → All (Copes {C = C} fuel socket) asked
      → arrivals socket (delivered waits) buffers ≡ before ++ received evt buf ∷ after
      → All (Copes {C = C} fuel socket) before
      → IsAnswer fuel socket host evt buf
      → All (Copes {C = C} fuel socket) after
      → let (r, loop', _) = add_to_loop {C = C} socket self create loop in
        (r₁ : Resolver C) × (sent : List (Effect C)) × (world : World H C) × (r' : Resolver C)
        × (effects : List (Effect C)) × (run fuel malloc inet_ntoa asked r ≡ ok (r₁, sent))
        × (Eventloop.run loop_of
              (on_event fuel malloc inet_ntoa)
              waits
              (record { loop = loop'; resolver = ok (r₁, sent); buffers = buffers })
            ≡ ends loop_of (on_event fuel malloc inet_ntoa) (breaks waits) world)
        × (world.resolver ≡ ok (r', effects))
        × (called host effects ≡ registered host asked)
  unfolding add_to_loop
  run_waits-IsAnswer {H} self socket loop asked waits buffers host before after evt buf free c
        arrive b a d =
      let r : Resolver C = (add_to_loop {C = C} socket self create loop).0 in
      let read : List (Happening C) = arrivals socket (delivered waits) buffers in
      let split = append_nil_split (registered host before) (registered host after) (
        sym (registered-append host before (received evt buf ∷ after))
        ∙ ap (registered host) (sym arrive)
        ∙ registered-arrivals host socket (delivered waits) buffers) in
      let (r₁, sent, run₁, kept) = run-Goes roomy fuel inet_ntoa asked r refl c in
      let copes : All (Copes {C = C} fuel socket) read =
        rw arrive (
          All-append _ before (received evt buf ∷ after) b
            (inr (inr (a.answers, a.readable)), d)) in
      let (r', more, run₂, _) = run-Goes roomy fuel inet_ntoa read r₁ (sym kept) copes in
      let whole = run-append roomy fuel inet_ntoa asked read r run₁ run₂ in
      let (r'', effects, run₃, called_all) =
        run-IsAnswer host (asked ++ before) after evt buf r (All-append _ asked before c b) a d
          split.1 in
      let same : (r'', effects) ≡ (r', sent ++ more) =
        ok-injective (r'', effects) (r', sent ++ more)
          (sym run₃
            ∙ ap (λ hs. run fuel malloc inet_ntoa hs r)
                (append_assoc asked before (received evt buf ∷ after)
                  ∙ ap (◌++◌ asked) (sym arrive))
            ∙ whole) in
      let world : World H C = record {
        loop = (add_to_loop {C = C} socket self create loop).1;
        resolver = ok (r₁, sent);
        buffers = buffers;
      } in
      let none_at_first : pending host r ≡ [] = unfold find in refl in
      let alone : IsAlone self socket world.loop = record {
        handles = rw (handler_of-add loop socket socket _ self, beq_refl socket, free socket) refl;
        no_other = λ fd other. rw (handler_of-add loop socket fd _ self, other) (free fd);
      } in
      (
        r₁,
        sent,
        dispatch_all loop_of (on_event fuel malloc inet_ntoa) (delivered waits) world,
        r',
        sent ++ more,
        run₁,
        run-delivered loop_of (on_event fuel malloc inet_ntoa) waits world,
        dispatch_all-arrivals fuel malloc inet_ntoa self socket (delivered waits) world alone refl
            run₂,
        ap (λ p. called host p.1) (sym same)
            ∙ called_all
            ∙ ap (λ (l : List C). l ++ registered host (asked ++ before)) none_at_first
            ∙ registered-append host asked before
            ∙ ap (◌++◌ (registered host asked)) split.0
            ∙ append-nil (registered host asked),
      )
