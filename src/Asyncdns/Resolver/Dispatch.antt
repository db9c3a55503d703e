-- ===== src/Asyncdns/Resolver/Dispatch.antt =====
-- The resolver as the handler of an event loop: what `EventLoop::run` makes of its events.
use shadowc.Base.{
  ℕ, ◌≡◌, refl, ◌∙◌, sym, ap, inl, inr, false, none, some, List, [], ◌∷◌, ◌++◌, Bytes, drop,
  append_assoc, append-nil, bytes_key, Bool-cases, if◌then◌else◌,
}
use shadowc.Base.Int.{ℤ, int_eq, int_eq_iff, int_key}
use shadowc.Memory.{Outcome, ok, ◌>>=◌}
use shadowc.Memory.Laws.{>>=-eq-ok}
use shadowc.Eventloop.{EventLoop, EpollEvent, dispatch_all}
use shadowc.Eventloop.Schedule.{dispatch-some, dispatch-none}
use shadowc.Eventloop.Registry.{handler_of}
use shadowc.Asyncdns.Response.{Malloc}
use shadowc.Asyncdns.Resolver.{Resolver, Effect, handle_event}
use shadowc.Asyncdns.Resolver.History.{Happening, received, run}
use shadowc.Asyncdns.Resolver.Service.{extend}

-- An event loop with a resolver, and what the next reads of its socket will leave in `buf`.
pub record World {ℓ} (H : Type ℓ) (C : Type 0) : Type ℓ where
  pub loop : EventLoop H
  pub resolver : Outcome (Resolver C × List (Effect C))
  pub buffers : List Bytes

abbrev pub next : List Bytes → Bytes
next [] = []
next (b ∷ bs) = b

abbrev pub loop_of {ℓ} : {H : Type ℓ} {C : Type 0} → World H C → EventLoop H
loop_of w = w.loop

-- The events of the resolver's socket, each with what is read.
abbrev pub arrivals : {C : Type 0} → ℤ → List EpollEvent → List Bytes → List (Happening C)
arrivals socket [] bs = []
arrivals socket (e ∷ es) bs =
    if int_eq socket e.fd
    then received e (next bs) ∷ arrivals socket es (drop 1 bs)
    else arrivals socket es bs

-- Only the resolver handles events, those of `socket`.
pub record IsAlone {ℓ} {H : Type ℓ} (self : H) (socket : ℤ) (loop : EventLoop H) : Type ℓ where
  pub handles : handler_of loop socket ≡ some self
  pub no_other : (fd : ℤ) → int_eq socket fd ≡ false → handler_of loop fd ≡ none

module _ {ℓ} {H : Type ℓ} {C : Type 0} (fuel : ℕ) (malloc : Malloc)
    (inet_ntoa : Bytes → Bytes) where
  -- The virtual call of `handle_event` for a handler that is the resolver.
  unfoldable pub on_event : H → EpollEvent → World H C → World H C
  on_event self evt w = record w {
    resolver = (do
      (r, before) ← w.resolver
      (r', more) ← handle_event fuel malloc inet_ntoa r evt (next w.buffers)
      ok (r', before ++ more));
    buffers = drop 1 w.buffers;
  }

  -- Dispatching events is the history of what arrives at the resolver.
  pub dispatch_all-arrivals :
      (self : H) (socket : ℤ) (es : List EpollEvent) (w : World H C) {r r' : Resolver C}
      {before more : List (Effect C)}
      → IsAlone self socket w.loop
      → w.resolver ≡ ok (r, before)
      → run fuel malloc inet_ntoa (arrivals socket es w.buffers) r ≡ ok (r', more)
      → (dispatch_all loop_of on_event es w).resolver ≡ ok (r', before ++ more)
  unfolding dispatch_all run on_event
  dispatch_all-arrivals self socket [] w {r} {r'} {before} {more} alone s e =
      s ∙ ap (λ (l : List (Effect C)). ok (r, l)) (sym (append-nil before)) ∙ ap (extend before) e
  dispatch_all-arrivals self socket (e ∷ es) w {r} {r'} {before} {more} alone s goes =
      elim (Bool-cases (int_eq socket e.fd)) [
        | inr other ↦
            let rest : run fuel malloc inet_ntoa (arrivals socket es w.buffers) r ≡ ok (r', more) =
              rw other at goes in
            ap (λ (x : World H C). (dispatch_all loop_of on_event es x).resolver)
              (dispatch-none loop_of on_event e w (alone.no_other e.fd other))
            ∙ dispatch_all-arrivals self socket es w alone s rest
        | inl ours ↦
            let h : run fuel malloc inet_ntoa
                  (received e (next w.buffers) ∷ arrivals socket es (drop 1 w.buffers)) r
                ≡ ok (r', more) =
              rw ours at goes in
            let ((r₁, first), step, h') =
              >>=-eq-ok (handle_event fuel malloc inet_ntoa r e (next w.buffers)) _ h in
            let ((r₂, later), rest, done) =
              >>=-eq-ok (run fuel malloc inet_ntoa (arrivals socket es (drop 1 w.buffers)) r₁) _
                h' in
            let found : handler_of w.loop e.fd ≡ some self =
              rw (← (int_eq_iff socket e.fd).0 ours) alone.handles in
            let now : (on_event self e w).resolver ≡ ok (r₁, before ++ first) =
              rw (s, ◌>>=◌, step) refl in
            ap (λ (x : World H C). (dispatch_all loop_of on_event es x).resolver)
              (dispatch-some loop_of on_event e w found)
            ∙ dispatch_all-arrivals self socket es (on_event self e w) alone now rest
            ∙ ap (λ (l : List (Effect C)). ok (r₂, l)) (append_assoc before first later)
            ∙ ap (extend before) done
      ]
