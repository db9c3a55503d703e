-- ===== src/Eventloop/Schedule.antt =====
-- The loop against a plain description: what happens before the first error that is not EINTR.
use shadowc.Eventloop.Registry.{handler_of}
use shadowc.Base.{none, some, Bool, true, false, ◌≡◌, refl, ◌∙◌, List, [], ◌∷◌, ◌++◌, arith, ◌==◌}
use shadowc.Base.Int.{int_key}
use shadowc.Eventloop.{
  EventLoop, EpollEvent, Wait, wait_error, ready, eintr, Running, returned, waiting, dispatch_to,
  dispatch, dispatch_all, run,
}

-- The events that are dispatched, in order.
abbrev pub delivered : List Wait → List EpollEvent
delivered [] = []
delivered (wait_error errno ∷ waits) = elim (errno == eintr) [ true ↦ delivered waits | false ↦ [] ]
delivered (ready events ∷ waits) = events ++ delivered waits

-- Some wait fails for another reason than a signal.
abbrev pub breaks : List Wait → Bool
breaks [] = false
breaks (wait_error errno ∷ waits) = elim (errno == eintr) [ true ↦ breaks waits | false ↦ true ]
breaks (ready events ∷ waits) = breaks waits

module _ {ℓ κ} {H : Type ℓ} {S : Type κ} (loop_of : S → EventLoop H)
    (handle_event : H → EpollEvent → S → S) where
  pub dispatch-some :
      (e : EpollEvent) (s : S) {handler : H}
      → handler_of (loop_of s) e.fd ≡ some handler
      → dispatch loop_of handle_event e s ≡ handle_event handler e s
  unfolding dispatch
  dispatch-some e s h = rw (h, dispatch_to) refl

  pub dispatch-none :
      (e : EpollEvent) (s : S)
      → handler_of (loop_of s) e.fd ≡ none
      → dispatch loop_of handle_event e s ≡ s
  unfolding dispatch
  dispatch-none e s h = rw (h, dispatch_to) refl

  pub dispatch_all-append :
      (xs ys : List EpollEvent) (s : S)
      → dispatch_all loop_of handle_event (xs ++ ys) s
        ≡ dispatch_all loop_of handle_event ys (dispatch_all loop_of handle_event xs s)
  unfolding dispatch_all
  dispatch_all-append [] ys s = refl
  dispatch_all-append (x ∷ xs) ys s = dispatch_all-append xs ys (dispatch loop_of handle_event x s)

  abbrev pub ends : Bool → S → Running S
  ends true s = returned s
  ends false s = waiting s

  -- `run` is its specification: the events of all waits up to the first failure other than EINTR
  -- are dispatched one after the other, and `run` has returned exactly if there is such a failure.
  pub run-delivered :
      (waits : List Wait) (s : S)
      → run loop_of handle_event waits s
        ≡ ends (breaks waits) (dispatch_all loop_of handle_event (delivered waits) s)
  unfolding run dispatch_all
  run-delivered [] s = refl
  run-delivered (wait_error errno ∷ waits) s = ground (arith, run-delivered waits s)
  run-delivered (ready events ∷ waits) s =
      run-delivered waits (dispatch_all loop_of handle_event events s)
      ∙ rw (dispatch_all-append events (delivered waits) s)
