-- ===== src/Tcprelay/Accepting.antt =====
-- What becomes of events and of accepted connections.
use Prim.Native.Nat.{bit_and}
use shadowc.Base.{
  ℕ, Option, true, some, List, [], ◌∷◌, ◌++◌, ◌≡◌, refl, ◌∙◌, ap, ◌==◌, find, length, suc, ◌+◌,
  if◌then◌else◌, arith,
}
use shadowc.Base.Int.{ℤ, failed, int_eq, int_key}
use shadowc.Eventloop.{EpollEvent, epollerr}
use shadowc.Tcprelay.{
  Relay, Effect, accepts, logs, hands, Message, accepting_error, accepting, accepted_connection,
  Answers, Attempt, Setup, started, create, handle_event,
}
use shadowc.Tcprelay.Listening.{create-started}

module _ {ℓ} {H : Type ℓ} where
  -- The relay over a history of events, each with what the system answers.
  unfoldable pub run : List (EpollEvent × Answers) → Relay H → Relay H × List (Effect H)
  run [] r = (r, [])
  run ((evt, a) ∷ es) r =
      let (r', first) = handle_event r evt a in let (r'', more) = run es r' in (r'', first ++ more)

  -- The descriptors accepted.
  abbrev pub accepted : List (Effect H) → List ℤ
  accepted [] = []
  accepted (accepts fd ∷ es) = fd ∷ accepted es
  accepted (logs m ∷ es) = accepted es
  accepted (hands h evt ∷ es) = accepted es

  -- How often an error of an accept is logged.
  abbrev pub errors_logged : List (Effect H) → ℕ
  errors_logged [] = 0
  errors_logged (logs accepting_error ∷ es) = suc (errors_logged es)
  errors_logged (logs _ ∷ es) = errors_logged es
  errors_logged (accepts fd ∷ es) = errors_logged es
  errors_logged (hands h evt ∷ es) = errors_logged es

  -- The events handed to a handler.
  abbrev pub handed : List (Effect H) → List EpollEvent
  handed [] = []
  handed (hands h evt ∷ es) = evt ∷ handed es
  handed (accepts fd ∷ es) = handed es
  handed (logs m ∷ es) = handed es

  -- What one event does to a relay with no handlers.
  pub handle_event-nil :
      (r : Relay H) (evt : EpollEvent) (a : Answers)
      → r.fd_to_handlers ≡ []
      → let (r', effects) = handle_event r evt a in
        (r' ≡ r) × (handed effects ≡ []) × (errors_logged effects ≡ length (accepted effects))
  unfolding handle_event find
  handle_event-nil r evt a e = ground arith

  -- An event of the server socket without EPOLLERR accepts the connection that the system has, if
  -- any, and an accepting error is logged exactly if there is one.
  pub handle_event_accepting :
      (r : Relay H) (evt : EpollEvent) (a : Answers)
      → int_eq evt.fd r.server_socket ≡ true
      → (bit_and evt.events epollerr == 0) ≡ true
      → let (r', effects) = handle_event r evt a in
        (accepted effects ≡ (if int_eq a.conn failed then [] else a.conn ∷ []))
        × (errors_logged effects ≡ (if int_eq a.conn failed then 0 else 1))
  unfolding handle_event
  handle_event_accepting r evt a ours fine = ground arith

  handed-append : (es fs : List (Effect H)) → handed (es ++ fs) ≡ handed es ++ handed fs
  handed-append [] fs = refl
  handed-append (hands h evt ∷ es) fs = ap (◌∷◌ evt) (handed-append es fs)
  handed-append (accepts fd ∷ es) fs = handed-append es fs
  handed-append (logs m ∷ es) fs = handed-append es fs

  balance-append :
      (es fs : List (Effect H))
      → errors_logged es ≡ length (accepted es)
      → errors_logged fs ≡ length (accepted fs)
      → errors_logged (es ++ fs) ≡ length (accepted (es ++ fs))
  balance-append es fs h k = omega (arith, errors-append es fs, accepted-append es fs)
    where
      errors-append :
          (es fs : List (Effect H)) → errors_logged (es ++ fs) ≡ errors_logged es + errors_logged fs
      errors-append [] fs = omega arith
      errors-append (hands h evt ∷ es) fs = errors-append es fs
      errors-append (accepts fd ∷ es) fs = errors-append es fs
      errors-append (logs accepting_error ∷ es) fs = omega (arith, errors-append es fs)
      errors-append (logs Message.epoll_error ∷ es) fs = errors-append es fs
      errors-append (logs accepting ∷ es) fs = errors-append es fs
      errors-append (logs (accepted_connection c) ∷ es) fs = errors-append es fs

      accepted-append :
          (es fs : List (Effect H))
          → length (accepted (es ++ fs)) ≡ length (accepted es) + length (accepted fs)
      accepted-append [] fs = omega arith
      accepted-append (hands h evt ∷ es) fs = accepted-append es fs
      accepted-append (accepts fd ∷ es) fs = omega (arith, accepted-append es fs)
      accepted-append (logs m ∷ es) fs = accepted-append es fs

  run-nil :
      (es : List (EpollEvent × Answers)) (r : Relay H)
      → r.fd_to_handlers ≡ []
      → let (r', effects) = run es r in
        (r' ≡ r) × (handed effects ≡ []) × (errors_logged effects ≡ length (accepted effects))
  unfolding run
  run-nil [] r e = (refl, refl, refl)
  run-nil ((evt, a) ∷ es) r e =
      let first = (handle_event r evt a).1 in
      let (same, unhanded, balanced) = handle_event-nil r evt a e in
      let (same', unhanded', balanced') = run-nil es r e in
      rw same (
        same',
        handed-append first (run es r).1 ∙ rw (unhanded) unhanded',
        balance-append first (run es r).1 balanced balanced',
      )

  -- A relay that has started stays as it is over any events, and never hands one to a handler: it
  -- registers none for the connections that it accepts. It logs as many accepting errors as it
  -- accepts connections.
  pub run-create :
      (dns_resolver : ℕ) (attempts : List Attempt) (fcntl : ℤ → Option ℕ × Option ℕ)
      (listen : ℤ → ℤ) (r : Relay H) (done : List Setup) (es : List (EpollEvent × Answers))
      → create dns_resolver (some attempts) fcntl listen ≡ started r done
      → let (r', effects) = run es r in
        (r' ≡ r) × (handed effects ≡ []) × (errors_logged effects ≡ length (accepted effects))
  run-create dns_resolver attempts fcntl listen r done es e =
      run-nil es r (create-started dns_resolver attempts fcntl listen r done e).2
