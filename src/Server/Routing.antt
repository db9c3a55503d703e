-- ===== src/Server/Routing.antt =====
-- Who gets which event.
use shadowc.Base.{
  ◌≡◌, refl, ◌∙◌, sym, ap, inl, inr, ℕ, true, false, some, none, List, [], ◌∷◌, ◌++◌, Bytes, drop,
  append_assoc, append-nil, if◌then◌else◌, Bool-cases,
}
use shadowc.Base.Int.{ℤ, int_eq, int_eq_iff, int_key}
use shadowc.Memory.{ok, ◌>>=◌}
use shadowc.Memory.Laws.{>>=-eq-ok}
use shadowc.Eventloop.{EventLoop, EpollEvent, dispatch, dispatch_all}
use shadowc.Eventloop.Registry.{handler_of}
use shadowc.Eventloop.Schedule.{dispatch-some, dispatch-none}
use shadowc.Asyncdns.Response.{Malloc}
use shadowc.Asyncdns.Resolver.{Resolver}
use shadowc.Asyncdns.Resolver
use shadowc.Asyncdns.Resolver.History
use shadowc.Asyncdns.Resolver.Service.{extend}
use shadowc.Asyncdns.Resolver.Dispatch.{next, arrivals}
use shadowc.Tcprelay.{Relay, Answers, Attempt, started}
use shadowc.Tcprelay
use shadowc.Tcprelay.Accepting
use shadowc.Server.{Handler, resolver, relay, Server, next_answer, loop_of, on_event}

-- The events of the listening socket, each with what the system answers.
abbrev pub visits : ℤ → List EpollEvent → List Answers → List (EpollEvent × Answers)
visits listening [] answers = []
visits listening (e ∷ es) answers =
    if int_eq listening e.fd
    then (e, next_answer answers) ∷ visits listening es (drop 1 answers)
    else visits listening es answers

-- The resolver handles the events of `socket`, the relay those of `listening`, and nobody others.
pub record Routes (socket listening : ℤ) (loop : EventLoop Handler) : Type 0 where
  pub to_resolver : handler_of loop socket ≡ some resolver
  pub to_relay : handler_of loop listening ≡ some relay
  pub apart : int_eq socket listening ≡ false
  pub no_other :
      (fd : ℤ) → int_eq socket fd ≡ false → int_eq listening fd ≡ false → handler_of loop fd ≡ none

pub apart-other :
    (socket listening fd : ℤ)
    → int_eq socket listening ≡ false
    → int_eq socket fd ≡ true
    → int_eq listening fd ≡ false
apart-other socket listening fd ne dns = elim (Bool-cases (int_eq listening fd)) [
  | inr other ↦ other
  | inl knock ↦
      let same : int_eq socket listening ≡ true =
        (int_eq_iff socket listening).1
          ((int_eq_iff socket fd).0 dns ∙ sym ((int_eq_iff listening fd).0 knock)) in
      absurd (cc)
]

-- The relay over what visits it, from a list of effects on.
abbrev visited {ℓ} :
    {H : Type ℓ}
    → List (Tcprelay.Effect H)
    → List (EpollEvent × Answers)
    → Relay H
    → Relay H × List (Tcprelay.Effect H)
visited before es r = ((Accepting.run es r).0, before ++ (Accepting.run es r).1)

module _ {ℓ} {C : Type 0} {H : Type ℓ} (fuel : ℕ) (malloc : Malloc) (inet_ntoa : Bytes → Bytes)
    (socket listening : ℤ) where
  abbrev step : EpollEvent → Server C H → Server C H
  step = dispatch loop_of (on_event fuel malloc inet_ntoa)

  -- An event goes to the one whose descriptor it has.
  step-Routes :
      (e : EpollEvent) (s : Server C H)
      → Routes socket listening s.loop
      → step e s ≡ (
          if int_eq socket e.fd
          then on_event fuel malloc inet_ntoa resolver e s
          else if int_eq listening e.fd
          then on_event fuel malloc inet_ntoa relay e s
          else s)
  step-Routes e s routes = elim (Bool-cases (int_eq socket e.fd)) [
    | inl dns ↦ rw dns (
        dispatch-some loop_of (on_event fuel malloc inet_ntoa) e s
          (rw (← (int_eq_iff socket e.fd).0 dns) routes.to_resolver))
    | inr not_dns ↦ elim (Bool-cases (int_eq listening e.fd)) [
      | inl knock ↦
          rw (not_dns, knock)
            (dispatch-some loop_of (on_event fuel malloc inet_ntoa) e s
              (rw (← (int_eq_iff listening e.fd).0 knock) routes.to_relay))
      | inr other ↦
          rw (not_dns, other)
            (dispatch-none loop_of (on_event fuel malloc inet_ntoa) e s
              (routes.no_other e.fd not_dns other))
    ]
  ]

  pub resolving-dispatch_all :
      (es : List EpollEvent) (s : Server C H) {r r' : Resolver C}
      {before more : List (Resolver.Effect C)}
      → Routes socket listening s.loop
      → s.resolving ≡ ok (r, before)
      → History.run fuel malloc inet_ntoa (arrivals socket es s.buffers) r ≡ ok (r', more)
      → (dispatch_all loop_of (on_event fuel malloc inet_ntoa) es s).resolving
        ≡ ok (r', before ++ more)
  unfolding dispatch_all History.run on_event
  resolving-dispatch_all [] s {r} {r'} {before} {more} routes now goes =
      now
      ∙ ap (λ (l : List (Resolver.Effect C)). ok (r, l)) (sym (append-nil before))
      ∙ ap (extend before) goes
  resolving-dispatch_all (e ∷ es) s {r} {r'} {before} {more} routes now goes =
      elim (Bool-cases (int_eq socket e.fd)) [
        | inl dns ↦
            let h : History.run fuel malloc inet_ntoa
                  (History.received e (next s.buffers) ∷ arrivals socket es (drop 1 s.buffers)) r
                ≡ ok (r', more) =
              rw dns at goes in
            let ((r₁, first), handled, h') =
              >>=-eq-ok (Resolver.handle_event fuel malloc inet_ntoa r e (next s.buffers)) _ h in
            let ((r₂, later), rest, done) =
              >>=-eq-ok
                (History.run fuel malloc inet_ntoa (arrivals socket es (drop 1 s.buffers)) r₁) _
                h' in
            let s₁ : Server C H = on_event fuel malloc inet_ntoa resolver e s in
            let stepped : step e s ≡ s₁ = step-Routes e s routes ∙ rw dns refl in
            let handled_now : s₁.resolving ≡ ok (r₁, before ++ first) =
              rw (now, ◌>>=◌, handled) refl in
            ap
              (λ (x : Server C H).
                (dispatch_all loop_of (on_event fuel malloc inet_ntoa) es x).resolving)
              stepped
            ∙ resolving-dispatch_all es s₁ routes handled_now rest
            ∙ ap (λ (l : List (Resolver.Effect C)). ok (r₂, l)) (append_assoc before first later)
            ∙ ap (extend before) done
        | inr not_dns ↦
            let rest : History.run fuel malloc inet_ntoa (arrivals socket es s.buffers) r
                ≡ ok (r', more) =
              rw not_dns at goes in
            elim (Bool-cases (int_eq listening e.fd)) [
              | inl knock ↦
                  let s₁ : Server C H = on_event fuel malloc inet_ntoa relay e s in
                  let stepped : step e s ≡ s₁ = step-Routes e s routes ∙ rw (not_dns, knock) refl in
                  ap
                    (λ (x : Server C H).
                      (dispatch_all loop_of (on_event fuel malloc inet_ntoa) es x).resolving)
                    stepped
                  ∙ resolving-dispatch_all es s₁ routes now rest
              | inr other ↦
                  let stepped : step e s ≡ s = step-Routes e s routes ∙ rw (not_dns, other) refl in
                  ap
                    (λ (x : Server C H).
                      (dispatch_all loop_of (on_event fuel malloc inet_ntoa) es x).resolving)
                    stepped
                  ∙ resolving-dispatch_all es s routes now rest
            ]
      ]

  pub relaying-dispatch_all :
      (es : List EpollEvent) (s : Server C H)
      → Routes socket listening s.loop
      → (dispatch_all loop_of (on_event fuel malloc inet_ntoa) es s).relaying
        ≡ visited s.relaying.1 (visits listening es s.answers) s.relaying.0
  unfolding dispatch_all Accepting.run on_event
  relaying-dispatch_all [] s routes = ap (λ l. (s.relaying.0, l)) (sym (append-nil s.relaying.1))
  relaying-dispatch_all (e ∷ es) s routes = elim (Bool-cases (int_eq socket e.fd)) [
    | inl dns ↦
        let s₁ : Server C H = on_event fuel malloc inet_ntoa resolver e s in
        let stepped : step e s ≡ s₁ = step-Routes e s routes ∙ rw dns refl in
        let not_knock : int_eq listening e.fd ≡ false =
          apart-other socket listening e.fd routes.apart dns in
        ap
          (λ (x : Server C H).
            (dispatch_all loop_of (on_event fuel malloc inet_ntoa) es x).relaying)
          stepped
        ∙ relaying-dispatch_all es s₁ routes
        ∙ rw not_knock refl
    | inr not_dns ↦ elim (Bool-cases (int_eq listening e.fd)) [
      | inl knock ↦
          let s₁ : Server C H = on_event fuel malloc inet_ntoa relay e s in
          let stepped : step e s ≡ s₁ = step-Routes e s routes ∙ rw (not_dns, knock) refl in
          let (l', first) = Tcprelay.handle_event s.relaying.0 e (next_answer s.answers) in
          let (l'', more) = Accepting.run (visits listening es (drop 1 s.answers)) l' in
          ap
            (λ (x : Server C H).
              (dispatch_all loop_of (on_event fuel malloc inet_ntoa) es x).relaying)
            stepped
          ∙ relaying-dispatch_all es s₁ routes
          ∙ rw knock (
              ap (λ (l : List (Tcprelay.Effect H)). (l'', l))
                (append_assoc s.relaying.1 first more))
      | inr other ↦
          let stepped : step e s ≡ s = step-Routes e s routes ∙ rw (not_dns, other) refl in
          ap
            (λ (x : Server C H).
              (dispatch_all loop_of (on_event fuel malloc inet_ntoa) es x).relaying)
            stepped
          ∙ relaying-dispatch_all es s routes
          ∙ rw other refl
    ]
  ]
