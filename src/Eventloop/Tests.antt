-- ===== src/Eventloop/Tests.antt =====
-- A loop with handlers 11 and 12, whose state counts the events handled.
use shadowc.Base.{
  ℕ, Bool, true, false, Option, none, if◌then◌else◌, ◌==◌, Bool-cases, inl, inr, find, insert,
  erase, find-insert, find-erase, refl, some, ◌+◌, ◌≡◌, List, [], ◌∷◌,
}
use shadowc.Base.Int.{ℤ, pos, int_eq, int_eq_iff, int_key}
use shadowc.Eventloop.{
  EpollCall, ctl_add, ctl_del, EventLoop, EpollEvent, Wait, wait_error, ready, run, dispatch_all,
}
use shadowc.Eventloop.{create}
use shadowc.Eventloop.Registry.{handler_of}
use shadowc.Eventloop.Watching.{
  Registration, adds, removes, register, Epoll, IsEpoll, Watches, watched_by, register-create,
}
use shadowc.Eventloop.Schedule.{delivered, breaks, ends, run-delivered}

abbrev two_handlers : EventLoop ℕ
two_handlers = record { efd = pos 3; fd_handler_map = (pos 5, 11) ∷ (pos 6, 12) ∷ []; calls = [] }

abbrev World : Type 0
World = EventLoop ℕ × ℕ

abbrev count_event : ℕ → EpollEvent → World → World
count_event handler e (loop, n) = (loop, n + handler)

abbrev event_on : ℕ → EpollEvent
event_on fd = record { events = 1; fd = pos fd }

abbrev waits : List Wait
waits =
    ready (event_on 5 ∷ event_on 7 ∷ [])
    ∷ wait_error 4
    ∷ ready (event_on 6 ∷ [])
    ∷ wait_error 9
    ∷ ready (event_on 5 ∷ [])
    ∷ []

run-delivered_example :
    run (λ (s : World). s.0) count_event waits (two_handlers, 0)
    ≡ ends
        (λ (s : World). s.0)
        count_event
        (breaks waits)
        (dispatch_all (λ (s : World). s.0) count_event (delivered waits) (two_handlers, 0))
run-delivered_example = run-delivered (λ (s : World). s.0) count_event waits (two_handlers, 0)

-- A second handler for 5 is not taken, 6 goes away, and 7 is refused the first time.
abbrev registrations : List (Registration ℕ)
registrations =
    adds (pos 5) 1 11
    ∷ adds (pos 5) 1 12
    ∷ adds (pos 6) 1 12
    ∷ removes (pos 6)
    ∷ adds (pos 7) 2 13
    ∷ adds (pos 7) 1 14
    ∷ []

abbrev new_loop : EventLoop ℕ
new_loop = record { efd = pos 3; fd_handler_map = []; calls = [] }

-- A kernel that keeps a list of what it watches, and refuses the mode 2.
abbrev list_ctl : EpollCall → List (ℤ × ℕ) → List (ℤ × ℕ)
list_ctl (ctl_add fd mode) watched = if mode == 2 then watched else insert fd mode watched
list_ctl (ctl_del fd) watched = erase fd watched

abbrev kernel : Epoll
kernel = record {
  State = List (ℤ × ℕ);
  ctl = list_ctl;
  watched = λ s fd. find fd s;
  refuses = λ s fd mode. mode == 2;
}

kernel-added :
    (s : List (ℤ × ℕ)) (fd fd' : ℤ) (mode : ℕ)
    → find fd' (list_ctl (ctl_add fd mode) s) ≡ (
        if int_eq fd fd'
        then elim (find fd s) [ none ↦ if mode == 2 then none else some mode | some old ↦ some old ]
        else find fd' s)
kernel-added s fd fd' mode = elim (Bool-cases (mode == 2)) [
  | inl e ↦ elim (Bool-cases (int_eq fd fd')) [
    | inl b ↦ rw (e, b, (int_eq_iff fd fd').0 b) (kept (mode == 2) (find fd' s) e)
    | inr b ↦ rw (e, b)
  ]
  | inr e ↦
      rw (e, find-insert fd fd' mode s)
        (inside (mode == 2) (int_eq fd fd') (find fd s) (find fd' s) e)
]
  where
    kept :
        (r : Bool) (o : Option ℕ)
        → r ≡ true
        → o ≡ elim o [ none ↦ if r then none else some mode | some old ↦ some old ]
    kept false o r = absurd (cc)
    kept true none r = refl
    kept true (some old) r = refl

    inside :
        (r b : Bool) (o o' : Option ℕ)
        → r ≡ false
        → (if b then some (elim o [ none ↦ mode | some old ↦ old ]) else o') ≡ (
            if b then elim o [ none ↦ if r then none else some mode | some old ↦ some old ] else o')
    inside true b o o' r = absurd (cc)
    inside false false o o' r = refl
    inside false true none o' r = refl
    inside false true (some old) o' r = refl

kernel-IsEpoll : IsEpoll kernel
kernel-IsEpoll = record { added = kernel-added; deleted = λ s fd fd'. find-erase fd fd' s }

register-create_example :
    (handler_of (register registrations new_loop) (pos 7) ≡ some 13)
    × Watches {H = ℕ}
        ((2, 13) ∷ (1, 14) ∷ [])
        (watched_by kernel-IsEpoll [] (register registrations new_loop) (pos 7))
unfolding create find
register-create_example =
    register-create kernel-IsEpoll [] (pos 3) new_loop registrations (pos 7) (λ fd. refl) refl
