-- ===== src/Tcprelay/Tests.antt =====
-- A relay over an address with no socket, one that cannot be bound, and one that can.
use shadowc.Base.{ℕ, Option, some, ◌≡◌, refl, false, [], ◌∷◌, inl, inr, length}
use shadowc.Base.Int.{ℤ, pos, failed}
use shadowc.Eventloop.{EpollEvent, EventLoop}
use shadowc.Utils.{make_socket_non_blocking}
use shadowc.Tcprelay.{
  Relay, Attempt, Answers, try_socket, negative, Setup, finish, flagged, started, frees_addresses,
  sets_flags, opens, sets_reuse, logs_reuse_failed, binds, bind_loop, create,
}
use shadowc.Tcprelay.Listening.{create_first}
use shadowc.Tcprelay.Accepting.{run, accepted, errors_logged, handed, run-create}

abbrev no_socket : Attempt
no_socket = record { socket = failed; setsockopt = pos 0; bind = failed }

abbrev unbound : Attempt
unbound = record { socket = pos 4; setsockopt = pos 0; bind = failed }

abbrev bound : Attempt
bound = record { socket = pos 5; setsockopt = failed; bind = pos 0 }

abbrev listens : ℤ → ℤ
listens socket = pos 0

abbrev answers_flags : ℤ → Option ℕ × Option ℕ
answers_flags socket = (some 2, some 0)

abbrev relay : Relay ℕ
relay = record {
  server_socket = pos 5;
  has_loop = false;
  closed = false;
  fd_to_handlers = [];
  dns_resolver = 0;
}

abbrev loop : EventLoop ℕ
loop = record { efd = pos 3; fd_handler_map = []; calls = [] }

abbrev knock : EpollEvent
knock = record { events = 1; fd = pos 5 }

abbrev accepts_nine : Answers
accepts_nine = record { conn = pos 9; errno = 0; name_result = pos 0 }

abbrev accepts_none : Answers
accepts_none = record { conn = failed; errno = 11; name_result = pos 0 }

create_first_example :
    create 0 (some (no_socket ∷ unbound ∷ bound ∷ no_socket ∷ [])) answers_flags listens
    ≡ started relay (
        opens (pos 4)
        ∷ sets_reuse (pos 4)
        ∷ binds (pos 4)
        ∷ opens (pos 5)
        ∷ sets_reuse (pos 5)
        ∷ logs_reuse_failed (pos 5)
        ∷ binds (pos 5)
        ∷ frees_addresses
        ∷ sets_flags (pos 5) 2050
        ∷ Setup.listens (pos 5)
        ∷ [])
unfolding try_socket negative finish flagged make_socket_non_blocking
create_first_example =
    create_first 0 (no_socket ∷ unbound ∷ []) (no_socket ∷ []) bound answers_flags listens
      (inl refl, (inr (refl, refl), tt)) refl refl

run-create_example :
    let (r', effects) = run ((knock, accepts_nine) ∷ (knock, accepts_none) ∷ []) relay in
    (r' ≡ relay) × (handed effects ≡ []) × (errors_logged effects ≡ length (accepted effects))
unfolding create bind_loop
run-create_example =
    run-create 0 (unbound ∷ bound ∷ []) answers_flags listens relay _
      ((knock, accepts_nine) ∷ (knock, accepts_none) ∷ []) refl
