-- ===== src/Server/Tests.antt =====
-- A loop with a stray event, one for each handler, and a failure of the next wait.
use shadowc.Base.{ℕ, some, ◌≡◌, refl, true, false, List, [], ◌∷◌, Bytes, find}
use shadowc.Base.Text.{codes}
use shadowc.Base.Int.{pos}
use shadowc.Memory.{ok}
use shadowc.Eventloop.{EpollEvent, EventLoop, Wait, ready, wait_error}
use shadowc.Eventloop
use shadowc.Eventloop.Schedule.{breaks, delivered, ends}
use shadowc.Asyncdns.Response.Tests.{roomy_malloc}
use shadowc.Asyncdns.Resolver.{Resolver, handle_event, closes}
use shadowc.Asyncdns.Resolver
use shadowc.Asyncdns.Resolver.History
use shadowc.Tcprelay.{Relay, Answers, Attempt, bind_loop}
use shadowc.Tcprelay
use shadowc.Tcprelay.Accepting
use shadowc.Server.{Server, Handler, resolver, relay, loop_of, on_event}
use shadowc.Server.Routing.{visits}
use shadowc.Server.Joining.{run-Routes}

abbrev empty_loop : EventLoop Handler
empty_loop = record { efd = pos 3; fd_handler_map = []; calls = [] }

abbrev listens : Attempt
listens = record { socket = pos 6; setsockopt = pos 0; bind = pos 0 }

abbrev listening : Relay ℕ
listening = record {
  server_socket = pos 6;
  has_loop = false;
  closed = false;
  fd_to_handlers = [];
  dns_resolver = 0;
}

abbrev asking : Resolver ℕ
asking = record {
  servers = codes "8.8.4.4" ∷ [];
  has_loop = true;
  dns_socket = pos 5;
  hostname_to_cb = (codes "a", 1 ∷ []) ∷ [];
  hostname_status_map = (codes "a", 0) ∷ [];
}

abbrev nine : Answers
nine = record { conn = pos 9; errno = 0; name_result = pos 0 }

-- The event of the resolver's socket is an error.
abbrev waits : List Wait
waits =
    ready (
      record { events = 1; fd = pos 8 }
      ∷ record { events = 1; fd = pos 6 }
      ∷ record { events = 8; fd = pos 5 }
      ∷ [])
    ∷ wait_error 9
    ∷ []

abbrev same_bytes : Bytes → Bytes
same_bytes address = address

run-Routes_example :
    let (_, loop', _) = Resolver.add_to_loop {C = ℕ} (pos 5) resolver Resolver.create empty_loop in
    let (l', loop'') = Tcprelay.add_to_loop relay listening loop' in
    let on = on_event 20 roomy_malloc same_bytes in
    (s : Server ℕ ℕ) × (Eventloop.run loop_of on waits (record {
      loop = loop'';
      resolving = ok (asking, []);
      buffers = [];
      relaying = (l', []);
      answers = nine ∷ [];
    })
      ≡ ends loop_of on (breaks waits) s)
    × (s.resolving ≡ ok (asking, closes (pos 5) ∷ []))
    × (s.relaying ≡ Accepting.run (visits (pos 6) (delivered waits) (nine ∷ [])) l')
unfolding find Tcprelay.create bind_loop History.run handle_event
run-Routes_example =
    run-Routes 20 roomy_malloc same_bytes (pos 5) empty_loop 0 (listens ∷ [])
      (λ s. (some 2, some 0)) (λ s. pos 0) listening _ waits [] (nine ∷ []) asking asking
      (closes (pos 5) ∷ []) (λ fd. refl) refl refl refl
