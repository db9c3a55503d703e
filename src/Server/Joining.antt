-- ===== src/Server/Joining.antt =====
-- A loop that the resolver and the relay join.
use shadowc.Base.{
  ◌≡◌, refl, ℕ, Option, true, false, some, none, List, [], Bytes, beq_refl, ◌+◌, arith,
}
use shadowc.Base.Int.{ℤ, int_eq, int_key}
use shadowc.Memory.{ok}
use shadowc.Eventloop.{
  EventLoop, EpollEvent, add, epollin, epollerr, epollet, Wait, dispatch, dispatch_all,
}
use shadowc.Eventloop
use shadowc.Eventloop.Registry.{handler_of, handler_of-add}
use shadowc.Eventloop.Schedule.{delivered, breaks, ends, run-delivered}
use shadowc.Asyncdns.Response.{Malloc}
use shadowc.Asyncdns.Resolver.{Resolver}
use shadowc.Asyncdns.Resolver
use shadowc.Asyncdns.Resolver.History
use shadowc.Asyncdns.Resolver.Dispatch.{arrivals}
use shadowc.Tcprelay.{Relay, Answers, Attempt, Setup, started}
use shadowc.Tcprelay
use shadowc.Tcprelay.Accepting
use shadowc.Tcprelay.Listening.{create-started}
use shadowc.Server.{Handler, resolver, relay, Server, loop_of, on_event}
use shadowc.Server.Routing.{
  visits, Routes, apart-other, resolving-dispatch_all, relaying-dispatch_all,
}

-- Two registrations in a loop without handlers.
add-Routes :
    (socket listening : ℤ) (mode mode' : ℕ) (loop : EventLoop Handler)
    → ((fd : ℤ) → handler_of loop fd ≡ none)
    → int_eq socket listening ≡ false
    → Routes socket listening (add (add loop socket mode resolver) listening mode' relay)
add-Routes socket listening mode mode' loop free apart =
    let first : EventLoop Handler = add loop socket mode resolver in
    let back : int_eq listening socket ≡ false =
      apart-other socket listening socket apart (beq_refl socket) in
    record {
      to_resolver =
          rw
            (
              handler_of-add first listening socket mode' relay,
              back,
              handler_of-add loop socket socket mode resolver,
              beq_refl socket,
              free socket,
            )
            refl;
      to_relay =
          rw
            (
              handler_of-add first listening listening mode' relay,
              beq_refl listening,
              handler_of-add loop socket listening mode resolver,
              apart,
              free listening,
            )
            refl;
      apart = apart;
      no_other = λ fd not_dns not_knock.
          rw
            (
              handler_of-add first listening fd mode' relay,
              not_knock,
              handler_of-add loop socket fd mode resolver,
              not_dns,
            )
            (free fd);
    }

-- In a loop without handlers that a new resolver joins with its socket, and then a relay that has
-- started on another one: if the resolver, from any state on, does not fault on the events of its
-- socket, `run` on the results of its waits dispatches the events up to the first failure other
-- than EINTR so that the resolver has met just the events of its socket, and the relay just those
-- of the server socket, in order; neither gets the other's, and nobody gets the rest.
pub run-Routes {ℓ} :
    {C : Type 0} {H : Type ℓ} (fuel : ℕ) (malloc : Malloc) (inet_ntoa : Bytes → Bytes) (socket : ℤ)
    (loop : EventLoop Handler) (dns_resolver : ℕ) (attempts : List Attempt)
    (fcntl : ℤ → Option ℕ × Option ℕ) (listen : ℤ → ℤ) (l : Relay H) (done : List Setup)
    (waits : List Wait) (buffers : List Bytes) (answers : List Answers) (r r' : Resolver C)
    (effects : List (Resolver.Effect C))
    → ((fd : ℤ) → handler_of loop fd ≡ none)
    → Tcprelay.create dns_resolver (some attempts) fcntl listen ≡ started l done
    → int_eq socket l.server_socket ≡ false
    → History.run fuel malloc inet_ntoa (arrivals socket (delivered waits) buffers) r
      ≡ ok (r', effects)
    → let (_, loop', _) = Resolver.add_to_loop {C = C} socket resolver Resolver.create loop in
      let (l', loop'') = Tcprelay.add_to_loop relay l loop' in
      let on = on_event fuel malloc inet_ntoa in
      (s : Server C H) × (Eventloop.run loop_of on waits (record {
        loop = loop'';
        resolving = ok (r, []);
        buffers = buffers;
        relaying = (l', []);
        answers = answers;
      })
        ≡ ends loop_of on (breaks waits) s)
      × (s.resolving ≡ ok (r', effects))
      × (s.relaying ≡ Accepting.run (visits l.server_socket (delivered waits) answers) l')
unfolding Resolver.add_to_loop Tcprelay.add_to_loop
run-Routes {C} {H} fuel malloc inet_ntoa socket loop dns_resolver attempts fcntl listen l done waits
      buffers answers r r' effects free start apart goes =
    let (idle, open_relay, _, _, _) =
      create-started dns_resolver attempts fcntl listen l done start in
    let loop' : EventLoop Handler =
      (Resolver.add_to_loop {C = C} socket resolver Resolver.create loop).1 in
    let (l', loop'') = Tcprelay.add_to_loop relay l loop' in
    let joined : Tcprelay.add_to_loop relay l loop'
        ≡ (record l { has_loop = true }, add loop' l.server_socket (epollin + epollerr) relay) =
      ground (arith, idle, open_relay) in
    let s : Server C H = record {
      loop = loop'';
      resolving = ok (r, []);
      buffers = buffers;
      relaying = (l', []);
      answers = answers;
    } in
    let routes : Routes socket l.server_socket loop'' = rw joined (
      add-Routes socket l.server_socket (epollin + epollet) (epollin + epollerr) loop free apart) in
    (
      dispatch_all loop_of (on_event fuel malloc inet_ntoa) (delivered waits) s,
      run-delivered loop_of (on_event fuel malloc inet_ntoa) waits s,
      resolving-dispatch_all fuel malloc inet_ntoa socket l.server_socket (delivered waits) s routes
          refl goes,
      relaying-dispatch_all fuel malloc inet_ntoa socket l.server_socket (delivered waits) s routes,
    )
