-- ===== src/Asyncdns/Resolver/Tests.antt =====
-- A resolver on socket 5 with two callbacks, numbered 1 and 2.
use shadowc.Base.{
  ℕ, ◌≡◌, refl, true, none, List, [], ◌∷◌, ◌++◌, Bytes, replicate, find, bytes_key, assign, arith,
  IsDistinct, erase,
}
use shadowc.Base.Int.{pos}
use shadowc.Base.Text.{codes}
use shadowc.Memory.{Outcome, ok, store, store_all, strlen, c_string, load}
use shadowc.Eventloop.{EpollEvent, EventLoop, Wait, ready, wait_error}
use shadowc.Eventloop
use shadowc.Eventloop.Schedule.{breaks, ends}
use shadowc.Eventloop.Registry.{handler_of}
use shadowc.Asyncdns.Names.{change_to_dns_name_format, read_name}
use shadowc.Asyncdns.Names.Labels.{joined, wire, split_from}
use shadowc.Asyncdns.Header.{encode, decode, ntohs_at}
use shadowc.Asyncdns.Query.{build_query}
use shadowc.Asyncdns.Response.{
  parse_response, parse_answers, parse_rdata, first_address, load_address,
}
use shadowc.Asyncdns.Response.Tests.{
  roomy_malloc, roomy_malloc-IsRoomy, message, message-IsResponse, names, ip_bytes, answers,
}
use shadowc.Asyncdns.Resolver.{
  Resolver, Effect, closes, create, resolve, call_callback, handle_event, add_to_loop, handle_data,
  handle_found, destroy,
}
use shadowc.Asyncdns.Resolver.Pending.{pending, called}
use shadowc.Asyncdns.Resolver.History.{Happening, requested, received, registered, run, run-pending}
use shadowc.Asyncdns.Resolver.Answering.{handle_event_alias}
use shadowc.Asyncdns.Resolver.Service.{IsHost}
use shadowc.Asyncdns.Resolver.Dispatch.{World, loop_of, on_event}
use shadowc.Asyncdns.Resolver.Serving.{IsAnswer, run_waits-IsAnswer}
use mathlib.Core.List.{Perm}
use shadowc.Asyncdns.Resolver.{in_key_order, put_key, comes_before}
use shadowc.Asyncdns.Resolver.Release.{run-destroy}
use shadowc.Asyncdns.Resolver.Lifecycle.{joins, leaves, live, live-create}
use shadowc.Asyncdns.Resolver.{unblocks}

abbrev pub waiting : Resolver ℕ
waiting = record {
  servers = codes "8.8.4.4" ∷ codes "8.8.8.8" ∷ [];
  has_loop = true;
  dns_socket = pos 5;
  hostname_to_cb = (codes "a", 1 ∷ 2 ∷ []) ∷ [];
  hostname_status_map = (codes "a", 0) ∷ [];
}

abbrev pub incoming : EpollEvent
incoming = record { events = 1; fd = pos 5 }

abbrev pub same_bytes : Bytes → Bytes
same_bytes address = address

abbrev pub clean_stack : Bytes
clean_stack = replicate 128 0

handle_event_alias_example :
    (r' : Resolver ℕ) × (effects : List (Effect ℕ)) × (handle_event 20 roomy_malloc same_bytes
        waiting incoming message
      ≡ ok (r', effects))
    × (called (codes "www") effects ≡ [])
    × (pending (codes "www") r' ≡ pending (codes "www") waiting)
unfolding joined
handle_event_alias_example =
    handle_event_alias roomy_malloc-IsRoomy 20 same_bytes waiting incoming message (codes "www")
      ip_bytes names message-IsResponse (refl, tt) refl refl refl (λ e. cc)

-- Two requests for a name, and an event for another descriptor.
abbrev history : List (Happening ℕ)
history =
    requested 7 clean_stack (codes "a") 3
    ∷ received (record { events = 1; fd = pos 9 }) []
    ∷ requested 7 clean_stack (codes "b") 4
    ∷ []

abbrev after_history : Resolver ℕ
after_history = record {
  servers = codes "8.8.4.4" ∷ codes "8.8.8.8" ∷ [];
  has_loop = true;
  dns_socket = pos 5;
  hostname_to_cb = (codes "a", 1 ∷ 2 ∷ 3 ∷ []) ∷ (codes "b", 4 ∷ []) ∷ [];
  hostname_status_map = (codes "a", 0) ∷ (codes "b", 0) ∷ [];
}

abbrev effects_of : Outcome (Resolver ℕ × List (Effect ℕ)) → List (Effect ℕ)
effects_of (ok (_, effects)) = effects
effects_of _ = []

abbrev history_effects : List (Effect ℕ)
history_effects = effects_of (run 20 roomy_malloc same_bytes history waiting)

run-pending_example :
    called (codes "a") history_effects ++ pending (codes "a") after_history
    ≡ pending (codes "a") waiting ++ (3 ∷ [])
unfolding run resolve handle_event build_query change_to_dns_name_format store store_all strlen
    c_string encode find assign
run-pending_example =
    run-pending 20 roomy_malloc same_bytes (codes "a") history waiting {r' = after_history}
      {effects = history_effects} refl

abbrev empty_loop : EventLoop ℕ
empty_loop = record { efd = pos 3; fd_handler_map = []; calls = [] }

live-create_example :
    let (r, loop', effects) =
      live 11 (joins (pos 5) ∷ leaves ∷ joins (pos 8) ∷ leaves ∷ []) (create {C = ℕ}) empty_loop in
    (r.dns_socket ≡ pos 5)
    × (effects ≡ unblocks (pos 5) ∷ closes (pos 5) ∷ closes (pos 5) ∷ [])
    × (handler_of loop' (pos 5) ≡ none)
unfolding find
live-create_example =
    live-create 11 (pos 5) (leaves ∷ joins (pos 8) ∷ leaves ∷ []) empty_loop (λ e. cc) refl

-- Two requests for a name and one for another, and a loop with a stray event before the response.
pub a-IsHost : IsHost (codes "a")
unfolding wire split_from
a-IsHost = record { short = omega arith; plain = ((λ e. cc), ((λ e. cc), tt)) }

pub b-IsHost : IsHost (codes "b")
unfolding wire split_from
b-IsHost = record { short = omega arith; plain = ((λ e. cc), ((λ e. cc), tt)) }

abbrev requests : List (Happening ℕ)
requests =
    requested 7 clean_stack (codes "a") 1
    ∷ requested 7 clean_stack (codes "b") 4
    ∷ requested 7 clean_stack (codes "a") 2
    ∷ []

abbrev waits : List Wait
waits = ready (record { events = 1; fd = pos 9 } ∷ incoming ∷ []) ∷ wait_error 4 ∷ []

message-IsAnswer : IsAnswer 20 (pos 5) (codes "a") incoming message
unfolding joined
message-IsAnswer = record {
  ours = refl;
  fine = refl;
  answers = answers;
  readable = record { response = message-IsResponse; four = (refl, tt) };
  names = names;
  rdata = ip_bytes;
  first = refl;
  owner = refl;
}

run_waits-IsAnswer_example :
    let (r, loop', _) = add_to_loop {C = ℕ} (pos 5) 11 create empty_loop in
    (r₁ : Resolver ℕ) × (sent : List (Effect ℕ)) × (world : World ℕ ℕ) × (r' : Resolver ℕ)
    × (effects : List (Effect ℕ)) × (run 20 roomy_malloc same_bytes requests r ≡ ok (r₁, sent))
    × (Eventloop.run loop_of
          (on_event 20 roomy_malloc same_bytes)
          waits
          (record { loop = loop'; resolver = ok (r₁, sent); buffers = message ∷ [] })
        ≡ ends loop_of (on_event 20 roomy_malloc same_bytes) (breaks waits) world)
    × (world.resolver ≡ ok (r', effects))
    × (called (codes "a") effects ≡ 1 ∷ 2 ∷ [])
unfolding find
run_waits-IsAnswer_example =
    run_waits-IsAnswer roomy_malloc-IsRoomy 20 same_bytes 11 (pos 5) empty_loop requests waits
      (message ∷ []) (codes "a") [] [] incoming message (λ fd. refl)
      ((refl, a-IsHost), ((refl, b-IsHost), ((refl, a-IsHost), tt))) refl tt message-IsAnswer tt

-- A resolver without requests, and what becomes of it.
abbrev pub idle : Resolver ℕ
idle = record waiting { hostname_to_cb = []; hostname_status_map = [] }

abbrev pub lifetime : List (Happening ℕ)
lifetime =
    requested 7 clean_stack (codes "a") 1
    ∷ requested 7 clean_stack (codes "b") 4
    ∷ received incoming message
    ∷ requested 7 clean_stack (codes "a") 2
    ∷ []

abbrev after_lifetime : Resolver ℕ
after_lifetime = record waiting {
  hostname_to_cb = (codes "a", 2 ∷ []) ∷ (codes "b", 4 ∷ []) ∷ [];
  hostname_status_map = (codes "b", 0) ∷ [];
}

abbrev lifetime_effects : List (Effect ℕ)
lifetime_effects = effects_of (run 20 roomy_malloc same_bytes lifetime idle)

run-destroy_example :
    (destroy after_lifetime ≡ record {
      servers = codes "8.8.4.4" ∷ codes "8.8.8.8" ∷ [];
      vectors = (2 ∷ []) ∷ (4 ∷ []) ∷ [];
    })
    × Perm (codes "a" ∷ codes "b" ∷ []) (codes "a" ∷ codes "b" ∷ [])
    × IsDistinct (codes "a" ∷ codes "b" ∷ [])
    × ((host : Bytes)
        → called host lifetime_effects ++ pending host after_lifetime ≡ registered host lifetime)
unfolding run resolve handle_event build_query change_to_dns_name_format store store_all strlen
    c_string encode find assign erase handle_data parse_response parse_answers parse_rdata read_name
    ntohs_at load call_callback handle_found first_address load_address decode joined in_key_order
    put_key comes_before
run-destroy_example =
    run-destroy 20 roomy_malloc same_bytes lifetime idle {r' = after_lifetime}
      {effects = lifetime_effects} refl refl
