-- ===== src/Server.antt =====
-- The resolver and the relay as the two handlers of one event loop, which calls their
-- `handle_event` through `EventHandler`.
pub mod Routing
pub mod Joining
mod Tests
use shadowc.Base.{ℕ, List, [], ◌∷◌, ◌++◌, Bytes, drop}
use shadowc.Base.Int.{failed, pos}
use shadowc.Memory.{Outcome, ok, ◌>>=◌}
use shadowc.Eventloop.{EventLoop, EpollEvent}
use shadowc.Asyncdns.Response.{Malloc}
use shadowc.Asyncdns.Resolver.{Resolver}
use shadowc.Asyncdns.Resolver
use shadowc.Asyncdns.Resolver.Dispatch.{next}
use shadowc.Tcprelay.{Relay, Answers, eagain}
use shadowc.Tcprelay

-- Pointers to `EventHandler`s.
pub data Handler : Type 0 where
  resolver relay : Handler

-- Both objects with what they did, and what the system will answer: what the next reads of the
-- resolver's socket leave in its buffer, and what each event of the relay meets.
pub record Server {ℓ} (C : Type 0) (H : Type ℓ) : Type ℓ where
  pub loop : EventLoop Handler
  pub resolving : Outcome (Resolver C × List (Resolver.Effect C))
  pub buffers : List Bytes
  pub relaying : Relay H × List (Tcprelay.Effect H)
  pub answers : List Answers

-- Where the list ends, nobody is there to accept.
abbrev pub next_answer : List Answers → Answers
next_answer [] = record { conn = failed; errno = eagain; name_result = failed }
next_answer (a ∷ answers) = a

abbrev pub loop_of {ℓ} : {C : Type 0} {H : Type ℓ} → Server C H → EventLoop Handler
loop_of s = s.loop

module _ {C : Type 0} (fuel : ℕ) (malloc : Malloc) (inet_ntoa : Bytes → Bytes) where
  -- What an event does to the resolver.
  abbrev pub resolve_event :
      EpollEvent
      → Outcome (Resolver C × List (Resolver.Effect C)) × List Bytes
      → Outcome (Resolver C × List (Resolver.Effect C)) × List Bytes
  resolve_event evt (resolving, buffers) = (
    do
      (r, before) ← resolving
      (r', more) ← Resolver.handle_event fuel malloc inet_ntoa r evt (next buffers)
      ok (r', before ++ more),
    drop 1 buffers,
  )

module _ {ℓ} {H : Type ℓ} where
  -- What an event does to the relay.
  abbrev pub relay_event :
      EpollEvent
      → (Relay H × List (Tcprelay.Effect H)) × List Answers
      → (Relay H × List (Tcprelay.Effect H)) × List Answers
  relay_event evt ((r, before), answers) =
      let (r', more) = Tcprelay.handle_event r evt (next_answer answers) in
      ((r', before ++ more), drop 1 answers)

module _ {ℓ} {C : Type 0} {H : Type ℓ} (fuel : ℕ) (malloc : Malloc)
    (inet_ntoa : Bytes → Bytes) where
  -- The virtual call of `handle_event`.
  unfoldable pub on_event : Handler → EpollEvent → Server C H → Server C H
  on_event resolver evt s =
      let (resolving, buffers) = resolve_event fuel malloc inet_ntoa evt (s.resolving, s.buffers) in
      record s { resolving = resolving; buffers = buffers }
  on_event relay evt s =
      let (relaying, answers) = relay_event evt (s.relaying, s.answers) in
      record s { relaying = relaying; answers = answers }
