-- ===== src/Asyncdns/Resolver/Refinement/Tests.antt =====
-- A resolver's lifetime against its queues, and against a resolver with other tables.
use shadowc.Base.{
  ℕ, zero, suc, ◌+◌, ◌-◌, ◌*◌, inl, bytes_beq, Bool-cases, find, ◌<◌, ◌≤◌, ◌≡◌, ◌≢◌, refl, inr,
  List, [], ◌∷◌, ◌++◌, Bytes, All, length, arith, ◌==◌, if◌then◌else◌, length-replicate,
}
use shadowc.Base.Int.{pos}
use shadowc.Base.Text.{codes}
use shadowc.Asyncdns.Header.{decode}
use shadowc.Memory.{ok, no_fuel, load, strlen, c_string}
use shadowc.Memory.Laws.{ok-injective}
use shadowc.Asyncdns.Names.Termination.{IsAcyclic}
use shadowc.Asyncdns.Response.Tests.{
  roomy_malloc, roomy_malloc-IsRoomy, message, message-IsResponse, answers, dns,
}
use shadowc.Asyncdns.Resolver.{Resolver, Effect, handle_event}
use shadowc.Asyncdns.Resolver.History.{run}
use shadowc.Asyncdns.Resolver.Service.{Copes}
use shadowc.Asyncdns.Resolver.Queues.{behave}
use shadowc.Asyncdns.Resolver.Meaning.{queues, calls_of}
use shadowc.Asyncdns.Resolver.Refinement.{all_meant, run-behave}
use shadowc.Asyncdns.Resolver.Views.{SameQueues, run-SameQueues}
use shadowc.Asyncdns.Resolver.Termination.{handle_event-ne-no_fuel, handle_event_cycle}
use shadowc.Asyncdns.Resolver.Tests.{
  waiting, idle, incoming, same_bytes, lifetime, a-IsHost, b-IsHost,
}

lifetime-Copes : All (Copes {C = ℕ} 20 (pos 5)) lifetime
lifetime-Copes = (
  (refl, a-IsHost),
  (
    (refl, b-IsHost),
    (
      inr (inr (answers, record { response = message-IsResponse; four = (refl, tt) })),
      ((refl, a-IsHost), tt),
    ),
  ),
)

run-behave_example :
    (r' : Resolver ℕ) × (effects : List (Effect ℕ)) × (run 20 roomy_malloc same_bytes lifetime
        waiting
      ≡ ok (r', effects))
    × ((queues r', calls_of effects)
        ≡ behave (all_meant 20 (pos 5) same_bytes lifetime lifetime-Copes) (queues waiting))
run-behave_example =
    run-behave roomy_malloc-IsRoomy 20 same_bytes lifetime waiting refl lifetime-Copes

-- A resolver with no entries, and one whose entry for "a" has been answered.
abbrev answered : Resolver ℕ
answered = record idle { hostname_to_cb = (codes "a", []) ∷ [] }

idle-SameQueues-answered : SameQueues idle answered
unfolding find
idle-SameQueues-answered host = elim (Bool-cases (bytes_beq (codes "a") host)) [
  | inl same ↦ rw (find, same) refl
  | inr other ↦ rw (find, other) refl
]

run-SameQueues_example :
    (r' : Resolver ℕ) × (s' : Resolver ℕ) × (es : List (Effect ℕ)) × (fs : List (Effect ℕ)) × (run
        20 roomy_malloc same_bytes lifetime idle
      ≡ ok (r', es))
    × (run 20 roomy_malloc same_bytes lifetime answered ≡ ok (s', fs))
    × (calls_of es ≡ calls_of fs)
    × SameQueues r' s'
run-SameQueues_example =
    run-SameQueues roomy_malloc-IsRoomy 20 same_bytes lifetime idle answered refl refl
      idle-SameQueues-answered lifetime-Copes

load_plain : (b : Bytes) (i c : ℕ) → All (λ x. x < 192) b → load b i ≡ ok c → c < 192
unfolding load
load_plain [] i c h e = absurd (cc)
load_plain (x ∷ b) zero c h e = omega (arith, ok-injective x c e, h.0)
load_plain (x ∷ b) (suc i) c h e = load_plain b i c h.1 e

-- The only pointer of a message.
only_pointer :
    (pre post : Bytes) (i c : ℕ)
    → All (λ x. x < 192) pre
    → All (λ x. x < 192) post
    → load (pre ++ 192 ∷ post) i ≡ ok c
    → 192 ≤ c
    → (i ≡ length pre) × (c ≡ 192)
unfolding load
only_pointer [] post zero c h k e l = (refl, omega (arith, ok-injective 192 c e))
only_pointer [] post (suc i) c h k e l = absurd (omega (arith, load_plain post i c k e))
only_pointer (x ∷ pre) post zero c h k e l = absurd (omega (arith, ok-injective x c e, h.0))
only_pointer (x ∷ pre) post (suc i) c h k e l =
    let (f, g) = only_pointer pre post i c h.1 k e l in (omega arith, g)

abbrev before : Bytes
before = 1 ∷ 2 ∷ 0x81 ∷ 0x80 ∷ 0 ∷ 1 ∷ 0 ∷ 1 ∷ 0 ∷ 0 ∷ 0 ∷ 0 ∷ 1 ∷ b'a' ∷ 0 ∷ 0 ∷ 1 ∷ 0 ∷ 1 ∷ []

abbrev behind : Bytes
behind = 12 ∷ 0 ∷ 1 ∷ 0 ∷ 1 ∷ 0 ∷ 0 ∷ 0 ∷ 9 ∷ 0 ∷ 4 ∷ 10 ∷ 0 ∷ 0 ∷ 7 ∷ 0 ∷ 0 ∷ []

abbrev rank : ℕ → ℕ
rank i = if i == 19 then 1 else 0

falls_there : (low : ℕ) → load message 20 ≡ ok low → rank (192 * 256 + low - 49152) < rank 19
unfolding load
falls_there low e = rw (← ok-injective 12 low e) (omega arith)

message-IsAcyclic : IsAcyclic message rank 1
message-IsAcyclic = record {
  bounded = λ i. ground arith;
  falls = λ i c low e h e'.
      let (at, is) = only_pointer before behind i c (omega arith) (omega arith) e h in
      let low_at : load message 20 ≡ ok low = rw at at e' in rw (at, is) (falls_there low low_at);
}

handle_event-ne-no_fuel_example :
    handle_event 1000 roomy_malloc same_bytes waiting incoming message ≢ no_fuel
handle_event-ne-no_fuel_example =
    handle_event-ne-no_fuel 1000 roomy_malloc same_bytes waiting incoming message rank 1 264
      message-IsAcyclic (λ k. omega (arith, length-replicate {A = ℕ} 264 7)) (omega arith)

-- A reply whose first record has a pointer to itself for its owner.
abbrev looping : Bytes
looping = before ++ 192 ∷ 19 ∷ []

handle_event_cycle_example :
    handle_event 1000 roomy_malloc same_bytes waiting incoming looping ≡ no_fuel
unfolding load decode strlen c_string
handle_event_cycle_example =
    handle_event_cycle 1000 roomy_malloc same_bytes waiting incoming looping (λ n. n ≡ 19) 2
      {dns = dns} refl refl refl (omega arith) refl
      (λ n e. (192, 19, rw e refl, omega arith, rw e refl, refl)) refl
      (omega (arith, length-replicate {A = ℕ} 264 7))
