-- ===== src/Asyncdns/Resolver/Views.antt =====
-- Resolvers that cannot be told apart by the callbacks that they call: in which order the entries of
-- the tables were made, and which of them are empty, plays no part.
use mathlib.Core.Path.{fun_ext}
use shadowc.Base.{ℕ, ◌≡◌, ◌∙◌, sym, ap, List, Bytes, All}
use shadowc.Base.Int.{ℤ}
use shadowc.Memory.{ok}
use shadowc.Asyncdns.Response.{Malloc}
use shadowc.Asyncdns.Response.Parsing.{IsRoomy}
use shadowc.Asyncdns.Resolver.{Resolver, Effect}
use shadowc.Asyncdns.Resolver.Pending.{pending}
use shadowc.Asyncdns.Resolver.History.{Happening, run}
use shadowc.Asyncdns.Resolver.Service.{Copes}
use shadowc.Asyncdns.Resolver.Queues.{behave}
use shadowc.Asyncdns.Resolver.Meaning.{queues, calls_of}
use shadowc.Asyncdns.Resolver.Refinement.{all_meant, run-behave}

-- The same callbacks wait for each host name, in the same order.
abbrev pub SameQueues : {C : Type 0} → Resolver C → Resolver C → Type 0
SameQueues r s = (host : Bytes) → pending host r ≡ pending host s

module _ {C : Type 0} {malloc : Malloc} (roomy : IsRoomy malloc) (fuel : ℕ)
    (inet_ntoa : Bytes → Bytes) where
  -- With an allocator that leaves room behind each block, two resolvers with the same socket and
  -- the same callbacks waiting for each host name, in whatever order and with whatever empty
  -- entries their tables hold them, make the same calls over any history that they cope with, and
  -- have the same callbacks waiting at the end.
  pub run-SameQueues :
      (hs : List (Happening C)) (r s : Resolver C) {socket : ℤ}
      → r.dns_socket ≡ socket
      → s.dns_socket ≡ socket
      → SameQueues r s
      → All (Copes {C = C} fuel socket) hs
      → (r' : Resolver C) × (s' : Resolver C) × (es : List (Effect C)) × (fs : List (Effect C))
        × (run fuel malloc inet_ntoa hs r ≡ ok (r', es))
        × (run fuel malloc inet_ntoa hs s ≡ ok (s', fs))
        × (calls_of es ≡ calls_of fs)
        × SameQueues r' s'
  run-SameQueues hs r s {socket} e f same c =
      let (r', es, run_r, does_r) = run-behave roomy fuel inet_ntoa hs r e c in
      let (s', fs, run_s, does_s) = run-behave roomy fuel inet_ntoa hs s f c in
      let agree : (queues r', calls_of es) ≡ (queues s', calls_of fs) =
        does_r ∙ ap (behave (all_meant fuel socket inet_ntoa hs c)) (fun_ext same) ∙ sym does_s in
      (r', s', es, fs, run_r, run_s, ap (λ p. p.1) agree, λ host. ap (λ p. p.0 host) agree)
