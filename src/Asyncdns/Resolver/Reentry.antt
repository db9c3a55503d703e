-- ===== src/Asyncdns/Resolver/Reentry.antt =====
-- `DNSResolver::call_callback` where a callback asks the resolver again while it is being called.
pub mod Asking
pub mod Silent
mod Tests
use shadowc.Base.{
  ℕ, zero, suc, ◌+◌, Bool, true, false, not, Option, none, some, List, [], ◌∷◌, ◌++◌, Bytes, find,
  assign, erase, bytes_beq, bytes_key, get_elem?,
}
use shadowc.Memory.{Outcome, ok, fault, no_fuel, invalid_iterator, ◌>>=◌}
use shadowc.Asyncdns.Resolver.{Resolver, Effect, calls, resolve}
use shadowc.Asyncdns.Resolver.Pending.{pending}

-- A call of `resolve` by a callback, with what the stack holds then.
pub record Request (C : Type 0) : Type 0 where
  pub pid : ℕ
  pub buf : Bytes
  pub hostname : Bytes
  pub cb : C

-- Section parameters: what a callback asks for when it is called with a host name and an address,
-- and whether a vector of callbacks has room for one more where it stands.
module _ {C : Type 0} (asks : C → Bytes → Bytes → List (Request C)) (has_room : List C → Bool) where
  -- `push_back` to the vector of `hostname`, while the loop goes through that of `host`: where the
  -- vector moves, the iterator of the loop is not valid any more.
  keep_iterator : Bytes → Bytes → Resolver C → Outcome (Unit {0})
  keep_iterator host hostname r = elim (bytes_beq hostname host) [
    | false ↦ ok tt
    | true ↦ elim (has_room (pending host r)) [ true ↦ ok tt | false ↦ fault invalid_iterator ]
  ]

  -- The requests of a callback, in order.
  pub perform : Bytes → List (Request C) → Resolver C → Outcome (Resolver C × List (Effect C))
  unfolding keep_iterator
  perform host [] r = ok (r, [])
  perform host (q ∷ qs) r = do
    (r', sent) ← resolve q.pid q.buf r q.hostname q.cb
    kept ← keep_iterator host q.hostname r
    (r'', more) ← perform host qs r'
    ok (r'', sent ++ more)

  -- The loop from position `i` on, over the vector as it stands when its turn comes.
  pub go_through : ℕ → Bytes → Bytes → ℕ → Resolver C → Outcome (Resolver C × List (Effect C))
  unfolding perform
  go_through zero host ip i r = no_fuel
  go_through (suc fuel) host ip i r = elim (get_elem? (pending host r) i) [
    | none ↦ ok (r, [])
    | some cb ↦ do
      (r', during) ← perform host (asks cb host ip) r
      (r'', more) ← go_through fuel host ip (i + 1) r'
      ok (r'', calls cb host ip ∷ (during ++ more))
  ]

  unfoldable pub call_callback_with :
      ℕ → Resolver C → Bytes → Bytes → Outcome (Resolver C × List (Effect C))
  unfolding go_through
  call_callback_with fuel r hostname ip = elim (find hostname r.hostname_to_cb) [
    | none ↦ ok (r, [])
    | some _ ↦ do
      (r', effects) ← go_through fuel hostname ip 0 r
      ok (
        record r' {
          hostname_to_cb = assign hostname [] r'.hostname_to_cb;
          hostname_status_map = erase hostname r'.hostname_status_map;
        },
        effects,
      )
  ]
