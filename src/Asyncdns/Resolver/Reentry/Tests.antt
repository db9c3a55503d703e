-- ===== src/Asyncdns/Resolver/Reentry/Tests.antt =====
-- Three callbacks that wait for a name, of which the first asks for another one or for its own.
use shadowc.Base.{
  ℕ, ◌≡◌, refl, Bool, true, false, List, [], ◌∷◌, ◌++◌, Bytes, replicate, bytes_beq, arith, ◌==◌,
  if◌then◌else◌, find,
}
use shadowc.Base.Text.{codes}
use shadowc.Base.Int.{pos}
use shadowc.Memory.{ok, fault, invalid_iterator}
use shadowc.Asyncdns.Names.Labels.{wire, split_from}
use shadowc.Asyncdns.Resolver.{Resolver, Effect}
use shadowc.Asyncdns.Resolver.Pending.{pending, called}
use shadowc.Asyncdns.Resolver.Service.{IsHost}
use shadowc.Asyncdns.Resolver.Reentry.{Request, call_callback_with}
use shadowc.Asyncdns.Resolver.Reentry.Asking.{
  asking, asked_by, IsOther, call_callback_with-IsOther, call_callback_with_moved,
}

abbrev waiting : Resolver ℕ
waiting = record {
  servers = codes "8.8.4.4" ∷ codes "8.8.8.8" ∷ [];
  has_loop = true;
  dns_socket = pos 5;
  hostname_to_cb = (codes "a", 1 ∷ 2 ∷ 3 ∷ []) ∷ [];
  hostname_status_map = (codes "a", 0) ∷ [];
}

abbrev ip : Bytes
ip = codes "10.0.0.7"

-- Callback 1 asks for a name, with itself.
abbrev retry : Bytes → ℕ → Bytes → Bytes → List (Request ℕ)
retry name cb host address =
    if cb == 1 then record { pid = 7; buf = replicate 128 0; hostname = name; cb = 1 } ∷ [] else []

abbrev nothing : ℕ → Bytes → Bytes → List (Request ℕ)
nothing cb host address = []

-- A vector that is always full.
abbrev never : List ℕ → Bool
never callbacks = false

a-IsHost : IsHost (codes "a")
unfolding wire split_from
a-IsHost = record { short = omega arith; plain = ((λ e. cc), ((λ e. cc), tt)) }

b-IsHost : IsHost (codes "b")
unfolding wire split_from
b-IsHost = record { short = omega arith; plain = ((λ e. cc), ((λ e. cc), tt)) }

b-IsOther :
    IsOther {C = ℕ}
      (codes "a")
      (record { pid = 7; buf = replicate 128 0; hostname = codes "b"; cb = 1 })
b-IsOther = record { buffer = refl; fits = b-IsHost; other = refl }

call_callback_with-IsOther_example :
    (r' : Resolver ℕ) × (effects : List (Effect ℕ)) × (call_callback_with
        (retry (codes "b"))
        never
        4
        waiting
        (codes "a")
        ip
      ≡ ok (r', effects))
    × (called (codes "a") effects ≡ 1 ∷ 2 ∷ 3 ∷ [])
    × (pending (codes "a") r' ≡ [])
    × ((h : Bytes)
        → bytes_beq (codes "a") h ≡ false
        → (called h effects ≡ [])
          × (pending h r'
              ≡ pending h waiting
                ++ asking h (asked_by (retry (codes "b")) (codes "a") ip (1 ∷ 2 ∷ 3 ∷ []))))
unfolding find
call_callback_with-IsOther_example =
    call_callback_with-IsOther (retry (codes "b")) never 4 waiting (codes "a") ip (omega arith)
      ((b-IsOther, tt), (tt, (tt, tt)))

call_callback_with_moved_example :
    call_callback_with (retry (codes "a")) never 4 waiting (codes "a") ip ≡ fault invalid_iterator
unfolding find
call_callback_with_moved_example =
    call_callback_with_moved (retry (codes "a")) never 3 waiting (codes "a") ip 1 (2 ∷ 3 ∷ [])
      (record { pid = 7; buf = replicate 128 0; hostname = codes "a"; cb = 1 }) [] refl refl refl
      refl a-IsHost refl
