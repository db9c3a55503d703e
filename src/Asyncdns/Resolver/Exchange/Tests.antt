-- ===== src/Asyncdns/Resolver/Exchange/Tests.antt =====
-- A server with one address for everybody: its reply is the query with the bits of a reply set, one
-- record counted, and that record behind it.
use shadowc.Base.{
  ℕ, ◌≡◌, refl, List, [], ◌∷◌, ◌++◌, map, Bytes, arith, append_assoc, replicate, find,
}
use shadowc.Base.Text.{codes}
use shadowc.Memory.{ok}
use shadowc.Asyncdns.Header.{encode}
use shadowc.Asyncdns.Names.Labels.{split, split_from, wire}
use shadowc.Asyncdns.Response.Tests.{roomy_malloc, roomy_malloc-IsRoomy, ip_bytes}
use shadowc.Asyncdns.Response.Reply.{asked, Record, a_record, encode_records, IsName}
use shadowc.Asyncdns.Resolver.{Resolver, sends, calls, resolve, handle_event}
use shadowc.Asyncdns.Resolver.Pending.{pending}
use shadowc.Asyncdns.Resolver.Exchange.{Serves, resolve-Serves}
use shadowc.Asyncdns.Resolver.Tests.{waiting, incoming, same_bytes, clean_stack}

abbrev zone : Bytes → List Record
zone host = a_record asked (0 ∷ 0 ∷ 0 ∷ 9 ∷ []) ip_bytes ∷ []

abbrev server : Bytes → Bytes
server (a ∷ b ∷ c ∷ d ∷ e ∷ f ∷ g ∷ h ∷ more) =
    a ∷ b ∷ 129 ∷ 128 ∷ e ∷ f ∷ 0 ∷ 1 ∷ (more ++ encode_records (zone []))
server _ = []

server-Serves : Serves zone server
unfolding encode
server-Serves pid host n = rw (append_assoc (wire (split host)) _ (encode_records (zone []))) refl

a-IsName : IsName (codes "a")
unfolding split_from
a-IsName = record {
  labels = (record { nonempty = omega arith; short = omega arith; plain = omega arith }, tt);
  fits = omega arith;
}

resolve-Serves_example :
    (packet : Bytes) × (r₁ : Resolver ℕ) × (r₂ : Resolver ℕ) × (resolve 7 clean_stack waiting
        (codes "a")
        3
      ≡ ok (r₁, map (λ s. sends waiting.dns_socket s packet) waiting.servers))
    × (handle_event 257 roomy_malloc same_bytes r₁ incoming (server packet ++ 0 ∷ [])
        ≡ ok (r₂, map (λ cb. calls cb (codes "a") ip_bytes) (1 ∷ 2 ∷ 3 ∷ [])))
    × (pending (codes "a") r₂ ≡ [])
unfolding find
resolve-Serves_example =
    resolve-Serves roomy_malloc-IsRoomy 257 same_bytes zone server 7 waiting (codes "a") 3
      (replicate 12 0) (0 ∷ 0 ∷ []) (0 ∷ 0 ∷ 0 ∷ []) (replicate 109 0) (0 ∷ []) ip_bytes 0 incoming
      server-Serves a-IsName ((tt, refl, refl), tt) (omega arith) refl refl refl refl (omega arith)
      refl refl
