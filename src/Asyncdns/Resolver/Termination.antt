-- ===== src/Asyncdns/Resolver/Termination.antt =====
-- When `handle_event` of the resolver comes to an end.
use Prim.Native.Nat.{bit_and}
use shadowc.Base.{
  ◌≡◌, true, zero, suc, ◌+◌, ◌<◌, drop, eq→==, ℕ, ◌≤◌, ◌≢◌, inl, inr, none, some, Bytes, Option,
  length, Bool-cases, ◌==◌,
}
use shadowc.Base.Int.{int_eq}
use shadowc.Memory.{ok, no_fuel, ◌>>=◌, strlen, c_string}
use shadowc.Memory.Laws.{c_string-ne-no_fuel, >>=-ne-no_fuel}
use shadowc.Eventloop.{EpollEvent, epollerr}
use shadowc.Asyncdns.Header.{DnsHeader, decode, header_len}
use shadowc.Asyncdns.Names.Reading.{IsCycle}
use shadowc.Asyncdns.Names.RoundTrip.{read_name_cycle}
use shadowc.Asyncdns.Names.Termination.{IsAcyclic, rounds}
use shadowc.Asyncdns.Response.{Malloc, question_len, parse_answers, parse_response}
use shadowc.Asyncdns.Response.Termination.{parse_response-ne-no_fuel, first_address-ne-no_fuel}
use shadowc.Asyncdns.Resolver.{Resolver, handle_found, handle_data, handle_event}

parse_answers_cycle :
    (fuel : ℕ) (malloc : Malloc) (message : Bytes) (P : ℕ → Type 0) (n reader : ℕ)
    → IsCycle message P
    → 0 < n
    → P reader
    → 0 < length (malloc 0 256)
    → parse_answers fuel malloc message n 0 reader ≡ no_fuel
unfolding parse_answers
parse_answers_cycle fuel malloc message P zero reader next some' here room = elim some' [ ]
parse_answers_cycle fuel malloc message P (suc n) reader next some' here room =
    rw (read_name_cycle message (malloc 0 256) P next fuel reader here room)

module _ {C : Type 0} (fuel : ℕ) (malloc : Malloc) (inet_ntoa : Bytes → Bytes) where
  handle_found-ne-no_fuel :
      (r : Resolver C) (found : Option (Bytes × Bytes))
      → handle_found fuel malloc inet_ntoa r found ≢ no_fuel
  unfolding handle_found
  handle_found-ne-no_fuel r none = λ e. cc
  handle_found-ne-no_fuel r (some (name, address)) =
      >>=-ne-no_fuel (c_string name) _ (c_string-ne-no_fuel name) λ _ _ e. cc

  -- If some rank of the positions of the message falls at each compression pointer, so that no
  -- cycle consists of pointers alone, and the blocks for names have at most `room` bytes, then
  -- `handle_event` ends, whatever else the message says, well formed or not: the fuel of `rounds`
  -- is enough.
  pub handle_event-ne-no_fuel :
      (r : Resolver C) (evt : EpollEvent) (buf : Bytes) (rank : ℕ → ℕ) (bound room : ℕ)
      → IsAcyclic buf rank bound
      → ((k : ℕ) → length (malloc k 256) ≤ room)
      → rounds bound room ≤ fuel
      → handle_event fuel malloc inet_ntoa r evt buf ≢ no_fuel
  unfolding handle_event handle_data
  handle_event-ne-no_fuel r evt buf rank bound room a blocks enough =
      elim (Bool-cases (int_eq r.dns_socket evt.fd)) [
        | inr other ↦ rw (other, handle_event) (λ e. cc)
        | inl ours ↦ elim (Bool-cases (bit_and evt.events epollerr == 0)) [
          | inr error ↦ rw (ours, handle_event, error) (λ e. cc)
          | inl fine ↦
              rw (ours, handle_event, fine)
                (>>=-ne-no_fuel _ _ (parse_response-ne-no_fuel a malloc room fuel blocks enough)
                  λ response _.
                    >>=-ne-no_fuel _ _ (first_address-ne-no_fuel buf response)
                      λ found _. handle_found-ne-no_fuel r found)
        ]
      ]

  -- If a message counts an answer, and the owner of the first one begins in a set of positions with
  -- a compression pointer at each that leads to a position of the set, an event of the resolver's
  -- socket without EPOLLERR that brings the message keeps `handle_event` in a loop for ever: no
  -- fuel is enough, if the block for the name is not empty.
  pub handle_event_cycle :
      (r : Resolver C) (evt : EpollEvent) (buf : Bytes) (P : ℕ → Type 0) (query : ℕ)
      {dns : DnsHeader}
      → int_eq r.dns_socket evt.fd ≡ true
      → bit_and evt.events epollerr ≡ 0
      → decode buf ≡ ok dns
      → 0 < dns.ans_count
      → strlen (drop header_len buf) ≡ ok query
      → IsCycle buf P
      → P (header_len + (query + 1) + question_len)
      → 0 < length (malloc 0 256)
      → handle_event fuel malloc inet_ntoa r evt buf ≡ no_fuel
  unfolding handle_event handle_data parse_response
  handle_event_cycle r evt buf P query {dns} fd fine decoded counted len next here room =
      let stuck =
        parse_answers_cycle fuel malloc buf P dns.ans_count
          (header_len + (query + 1) + question_len) next counted here room in
      rw (fd, handle_event, eq→== _ 0 fine, decoded, ◌>>=◌, len, stuck)
