-- ===== src/Asyncdns/Resolver/Replying.antt =====
-- The resolver and the replies of a DNS server.
mod Tests
use Prim.Native.Nat.{bit_and}
use shadowc.Base.{
  ℕ, ◌≤◌, ◌≡◌, refl, ◌∙◌, ap, true, Option, none, some, List, [], ◌∷◌, ◌++◌, Bytes, All, length,
}
use shadowc.Base.Int.{int_eq}
use shadowc.Memory.{ok}
use shadowc.Eventloop.{EpollEvent, epollerr}
use shadowc.Asyncdns.Header.{DnsHeader}
use shadowc.Asyncdns.Header.Laws.{IsHeader}
use shadowc.Asyncdns.Names.Labels.{split, joined-split}
use shadowc.Asyncdns.Response.{Malloc}
use shadowc.Asyncdns.Response.Parsing.{IsRoomy}
use shadowc.Asyncdns.Response.Finding.{IsIpv4, first_of_type_a}
use shadowc.Asyncdns.Response.Reply.{
  Name, Record, a_record, cname_record, reply, IsName, IsRecord, host_of, answers_of, first_a,
}
use shadowc.Asyncdns.Response.Reply.Parsed.{reply-IsResponse, reply_fuel}
use shadowc.Asyncdns.Resolver.{Resolver, Effect, call_callback, handle_event}
use shadowc.Asyncdns.Resolver.Answering.{answer_with, handle_event-IsResponse}

answers_of-IsIpv4 :
    (host : Bytes) (records : List Record)
    → All IsRecord records
    → All IsIpv4 (answers_of host records)
answers_of-IsIpv4 host [] v = tt
answers_of-IsIpv4 host (a_record owner ttl ip ∷ records) ((named, four, short), vs) =
    (short, answers_of-IsIpv4 host records vs)
answers_of-IsIpv4 host (cname_record owner ttl target ∷ records) (v, vs) =
    (tt, answers_of-IsIpv4 host records vs)

module _ {C : Type 0} where
  -- What the first address of a reply brings about.
  abbrev pub told :
      (Bytes → Bytes) → Resolver C → Bytes → Option (Name × Bytes) → Resolver C × List (Effect C)
  told inet_ntoa r host none = (r, [])
  told inet_ntoa r host (some (owner, ip)) = call_callback r (host_of host owner) (inet_ntoa ip)

  answer_with-told :
      (inet_ntoa : Bytes → Bytes) (r : Resolver C) (host : Bytes) (records : List Record)
      → answer_with inet_ntoa r (first_of_type_a (answers_of host records))
        ≡ told inet_ntoa r host (first_a records)
  answer_with-told inet_ntoa r host [] = refl
  answer_with-told inet_ntoa r host (a_record owner ttl ip ∷ records) =
      ap (λ (h : Bytes). call_callback r h (inet_ntoa ip)) (joined-split (host_of host owner))
  answer_with-told inet_ntoa r host (cname_record owner ttl target ∷ records) =
      answer_with-told inet_ntoa r host records

  -- With an allocator that leaves room behind each block, fuel of 257, and a header within its
  -- widths that counts the records, an event of the resolver's socket without EPOLLERR and with a
  -- reply as RFC 1035 encodes it, to a question for `host`, with any address and canonical name
  -- records whose owners and targets are the asked name, through a pointer, or proper names of at
  -- most 255 bytes that are written out, calls the callbacks of the owner of the first address
  -- record with its four bytes, and without an address record does nothing; what stands in the
  -- buffer behind the reply plays no part.
  pub handle_event-reply :
      {malloc : Malloc} (roomy : IsRoomy malloc) (fuel : ℕ) (inet_ntoa : Bytes → Bytes)
      (r : Resolver C) (evt : EpollEvent) (dns : DnsHeader) (host : Bytes) (records : List Record)
      (rest : Bytes)
      → IsHeader dns
      → dns.ans_count ≡ length records
      → IsName host
      → All IsRecord records
      → reply_fuel ≤ fuel
      → int_eq r.dns_socket evt.fd ≡ true
      → bit_and evt.events epollerr ≡ 0
      → handle_event fuel malloc inet_ntoa r evt (reply dns host records ++ rest)
        ≡ ok (told inet_ntoa r host (first_a records))
  handle_event-reply roomy fuel inet_ntoa r evt dns host records rest d counted n v enough fd fine =
      handle_event-IsResponse roomy fuel inet_ntoa r evt (reply dns host records ++ rest)
        (reply-IsResponse dns host records rest fuel d counted n v enough)
        (answers_of-IsIpv4 host records v) fd fine
      ∙ ap ok (answer_with-told inet_ntoa r host records)
