-- ===== src/Asyncdns/Resolver/Replying/Tests.antt =====
-- A reply to a question for "a": that is another name for "b", whose address follows.
use shadowc.Base.{◌≡◌, refl, List, [], ◌∷◌, ◌++◌, Bytes, arith}
use shadowc.Base.Text.{codes}
use shadowc.Memory.{ok}
use shadowc.Asyncdns.Header.{DnsHeader}
use shadowc.Asyncdns.Header.Laws.{IsHeader}
use shadowc.Asyncdns.Names.Labels.{split_from}
use shadowc.Asyncdns.Response.Tests.{roomy_malloc, roomy_malloc-IsRoomy, dns, ip_bytes}
use shadowc.Asyncdns.Response.Reply.{asked, spelled, Record, a_record, cname_record, reply, IsName}
use shadowc.Asyncdns.Resolver.{handle_event, call_callback}
use shadowc.Asyncdns.Resolver.Replying.{handle_event-reply}
use shadowc.Asyncdns.Resolver.Tests.{waiting, incoming, same_bytes}

abbrev two_answers : DnsHeader
two_answers = record dns { ans_count = 2 }

two_answers-IsHeader : IsHeader two_answers
two_answers-IsHeader = omega arith

a-IsName : IsName (codes "a")
unfolding split_from
a-IsName = record {
  labels = (record { nonempty = omega arith; short = omega arith; plain = omega arith }, tt);
  fits = omega arith;
}

b-IsName : IsName (codes "b")
unfolding split_from
b-IsName = record {
  labels = (record { nonempty = omega arith; short = omega arith; plain = omega arith }, tt);
  fits = omega arith;
}

abbrev ttl : Bytes
ttl = 0 ∷ 0 ∷ 0 ∷ 9 ∷ []

abbrev records : List Record
records =
    cname_record asked ttl (spelled (codes "b")) ∷ a_record (spelled (codes "b")) ttl ip_bytes ∷ []

handle_event-reply_example :
    handle_event 257 roomy_malloc same_bytes waiting incoming
      (reply two_answers (codes "a") records ++ 0 ∷ [])
    ≡ ok (call_callback waiting (codes "b") ip_bytes)
handle_event-reply_example =
    handle_event-reply roomy_malloc-IsRoomy 257 same_bytes waiting incoming two_answers (codes "a")
      records (0 ∷ []) two_answers-IsHeader refl a-IsName
      ((tt, refl, b-IsName), ((b-IsName, refl, refl), tt)) (omega arith) refl refl
