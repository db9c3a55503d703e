-- ===== src/Dns/Report/Tests.antt =====
-- dns.c with a long name, and on a response that the resolver reads too.
use shadowc.Base.{
  ℕ, ◌≡◌, ◌≢◌, refl, true, some, List, [], ◌∷◌, Bytes, replicate, length-replicate, ◌++◌, suc, zero,
  arith,
}
use shadowc.Base.Text.{codes}
use shadowc.Base.Int.{pos}
use shadowc.Memory.{ok, fault, out_of_bounds_write}
use shadowc.Memory.Laws.{IsText}
use shadowc.Eventloop.{EpollEvent}
use shadowc.Asyncdns.Response.Tests.{
  roomy_malloc, roomy_malloc-IsRoomy, message, message-IsResponse, message-answers_only, ip_bytes,
}
use shadowc.Asyncdns.Resolver.{Resolver, handle_event}
use shadowc.Asyncdns.Response.{qtype_a}
use shadowc.Dns.{Records, read_response}
use shadowc.Dns.Report.{Line, Lookup, main, print_response}
use shadowc.Dns.Report.Agreement.{call_for, print_response-handle_event}
use shadowc.Dns.Report.Answers.{first_shown}
use shadowc.Dns.Report.Session.{main_lem}
use shadowc.Asyncdns.Header.{encode}
use shadowc.Asyncdns.Query.{query_header, question}
use shadowc.Asyncdns.Names.Labels.{wire, split, split_from, joined}
use shadowc.Dns.Report.Hostname.{main_overflow}

abbrev waiting : Resolver ℕ
waiting = record {
  servers = codes "8.8.4.4" ∷ [];
  has_loop = true;
  dns_socket = pos 5;
  hostname_to_cb = (codes "a", 1 ∷ 2 ∷ []) ∷ [];
  hostname_status_map = (codes "a", 0) ∷ [];
}

abbrev incoming : EpollEvent
incoming = record { events = 1; fd = pos 5 }

abbrev same_bytes : Bytes → Bytes
same_bytes address = address

print_response-handle_event_example :
    (records : Records) × (lines : List Line) × (read_response 20 roomy_malloc message ≡ ok records)
    × (print_response same_bytes message records ≡ ok (lines, [], []))
    × (handle_event 20 roomy_malloc same_bytes waiting incoming message
        ≡ ok (call_for waiting (first_shown lines)))
print_response-handle_event_example =
    print_response-handle_event roomy_malloc-IsRoomy 20 same_bytes waiting incoming message
      message-IsResponse message-answers_only.0 message-answers_only.1 (omega arith) (refl, tt) refl
      refl

-- A name of 99 letters, which fills the array with its NUL.
abbrev long_name : Bytes
long_name = replicate 99 b'a'

replicate-IsText : (n c : ℕ) → c ≢ 0 → IsText (replicate n c)
replicate-IsText zero c h = tt
replicate-IsText (suc n) c h = (h, replicate-IsText n c h)

main_overflow_example :
    main 20 7 roomy_malloc same_bytes
      (some [])
      (replicate 100 0)
      long_name
      (replicate 65536 0)
      message
    ≡ fault out_of_bounds_write
main_overflow_example =
    main_overflow 20 7 roomy_malloc same_bytes [] (replicate 100 0) long_name (replicate 65536 0)
      message refl (replicate-IsText 99 b'a' (λ e. cc)) (omega arith)

main_lem_example :
    (lookup : Lookup) × (main 20 7 roomy_malloc same_bytes
        (some [])
        (replicate 100 0)
        (codes "a.b")
        (replicate 65536 9)
        message
      ≡ ok lookup)
    × (lookup.server ≡ codes "208.67.222.222")
    × (lookup.packet
        ≡ encode (query_header 7) ++ (wire (split (codes "a.b")) ++ 0 ∷ question qtype_a))
    × (first_shown lookup.answers ≡ some (codes "a", ip_bytes))
unfolding split_from wire joined
main_lem_example =
    main_lem roomy_malloc-IsRoomy 20 7 same_bytes [] (replicate 100 0) (codes "a.b")
      (replicate 65536 9) message refl (length-replicate {A = ℕ} 65536 9) (omega arith)
      ((λ e. cc), ((λ e. cc), ((λ e. cc), tt)))
      ((λ e. cc), ((λ e. cc), ((λ e. cc), ((λ e. cc), tt)))) (omega arith) message-IsResponse
      message-answers_only.0 message-answers_only.1 (omega arith) (refl, tt)
