-- ===== src/Dns/Report/Agreement.antt =====
-- A response in dns.c and in lib/asyncdns.cpp.
use Prim.Native.Nat.{bit_and}
use mathlib.Core.Option
use shadowc.Base.{
  ℕ, ◌+◌, ◌≤◌, ◌≡◌, refl, ◌∙◌, ap, sym, Option, none, some, List, [], Bytes, All, length, true,
  arith,
}
use shadowc.Base.Int.{int_eq}
use shadowc.Memory.{ok, ◌>>=◌}
use shadowc.Eventloop.{EpollEvent, epollerr}
use shadowc.Asyncdns.Header.{header_len}
use shadowc.Asyncdns.Response.{Malloc, question_len}
use shadowc.Asyncdns.Response.Parsing.{IsRoomy, Answer, IsResponse, parse_answers-AnswersAt}
use shadowc.Asyncdns.Response.Finding.{IsIpv4, first_of_type_a}
use shadowc.Asyncdns.Resolver.{Resolver, Effect, call_callback, handle_event}
use shadowc.Asyncdns.Resolver.Answering.{answer_with, handle_event-IsResponse}
use shadowc.Dns.{Records, read_response}
use shadowc.Dns.Sections.{read_section-parse_answers}
use shadowc.Dns.Report.{Line, print_response}
use shadowc.Dns.Report.Answers.{first_shown, shown_as, print_all-HoldsAll}

-- What a resolver does for a name and the text of its address.
abbrev pub call_for :
    {C : Type 0} → Resolver C → Option (Bytes × Bytes) → Resolver C × List (Effect C)
call_for r none = (r, [])
call_for r (some (host, ip)) = call_callback r host ip

answer_with-shown_as :
    {C : Type 0} (inet_ntoa : Bytes → Bytes) (message : Bytes) (r : Resolver C)
    (found : Option (List Bytes × Bytes))
    → answer_with inet_ntoa r found ≡ call_for r (Option.map (shown_as inet_ntoa message) found)
answer_with-shown_as inet_ntoa message r none = refl
answer_with-shown_as inet_ntoa message r (some (names, rdata)) = refl

module _ {malloc : Malloc} (roomy : IsRoomy malloc) (fuel : ℕ) (inet_ntoa : Bytes → Bytes) where
  -- What is read and printed of a response without further sections.
  pub read_response-IsResponse :
      (message : Bytes) {answers : List Answer}
      → (response : IsResponse message fuel answers) → response.dns.auth_count ≡ 0
      → response.dns.add_count ≡ 0
      → length answers ≤ 20
      → All IsIpv4 answers
      → (records : Records) × (lines : List Line) × (read_response fuel malloc message ≡ ok records)
        × (print_response inet_ntoa message records ≡ ok (lines, [], []))
        × (first_shown lines ≡ Option.map (shown_as inet_ntoa message) (first_of_type_a answers))
  unfolding read_response print_response
  read_response-IsResponse message {answers} response no_auth no_addit few v =
      let start : ℕ = header_len + (response.query + 1) + question_len in
      let (parsed, run, held) = parse_answers-AnswersAt roomy message fuel response.answers_at 0 in
      let (end, read) =
        read_section-parse_answers fuel malloc message (length answers) 0 0 start run (omega arith)
          (omega arith) in
      let (lines, printed, shown) = print_all-HoldsAll inet_ntoa message answers parsed v held in
      (
        record { answers = parsed; auth = []; addit = [] },
        lines,
        rw (response.decodes, response.query_len, ◌>>=◌, response.counted, read, no_auth, no_addit)
            refl,
        rw (printed, ◌>>=◌) refl,
        shown,
      )

  -- With an allocator that leaves room behind each block, on a well-formed response with at most 20
  -- answers, whose address records have four bytes, and no authorities or additional records, dns.c
  -- prints lines, and an event of the resolver's socket without EPOLLERR calls the callbacks for
  -- the name and address that the first line with an address shows, or nothing if there is none.
  pub print_response-handle_event :
      {C : Type 0} (r : Resolver C) (evt : EpollEvent) (message : Bytes) {answers : List Answer}
      → (response : IsResponse message fuel answers) → response.dns.auth_count ≡ 0
      → response.dns.add_count ≡ 0
      → length answers ≤ 20
      → All IsIpv4 answers
      → int_eq r.dns_socket evt.fd ≡ true
      → bit_and evt.events epollerr ≡ 0
      → (records : Records) × (lines : List Line) × (read_response fuel malloc message ≡ ok records)
        × (print_response inet_ntoa message records ≡ ok (lines, [], []))
        × (handle_event fuel malloc inet_ntoa r evt message ≡ ok (call_for r (first_shown lines)))
  print_response-handle_event {C} r evt message {answers} response no_auth no_addit few v fd fine =
      let (records, lines, read, printed, shown) =
        read_response-IsResponse message response no_auth no_addit few v in
      (
        records,
        lines,
        read,
        printed,
        handle_event-IsResponse roomy fuel inet_ntoa r evt message response v fd fine
            ∙ ap ok (answer_with-shown_as inet_ntoa message r (first_of_type_a answers))
            ∙ ap (λ (o : Option (Bytes × Bytes)). ok (call_for r o)) (sym shown),
      )
