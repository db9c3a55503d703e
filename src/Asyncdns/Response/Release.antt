-- ===== src/Asyncdns/Response/Release.antt =====
-- `free_response` on what `parse_response` returns.
use shadowc.Base.{
  ℕ, zero, suc, ◌+◌, ◌*◌, ◌≡◌, refl, ◌∙◌, sym, ap, List, [], ◌∷◌, ◌++◌, Bytes, drop, arith,
}
use shadowc.Memory.{ok, ◌>>=◌, strlen}
use shadowc.Memory.Laws.{>>=-eq-ok, ok-injective}
use shadowc.Asyncdns.Header.{DnsHeader, decode, header_len, ntohs_at}
use shadowc.Asyncdns.Names.{read_name}
use shadowc.Asyncdns.Response.{
  ResRecord, Malloc, Freed, array, block, parse_answers, parse_rdata, parse_response, free_response,
  free_records, r_data_len, question_len,
}

-- The blocks of `n` calls of `malloc` from number `k` on.
abbrev pub blocks : ℕ → ℕ → List Freed
blocks k zero = []
blocks k (suc n) = block k ∷ blocks (k + 1) n

module _ (fuel : ℕ) (malloc : Malloc) (message : Bytes) where
  parse_answers-free_records :
      (n i reader : ℕ) {records : List ResRecord}
      → parse_answers fuel malloc message n i reader ≡ ok records
      → free_records records ≡ blocks (2 * i) (2 * n) ++ array ∷ []
  unfolding parse_answers free_records
  parse_answers-free_records zero i reader {records} e =
      ap free_records (sym (ok-injective [] records e))
  parse_answers-free_records (suc n) i reader {records} e =
      let ((name, count), _, e₁) =
        >>=-eq-ok (read_name fuel message reader (malloc (2 * i) 256)) _ e in
      let (type, _, e₂) = >>=-eq-ok (ntohs_at message (reader + count)) _ e₁ in
      let ((rdata, reader'), _, e₃) =
        >>=-eq-ok
          (parse_rdata fuel message type (reader + count) (reader + count + r_data_len)
            (malloc (2 * i + 1)))
          _ e₂ in
      let (rest, others, e₄) =
        >>=-eq-ok (parse_answers fuel malloc message n (i + 1) reader') _ e₃ in
      ap free_records (sym (ok-injective _ records e₄))
      ∙ ap (λ l. block (2 * i) ∷ block (2 * i + 1) ∷ l)
          (parse_answers-free_records n (i + 1) reader' others)
      ∙ two_more n
    where
      two_more :
          (n : ℕ)
          → block (2 * i) ∷ block (2 * i + 1) ∷ (blocks (2 * (i + 1)) (2 * n) ++ array ∷ [])
            ≡ blocks (2 * i) (2 * suc n) ++ array ∷ []
      two_more n =
          let next : 2 * (i + 1) ≡ 2 * i + 1 + 1 = omega arith in
          let count : 2 * suc n ≡ suc (suc (2 * n)) = omega arith in rw (next, count) refl

  -- If `parse_response` returns from a message, `free_response` frees the two blocks of each answer
  -- that the header counts, each once and in the order of the calls of `malloc`, and then the
  -- array.
  pub parse_response-free_response :
      {dns : DnsHeader} {records : List ResRecord}
      → decode message ≡ ok dns
      → parse_response fuel malloc message ≡ ok records
      → free_response records ≡ blocks 0 (2 * dns.ans_count) ++ array ∷ []
  unfolding parse_response free_response
  parse_response-free_response {dns} d e =
      let (query, _, run) = >>=-eq-ok (strlen (drop header_len message)) _ (rw (d, ◌>>=◌) at e) in
      parse_answers-free_records dns.ans_count 0 (header_len + (query + 1) + question_len) run
