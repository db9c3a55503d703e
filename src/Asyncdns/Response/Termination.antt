-- ===== src/Asyncdns/Response/Termination.antt =====
-- When the resolver comes to an end with a message: its loops over records, bytes and names.
use shadowc.Base.{
  ℕ, zero, suc, ◌+◌, ◌*◌, ◌≤◌, ◌≢◌, inl, inr, List, [], ◌∷◌, Bytes, length, drop, Bool-cases, ltb,
  ◌==◌, arith,
}
use native.Mathlib.Nat.{mul-le-mul_right}
use shadowc.Memory.{no_fuel, load, store}
use shadowc.Memory.Laws.{load-ne-no_fuel, store-ne-no_fuel, strlen-ne-no_fuel, >>=-ne-no_fuel}
use shadowc.Asyncdns.Header.{decode, ntohs_at, header_len}
use shadowc.Asyncdns.Names.{read_name}
use shadowc.Asyncdns.Names.Termination.{IsAcyclic, rounds, read_name-ne-no_fuel}
use shadowc.Asyncdns.Response.{
  ResRecord, Malloc, qtype_a, data_len_at, copy, parse_rdata, parse_answers, parse_response,
  load_address, first_address,
}

ntohs_at-ne-no_fuel : (b : Bytes) (i : ℕ) → ntohs_at b i ≢ no_fuel
unfolding ntohs_at
ntohs_at-ne-no_fuel b i =
    >>=-ne-no_fuel (load b i) _ (load-ne-no_fuel b i)
      λ high _. >>=-ne-no_fuel (load b (i + 1)) _ (load-ne-no_fuel b (i + 1)) λ low _ e. cc

decode-ne-no_fuel : (b : Bytes) → decode b ≢ no_fuel
unfolding decode
decode-ne-no_fuel b = >>=-ne-no_fuel (ntohs_at b 0) _ (ntohs_at-ne-no_fuel b 0) λ _ _.
    >>=-ne-no_fuel (load b 2) _ (load-ne-no_fuel b 2) λ _ _.
      >>=-ne-no_fuel (load b 3) _ (load-ne-no_fuel b 3) λ _ _.
        >>=-ne-no_fuel (ntohs_at b 4) _ (ntohs_at-ne-no_fuel b 4) λ _ _.
          >>=-ne-no_fuel (ntohs_at b 6) _ (ntohs_at-ne-no_fuel b 6) λ _ _.
            >>=-ne-no_fuel (ntohs_at b 8) _ (ntohs_at-ne-no_fuel b 8)
              λ _ _. >>=-ne-no_fuel (ntohs_at b 10) _ (ntohs_at-ne-no_fuel b 10) λ _ _ e. cc

copy-ne-no_fuel :
    (n j : ℕ) (message : Bytes) (reader : ℕ) (b : Bytes) → copy n j message reader b ≢ no_fuel
unfolding copy
copy-ne-no_fuel zero j message reader b = λ e. cc
copy-ne-no_fuel (suc n) j message reader b =
    >>=-ne-no_fuel (load message (reader + j)) _ (load-ne-no_fuel message (reader + j)) λ c _.
      >>=-ne-no_fuel (store b j c) _ (store-ne-no_fuel b j c)
        λ b' _. copy-ne-no_fuel n (j + 1) message reader b'

-- Which record has the address is found without running out.
pub first_address-ne-no_fuel :
    (message : Bytes) (answers : List ResRecord) → first_address message answers ≢ no_fuel
unfolding first_address load_address
first_address-ne-no_fuel message [] = λ e. cc
first_address-ne-no_fuel message (a ∷ answers) =
    >>=-ne-no_fuel (ntohs_at message a.resource) _ (ntohs_at-ne-no_fuel message a.resource)
      λ type _. elim (Bool-cases (type == qtype_a)) [
        | inl found ↦ rw found (elim (Bool-cases (ltb (length a.rdata) 8)) [
          | inl short ↦ rw short (λ e. cc)
          | inr long ↦ rw long (λ e. cc)
        ])
        | inr other ↦ rw other (first_address-ne-no_fuel message answers)
      ]

module _ {message : Bytes} {rank : ℕ → ℕ} {bound : ℕ} (a : IsAcyclic message rank bound)
    (malloc : Malloc) (room fuel : ℕ) (blocks : (k : ℕ) → length (malloc k 256) ≤ room)
    (enough : rounds bound room ≤ fuel) where
  name_ends : (k pos : ℕ) → read_name fuel message pos (malloc k 256) ≢ no_fuel
  name_ends k pos =
      read_name-ne-no_fuel a fuel pos (malloc k 256)
        (omega (arith, enough, mul-le-mul_right (suc bound) (blocks k), blocks k))

  parse_rdata-ne-no_fuel :
      (k type resource reader : ℕ)
      → parse_rdata fuel message type resource reader (malloc k) ≢ no_fuel
  unfolding parse_rdata
  parse_rdata-ne-no_fuel k type resource reader = elim (Bool-cases (type == qtype_a)) [
    | inl found ↦
        rw (found, parse_rdata)
          (>>=-ne-no_fuel (ntohs_at message (resource + data_len_at)) _
            (ntohs_at-ne-no_fuel message (resource + data_len_at))
            λ n _.
              >>=-ne-no_fuel (copy n 0 message reader (malloc k n)) _
                (copy-ne-no_fuel n 0 message reader (malloc k n))
                λ rdata _.
                  >>=-ne-no_fuel (store rdata n 0) _ (store-ne-no_fuel rdata n 0) λ _ _ e. cc)
    | inr other ↦ rw (other, parse_rdata) (>>=-ne-no_fuel _ _ (name_ends k reader) λ _ _ e. cc)
  ]

  parse_answers-ne-no_fuel :
      (n i reader : ℕ) → parse_answers fuel malloc message n i reader ≢ no_fuel
  unfolding parse_answers
  parse_answers-ne-no_fuel zero i reader = λ e. cc
  parse_answers-ne-no_fuel (suc n) i reader =
      >>=-ne-no_fuel _ _ (name_ends (2 * i) reader) λ (name, count) _.
        >>=-ne-no_fuel _ _ (ntohs_at-ne-no_fuel message (reader + count)) λ type _.
          >>=-ne-no_fuel _ _ (parse_rdata-ne-no_fuel (2 * i + 1) type (reader + count) _)
            λ (rdata, reader') _.
              >>=-ne-no_fuel _ _ (parse_answers-ne-no_fuel n (i + 1) reader') λ _ _ e. cc

  pub parse_response-ne-no_fuel : parse_response fuel malloc message ≢ no_fuel
  unfolding parse_response
  parse_response-ne-no_fuel = >>=-ne-no_fuel _ _ (decode-ne-no_fuel message) λ dns _.
      >>=-ne-no_fuel _ _ (strlen-ne-no_fuel (drop header_len message))
        λ query _. parse_answers-ne-no_fuel dns.ans_count 0 _
