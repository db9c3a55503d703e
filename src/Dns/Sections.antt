-- ===== src/Dns/Sections.antt =====
-- The answers in an array of 20 records, against `parse_answers` of lib/asyncdns.cpp.
use shadowc.Base.{
  ℕ, zero, suc, ◌+◌, ◌*◌, ◌≤◌, ◌<◌, ◌≡◌, refl, sym, ap, ◌∙◌, true, false, [], ◌∷◌, Bytes, List, ltb,
  lt→ltb, ltb→lt, Bool-cases, inl, inr, arith,
}
use shadowc.Memory.{Outcome, ok, fault, out_of_bounds_write, ◌>>=◌}
use shadowc.Memory.Laws.{>>=-eq-ok, ok-injective}
use shadowc.Asyncdns.Header.{ntohs_at}
use shadowc.Asyncdns.Names.{read_name}
use shadowc.Asyncdns.Response.{ResRecord, Malloc, r_data_len, parse_rdata, parse_answers}
use shadowc.Dns.{read_section, read_data}

module _ (fuel : ℕ) (malloc : Malloc) (message : Bytes) where
  -- A record that `parse_answers` reads: its parts, and the answers behind it.
  record IsFirst (n i k reader : ℕ) (records : List ResRecord) : Type 0 where
    name : Bytes
    rdata : Bytes
    count : ℕ
    type : ℕ
    reader' : ℕ
    rest : List ResRecord
    named : read_name fuel message reader (malloc k 256) ≡ ok (name, count)
    typed : ntohs_at message (reader + count) ≡ ok type
    data_read :
        parse_rdata fuel message type
          (reader + count)
          (reader + count + r_data_len)
          (malloc (k + 1))
        ≡ ok (rdata, reader')
    others : parse_answers fuel malloc message n (i + 1) reader' ≡ ok rest
    all :
        records
        ≡ record {
          name_block = k;
          name = name;
          resource = reader + count;
          rdata_block = k + 1;
          rdata = rdata;
        }
          ∷ rest

  parse_answers-IsFirst :
      (n i k reader : ℕ) {records : List ResRecord}
      → parse_answers fuel malloc message (suc n) i reader ≡ ok records
      → k ≡ 2 * i
      → IsFirst n i k reader records
  unfolding parse_answers
  parse_answers-IsFirst n i k reader {records} e q =
      let ((name, count), named, e₁) =
        >>=-eq-ok (read_name fuel message reader (malloc (2 * i) 256)) _ e in
      let (type, typed, e₂) = >>=-eq-ok (ntohs_at message (reader + count)) _ e₁ in
      let read_into : (j : ℕ) → Outcome (Bytes × ℕ) = λ j.
        parse_rdata fuel message type (reader + count) (reader + count + r_data_len)
          (malloc (j + 1)) in
      let ((rdata, reader'), read, e₃) = >>=-eq-ok (read_into (2 * i)) _ e₂ in
      let (rest, others, e₄) =
        >>=-eq-ok (parse_answers fuel malloc message n (i + 1) reader') _ e₃ in
      record {
        name = name;
        rdata = rdata;
        count = count;
        type = type;
        reader' = reader';
        rest = rest;
        named = ap (λ (j : ℕ). read_name fuel message reader (malloc j 256)) q ∙ named;
        typed = typed;
        data_read = ap read_into q ∙ read;
        others = others;
        all =
            sym (ok-injective _ records e₄)
            ∙ ap
                (λ (j : ℕ).
                  record {
                    name_block = j;
                    name = name;
                    resource = reader + count;
                    rdata_block = j + 1;
                    rdata = rdata;
                  }
                  ∷ rest)
                (sym q);
      }

  -- One record into the array, and the loop behind it.
  read_section-cons :
      (n i k reader : ℕ) {name rdata : Bytes} {count type reader' : ℕ}
      → ltb i 20 ≡ true
      → read_name fuel message reader (malloc k 256) ≡ ok (name, count)
      → ntohs_at message (reader + count) ≡ ok type
      → parse_rdata fuel message type
          (reader + count)
          (reader + count + r_data_len)
          (malloc (k + 1))
        ≡ ok (rdata, reader')
      → read_section fuel malloc message true (suc n) i k reader ≡ (do
        (records, end) ← read_section fuel malloc message true n (i + 1) (k + 2) reader'
        ok (
          record {
            name_block = k;
            name = name;
            resource = reader + count;
            rdata_block = k + 1;
            rdata = rdata;
          }
              ∷ records,
          end,
        ))
  unfolding read_section
  read_section-cons n i k reader fits named typed read =
      rw (named, ◌>>=◌, fits, read_data, typed, read) refl

  read_section_full :
      (n i k reader : ℕ) {name : Bytes} {count : ℕ}
      → ltb i 20 ≡ false
      → read_name fuel message reader (malloc k 256) ≡ ok (name, count)
      → read_section fuel malloc message true (suc n) i k reader ≡ fault out_of_bounds_write
  unfolding read_section
  read_section_full n i k reader full named = rw (named, ◌>>=◌, full) refl

  -- Where `parse_answers` reads records from number `i` on, with two blocks allocated for each one
  -- before, and they fit into the array of 20, the loop of dns.c over the answers reads the same
  -- records.
  pub read_section-parse_answers :
      (n i k reader : ℕ) {records : List ResRecord}
      → parse_answers fuel malloc message n i reader ≡ ok records
      → n + i ≤ 20
      → k ≡ 2 * i
      → (end : ℕ) × (read_section fuel malloc message true n i k reader ≡ ok (records, end))
  unfolding parse_answers read_section
  read_section-parse_answers zero i k reader {records} e h q =
      (reader, ap (λ (rs : List ResRecord). ok (rs, reader)) (ok-injective [] records e))
  read_section-parse_answers (suc n) i k reader {records} e h q =
      let first = parse_answers-IsFirst n i k reader e q in
      let (end, rest) =
        read_section-parse_answers n (i + 1) (k + 2) first.reader' first.others (omega arith)
          (omega arith) in
      (
        end,
        read_section-cons n i k reader (lt→ltb i 20 (omega arith)) first.named first.typed
              first.data_read
            ∙ ap (λ (o : Outcome (List ResRecord × ℕ)). o >>= add_first first) rest
            ∙ ap (λ (rs : List ResRecord). ok (rs, end)) (sym first.all),
      )
    where
      add_first :
          {n i k reader : ℕ} {records : List ResRecord}
          → IsFirst n i k reader records
          → List ResRecord × ℕ
          → Outcome (List ResRecord × ℕ)
      add_first {k = k} {reader = reader} first (rs, end) = ok (
        record {
          name_block = k;
          name = first.name;
          resource = reader + first.count;
          rdata_block = k + 1;
          rdata = first.rdata;
        }
            ∷ rs,
        end,
      )

  -- Where `parse_answers` reads records from number `i` on, `i` at most 20, with two blocks
  -- allocated for each one before, and they are more than fit into the array of 20, the loop of
  -- dns.c over the answers writes behind the array.
  pub read_section_overflow :
      (n i k reader : ℕ) {records : List ResRecord}
      → parse_answers fuel malloc message n i reader ≡ ok records
      → 20 < n + i
      → i ≤ 20
      → k ≡ 2 * i
      → read_section fuel malloc message true n i k reader ≡ fault out_of_bounds_write
  read_section_overflow zero i k reader e h le q = absurd (omega arith)
  read_section_overflow (suc n) i k reader e h le q =
      let first = parse_answers-IsFirst n i k reader e q in
      elim (Bool-cases (ltb i 20)) [
        | inr full ↦ read_section_full n i k reader full first.named
        | inl fits ↦
            let rest =
              read_section_overflow n (i + 1) (k + 2) first.reader' first.others (omega arith)
                (omega (arith, ltb→lt i 20 fits)) (omega arith) in
            read_section-cons n i k reader fits first.named first.typed first.data_read
            ∙ rw rest refl
      ]
