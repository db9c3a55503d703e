-- ===== src/Asyncdns/Response/Copying.antt =====
-- The copy of an address record's data into its block.
use shadowc.Base.{
  ℕ, zero, suc, ◌+◌, ◌≤◌, ◌<◌, ◌≡◌, refl, ◌∙◌, sym, [], ◌∷◌, ◌++◌, Bytes, length, length-append,
  append_assoc, drop, arith, ap,
}
use native.Mathlib.Nat.{suc-add}
use shadowc.Memory.{ok, load, store}
use shadowc.Memory.Laws.{load_at, store_at, length-store, >>=-eq-ok}
use shadowc.Asyncdns.Response.{copy}

-- With the bytes `done` copied, the bytes `todo` follow.
copy-append :
    (todo pre done post junk : Bytes) {message rdata : Bytes} {j reader : ℕ}
    → message ≡ pre ++ (done ++ (todo ++ post))
    → rdata ≡ done ++ junk
    → reader ≡ length pre
    → j ≡ length done
    → length todo ≤ length junk
    → copy (length todo) j message reader rdata ≡ ok (done ++ (todo ++ drop (length todo) junk))
unfolding copy
copy-append [] pre done post junk m r p h l = ap ok r
copy-append (c ∷ todo) pre done post [] m r p h l = absurd (omega arith)
copy-append (c ∷ todo) pre done post (x ∷ junk) {message} {rdata} {j} {reader} m r p h l =
    let read : load message (reader + j) ≡ ok c =
      load_at (pre ++ done) c (todo ++ post) (m ∙ simp append_assoc)
        (omega (arith, length-append pre done)) in
    let write : store rdata j c ≡ ok (done ++ c ∷ junk) = store_at done x junk c r h in
    rw (read, write)
      (copy-append todo pre (done ++ c ∷ []) post junk (m ∙ simp append_assoc) (simp append_assoc) p
          (omega (arith, length-append done (c ∷ []))) (omega arith)
        ∙ simp append_assoc)

-- Copying the `length data` bytes of a record's data, from where they stand in the message.
pub copy-data :
    (pre data' post block : Bytes) {message : Bytes} {reader : ℕ}
    → message ≡ pre ++ (data' ++ post)
    → reader ≡ length pre
    → length data' ≤ length block
    → copy (length data') 0 message reader block ≡ ok (data' ++ drop (length data') block)
copy-data pre data' post block m p l = copy-append data' pre [] post block m refl p refl l

drop-suc :
    (n : ℕ) (b : Bytes)
    → n < length b
    → (x : ℕ) × (rest : Bytes) × (drop n b ≡ x ∷ rest) × (drop (n + 1) b ≡ rest)
drop-suc n [] h = elim h [ ]
drop-suc zero (x ∷ b) h = (x, b, refl, refl)
drop-suc (suc n) (x ∷ b) h =
    let (y, rest, e, e') = drop-suc n b (omega arith) in (y, rest, e, rw (suc-add) e')

-- The terminator behind a copy that leaves room for it.
pub store_terminator :
    (data' block : Bytes)
    → length data' < length block
    → store (data' ++ drop (length data') block) (length data') 0
      ≡ ok (data' ++ 0 ∷ drop (length data' + 1) block)
store_terminator data' block l =
    let (x, rest, e, e') = drop-suc (length data') block l in
    rw (e, e') (store_at data' x rest 0 refl refl)

pub length-copy :
    (n j : ℕ) (message : Bytes) (reader : ℕ) (rdata : Bytes) {rdata' : Bytes}
    → copy n j message reader rdata ≡ ok rdata'
    → length rdata' ≡ length rdata
unfolding copy
length-copy zero j message reader rdata e = ap (λ o. elim o [ ok b ↦ length b | _ ↦ 0 ]) (sym e)
length-copy (suc n) j message reader rdata e =
    let (c, _, e') = >>=-eq-ok (load message (reader + j)) _ e in
    let (b, w, e'') = >>=-eq-ok (store rdata j c) _ e' in
    length-copy n (j + 1) message reader b e'' ∙ length-store rdata j c w
