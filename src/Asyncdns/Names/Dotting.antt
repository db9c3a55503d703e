-- ===== src/Asyncdns/Names/Dotting.antt =====
-- The conversion from 3www6google3com to www.google.com, in place.
use shadowc.Base.{
  ℕ, zero, suc, ◌+◌, ◌-◌, ◌%◌, ◌≤◌, ◌<◌, ◌≡◌, ◌≢◌, ◌∙◌, inl, inr, List, [], ◌∷◌, ◌++◌, Bytes,
  length, length-append, append_assoc, All, All-append, Bool-cases, ltb, lt→ltb, le→ltb, arith,
  true,
}
use mathlib.Core.Path.{ap₂}
use native.Mathlib.Nat.{add-zero}
use shadowc.Memory.{ok, no_fuel, ◌>>=◌, load, store, strlen}
use shadowc.Memory.Laws.{
  load_at, store_at, IsText, strlen_text, length-store, >>=-eq-ok, store-lt, store-ne-no_fuel,
  load-ne-no_fuel, strlen-ne-no_fuel, >>=-ne-no_fuel,
}
use shadowc.Asyncdns.Names.{shift, dot_loop}
use shadowc.Asyncdns.Names.Labels.{wire, dots, IsLabel, wire-IsText, label-IsText}

-- The byte that a label leaves behind when it moves down over `x`.
abbrev left_over : ℕ → Bytes → ℕ
left_over x [] = x
left_over x (c ∷ l) = left_over c l

shift-label :
    (l pre post : Bytes) (x : ℕ) {i : ℕ} {name : Bytes}
    → name ≡ pre ++ x ∷ (l ++ post)
    → i ≡ length pre
    → shift (length l) i name ≡ ok (i + length l, pre ++ (l ++ left_over x l ∷ post))
unfolding shift
shift-label [] pre post x {i} {name} e h = rw e (simp add-zero)
shift-label (c ∷ l) pre post x {i} {name} e h =
    let read : load name (i + 1) ≡ ok c =
      load_at (pre ++ x ∷ []) c (l ++ post) (e ∙ simp append_assoc)
        (omega (arith, length-append pre (x ∷ []))) in
    let write : store name i c ≡ ok (pre ++ c ∷ (c ∷ (l ++ post))) =
      store_at pre x (c ∷ (l ++ post)) c e h in
    rw (read, write)
      (shift-label l (pre ++ c ∷ []) post c (simp append_assoc)
          (omega (arith, length-append pre (c ∷ [])))
        ∙ rw suc_index (simp append_assoc))
  where
    suc_index : i + 1 + length l ≡ i + suc (length l)
    suc_index = omega arith

-- The loop at a label: `done` is converted, the labels `ls` are to come.
pub dot_loop-dots :
    (ls : List Bytes) (done junk : Bytes) (fuel : ℕ) {i : ℕ} {name : Bytes}
    → IsText done
    → All IsLabel ls
    → length ls < fuel
    → name ≡ done ++ (wire ls ++ 0 ∷ junk)
    → i ≡ length done
    → dot_loop fuel i name ≡ ok (i + length (wire ls), done ++ (dots ls ++ 0 ∷ junk))
unfolding dot_loop wire dots
dot_loop-dots ls done junk zero t v f e h = absurd (omega arith)
dot_loop-dots [] done junk (suc fuel) {i} {name} t v f e h =
    let n : strlen name ≡ ok (length done) = rw e (strlen_text done junk t) in
    rw (n, ◌>>=◌, le→ltb i (length done) (omega arith), e) (simp add-zero)
dot_loop-dots (l ∷ ls) done junk (suc fuel) {i} {name} t (v, vs) f e h =
    let len : length l % 256 ≡ length l = omega (arith, v.short) in
    let post : Bytes = wire ls ++ 0 ∷ junk in
    let name' : name ≡ done ++ length l ∷ (l ++ post) = e ∙ rw len (simp append_assoc) in
    let all : IsText (done ++ wire (l ∷ ls)) =
      All-append _ done _ t (wire-IsText (l ∷ ls) (v, vs)) in
    let n : strlen name ≡ ok (length (done ++ wire (l ∷ ls))) =
      rw (e, ← append_assoc done (wire (l ∷ ls)) (0 ∷ junk)) (strlen_text _ junk all) in
    let test : ltb i (length (done ++ wire (l ∷ ls))) ≡ true =
      lt→ltb i _ (omega (arith, length-append done (wire (l ∷ ls)))) in
    let read : load name i ≡ ok (length l) = load_at done (length l) (l ++ post) name' h in
    let moved = shift-label l done post (length l) name' h in
    let write : store (done ++ (l ++ left_over (length l) l ∷ post)) (i + length l) b'.'
        ≡ ok ((done ++ l) ++ b'.' ∷ post) =
      store_at (done ++ l) (left_over (length l) l) post b'.' (simp append_assoc)
        (omega (arith, length-append done l)) in
    rw (n, ◌>>=◌, test, read, moved, write)
      (dot_loop-dots ls (done ++ l ++ b'.' ∷ []) junk fuel
          (All-append _ (done ++ l) _ (All-append _ done _ t (label-IsText l v)) (omega arith, tt))
          vs (omega arith) (simp append_assoc)
          (omega (arith, length-append done l, length-append (done ++ l) (b'.' ∷ [])))
        ∙ ap₂ (λ (k : ℕ) (b : Bytes). ok (k, b)) (omega (arith, length-append l (wire ls)))
            (simp append_assoc))

shift-length :
    (n i : ℕ) (name : Bytes) {i' : ℕ} {name' : Bytes}
    → shift n i name ≡ ok (i', name')
    → (i' ≡ i + n) × (length name' ≡ length name)
unfolding shift
shift-length zero i name e = ground arith
shift-length (suc n) i name e =
    let (c, r, e') =
      >>=-eq-ok (load name (i + 1)) (λ c. do b ← store name i c; shift n (i + 1) b) e in
    let (b, w, e'') = >>=-eq-ok (store name i c) (λ b. shift n (i + 1) b) e' in
    let (k, s) = shift-length n (i + 1) b e'' in
    (omega arith, omega (arith, length-store name i c w))

shift-ne-no_fuel : (n i : ℕ) (name : Bytes) → shift n i name ≢ no_fuel
unfolding shift
shift-ne-no_fuel zero i name = λ h. cc
shift-ne-no_fuel (suc n) i name =
    >>=-ne-no_fuel (load name (i + 1)) _ (load-ne-no_fuel name (i + 1)) λ c r.
      >>=-ne-no_fuel (store name i c) _ (store-ne-no_fuel name i c)
        λ b w. shift-ne-no_fuel n (i + 1) b

-- One round from `i`: the rest of the loop starts past `i`, and still inside the block.
round-ne-no_fuel :
    (fuel i : ℕ) (name : Bytes)
    → ((i' : ℕ) (b : Bytes)
        → i < i'
        → i' ≤ length b
        → length b ≡ length name
        → dot_loop fuel i' b ≢ no_fuel)
    → (do
      p ← load name i
      (i', name') ← shift p i name
      name'' ← store name' i' b'.'
      dot_loop fuel (i' + 1) name'')
      ≢ no_fuel
round-ne-no_fuel fuel i name next = >>=-ne-no_fuel (load name i) _ (load-ne-no_fuel name i) λ p _.
    >>=-ne-no_fuel (shift p i name) _ (shift-ne-no_fuel p i name) λ (i', b) m.
      >>=-ne-no_fuel (store b i' b'.') _ (store-ne-no_fuel b i' b'.') λ b' w.
        let (k, s) = shift-length p i name m in
        let same = length-store b i' b'.' w in
        next (i' + 1) b' (omega arith) (rw same (store-lt b i' b'.' w)) (omega arith)

-- The conversion to dots ends from every index within the block, whatever the block holds: it does
-- not run out of fuel, if there is more fuel than bytes from the index on.
pub dot_loop-ne-no_fuel :
    (fuel i : ℕ) (name : Bytes)
    → i ≤ length name
    → length name - i < fuel
    → dot_loop fuel i name ≢ no_fuel
unfolding dot_loop
dot_loop-ne-no_fuel zero i name b f = absurd (omega arith)
dot_loop-ne-no_fuel (suc fuel) i name b f =
    >>=-ne-no_fuel (strlen name) _ (strlen-ne-no_fuel name) λ n _. elim (Bool-cases (ltb i n)) [
      | inl more ↦ rw more (
          round-ne-no_fuel fuel i name
            λ i' b' lt le same. dot_loop-ne-no_fuel fuel i' b' le (omega arith))
      | inr stop ↦ rw stop (λ h. cc)
    ]
