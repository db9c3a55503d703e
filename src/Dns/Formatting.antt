-- ===== src/Dns/Formatting.antt =====
-- What `ChangetoDnsNameFormat` writes.
use shadowc.Base.{
  ℕ, zero, suc, ◌+◌, ◌-◌, ◌%◌, ◌<◌, ◌≡◌, refl, sym, ap, ◌∙◌, inl, inr, true, false, [], ◌∷◌, ◌++◌,
  Bytes, length, take, drop, take-append-drop, length-drop, length-take_of_le, length-append,
  append_assoc, append-nil, All-append, ◌==◌, ==→eq, Bool-cases, ltb, lt→ltb, le→ltb, arith,
}
use shadowc.Memory.{ok, ◌>>=◌, load, store}
use shadowc.Memory.Laws.{load_at, store_at, IsText, strlen_text}
use shadowc.Asyncdns.Names.Labels.{split_from, split, wire}
use shadowc.Dns.{strcat_dot, copy_label, label_loop, changeto_dns_name_format}

-- The label `todo` is copied behind what is written.
copy_label-append :
    (todo done after pre old rest : Bytes) {host block : Bytes} {lock dns : ℕ} (lock' dns' : ℕ)
    → host ≡ done ++ (todo ++ after)
    → block ≡ pre ++ (old ++ rest)
    → length old ≡ length todo
    → lock ≡ length done
    → dns ≡ length pre
    → lock + length todo ≡ lock'
    → dns + length todo ≡ dns'
    → copy_label (length todo) host lock dns block ≡ ok (lock', dns', pre ++ (todo ++ rest))
unfolding copy_label
copy_label-append [] done after pre [] rest {host} {block} {lock} {dns} lock' dns' h b o l d p q =
    let p' : lock ≡ lock' = omega arith in let q' : dns ≡ dns' = omega arith in rw (b, p', q') refl
copy_label-append [] done after pre (x ∷ old) rest lock' dns' h b o l d p q = absurd (omega arith)
copy_label-append (c ∷ todo) done after pre [] rest lock' dns' h b o l d p q = absurd (omega arith)
copy_label-append (c ∷ todo) done after pre (x ∷ old) rest lock' dns' h b o l d p q =
    rw (load_at done c (todo ++ after) h l, store_at pre x (old ++ rest) c b d)
      (copy_label-append todo (done ++ c ∷ []) after (pre ++ c ∷ []) old rest lock' dns'
          (h ∙ simp append_assoc) (simp append_assoc) (omega arith)
          (omega (arith, length-append done (c ∷ []))) (omega (arith, length-append pre (c ∷ [])))
          (omega arith) (omega arith)
        ∙ simp append_assoc)

-- One round at the dot behind the label `current`.
label_loop-dot :
    (done current after pre old rest more : Bytes) (fuel b₀ : ℕ) {text block : Bytes}
    {i lock dns : ℕ}
    → IsText text
    → text ≡ done ++ (current ++ b'.' ∷ after)
    → lock ≡ length done
    → i ≡ length done + length current
    → dns ≡ length pre
    → block ≡ pre ++ b₀ ∷ (old ++ rest)
    → length old ≡ length current
    → label_loop (suc fuel) (text ++ 0 ∷ more) i lock dns block
      ≡ label_loop fuel
          (text ++ 0 ∷ more)
          (i + 1)
          (lock + length current + 1)
          (dns + 1 + length current)
          (pre ++ (length current % 256) ∷ (current ++ rest))
unfolding label_loop
label_loop-dot done current after pre old rest more fuel b₀ {text} {block} {i} {lock} {dns} t e l p
      d b o =
    let whole : text ++ 0 ∷ more ≡ (done ++ current) ++ b'.' ∷ (after ++ 0 ∷ more) =
      rw e (simp append_assoc) in
    let apart : text ++ 0 ∷ more ≡ done ++ (current ++ b'.' ∷ (after ++ 0 ∷ more)) =
      rw e (simp append_assoc) in
    let len : length text ≡ length done + length current + 1 + length after =
      ap length e
      ∙ omega (
        arith,
        length-append done (current ++ b'.' ∷ after),
        length-append current (b'.' ∷ after),
      ) in
    let within : ltb i (length text) ≡ true = lt→ltb i (length text) (omega arith) in
    let size : i - lock ≡ length current = omega arith in
    let head : store block dns (length current % 256)
        ≡ ok (pre ++ (length current % 256) ∷ (old ++ rest)) =
      store_at pre b₀ (old ++ rest) (length current % 256) b d in
    let label =
      copy_label-append current done (b'.' ∷ (after ++ 0 ∷ more))
        (pre ++ (length current % 256) ∷ []) old rest {host = text ++ 0 ∷ more}
        {block = pre ++ (length current % 256) ∷ (old ++ rest)} {lock = lock} {dns = dns + 1}
        (lock + length current) (dns + 1 + length current) apart (simp append_assoc) o l
        (omega (arith, length-append pre ((length current % 256) ∷ []))) refl refl in
    let at_dot : load (text ++ 0 ∷ more) i ≡ ok b'.' =
      load_at (done ++ current) b'.' (after ++ 0 ∷ more) whole
        (omega (arith, length-append done current)) in
    rw (strlen_text text more t, ◌>>=◌, within, at_dot, size, head, label) (simp append_assoc)

-- The loop in a label `current` behind the bytes `done`, with `host` and the last dot to go.
label_loop-split :
    (host done current pre body rest more : Bytes) (fuel z : ℕ) {text block : Bytes}
    {i lock dns : ℕ}
    → IsText text
    → text ≡ done ++ (current ++ (host ++ b'.' ∷ []))
    → lock ≡ length done
    → i ≡ length done + length current
    → dns ≡ length pre
    → block ≡ pre ++ (body ++ z ∷ rest)
    → length body ≡ length current + length host + 1
    → length host + 1 < fuel
    → label_loop fuel (text ++ 0 ∷ more) i lock dns block
      ≡ ok (pre ++ (wire (split_from current host) ++ 0 ∷ rest))
unfolding label_loop split_from wire
label_loop-split host done current pre [] rest more fuel z t e l p d b n f = absurd (omega arith)
label_loop-split host done current pre body rest more zero z t e l p d b n f = absurd (omega arith)
label_loop-split [] done current pre (b₀ ∷ old) rest more (suc zero) z t e l p d b n f =
    absurd (omega arith)
label_loop-split [] done current pre (b₀ ∷ old) rest more (suc (suc fuel)) z {text} {block} {i}
      {lock} {dns} t e l p d b n f =
    let front : Bytes = pre ++ (length current % 256) ∷ current in
    let len : length text ≡ length done + length current + 1 =
      ap length e
      ∙ omega
          (arith, length-append done (current ++ b'.' ∷ []), length-append current (b'.' ∷ [])) in
    let over : ltb (i + 1) (length text) ≡ false = le→ltb (i + 1) (length text) (omega arith) in
    let last : store (pre ++ (length current % 256) ∷ (current ++ z ∷ rest))
          (dns + 1 + length current) 0
        ≡ ok (front ++ 0 ∷ rest) =
      store_at front z rest 0 (simp append_assoc)
        (omega (arith, length-append pre ((length current % 256) ∷ current))) in
    label_loop-dot done current [] pre old (z ∷ rest) more (suc fuel) b₀ t e l p d b (omega arith)
    ∙ rw (strlen_text text more t, ◌>>=◌, over, last) (simp (append_assoc, append-nil))
label_loop-split (v ∷ host) done current pre (b₀ ∷ old) rest more (suc fuel) z {text} {block} {i}
      {lock} {dns} t e l p d b n f =
    elim (Bool-cases (v == b'.')) [
      | inl dot ↦
          let v_is : v ≡ b'.' = ==→eq v b'.' dot in
          let first : Bytes = take (length current) old in
          let later : Bytes = drop (length current) old in
          let both : first ++ later ≡ old = take-append-drop (length current) old in
          let front : Bytes = pre ++ (length current % 256) ∷ current in
          let text_is : text ≡ done ++ (current ++ b'.' ∷ (host ++ b'.' ∷ [])) =
            e ∙ ap (λ (c : ℕ). done ++ (current ++ c ∷ (host ++ b'.' ∷ []))) v_is in
          let block_is : block ≡ pre ++ b₀ ∷ (first ++ (later ++ z ∷ rest)) =
            b ∙ ap (λ (o : Bytes). pre ++ b₀ ∷ (o ++ z ∷ rest)) (sym both) ∙ simp append_assoc in
          label_loop-dot done current (host ++ b'.' ∷ []) pre first (later ++ z ∷ rest) more fuel b₀
            t text_is l p d block_is (length-take_of_le (length current) old (omega arith))
          ∙ label_loop-split host (done ++ (current ++ b'.' ∷ [])) [] front later rest more fuel z t
              (text_is ∙ simp append_assoc)
              (omega (
                arith,
                length-append done (current ++ b'.' ∷ []),
                length-append current (b'.' ∷ []),
              ))
              (omega (
                arith,
                length-append done (current ++ b'.' ∷ []),
                length-append current (b'.' ∷ []),
              ))
              (omega (arith, length-append pre ((length current % 256) ∷ current)))
              (simp append_assoc) (omega (arith, length-drop (length current) old)) (omega arith)
          ∙ rw dot (simp append_assoc)
      | inr char ↦
          let len : length text ≡ length done + length current + 1 + (length host + 1) =
            ap length e
            ∙ omega (
              arith,
              length-append done (current ++ v ∷ (host ++ b'.' ∷ [])),
              length-append current (v ∷ (host ++ b'.' ∷ [])),
              length-append host (b'.' ∷ []),
            ) in
          let within : ltb i (length text) ≡ true = lt→ltb i (length text) (omega arith) in
          let whole : text ++ 0 ∷ more
              ≡ (done ++ current) ++ v ∷ ((host ++ b'.' ∷ []) ++ 0 ∷ more) =
            rw e (simp append_assoc) in
          let here : load (text ++ 0 ∷ more) i ≡ ok v =
            load_at (done ++ current) v ((host ++ b'.' ∷ []) ++ 0 ∷ more) whole
              (omega (arith, length-append done current)) in
          rw (strlen_text text more t, ◌>>=◌, within, here, char)
            (label_loop-split host done (current ++ v ∷ []) pre (b₀ ∷ old) rest more fuel z t
              (e ∙ simp append_assoc) l (omega (arith, length-append current (v ∷ []))) d b
              (omega (arith, length-append current (v ∷ []))) (omega arith))
    ]

-- If the block of the host name has room for a dot, and the block from `dns` on for the wire form
-- and a zero, and the name has no zero byte, `ChangetoDnsNameFormat` writes just these two, with
-- fuel for each character.
pub changeto_dns_name_format-split :
    (host more pre body rest : Bytes) (w z fuel : ℕ)
    → IsText host
    → length body ≡ length host + 1
    → length host + 1 < fuel
    → changeto_dns_name_format fuel (pre ++ (body ++ z ∷ rest)) (length pre) (host ++ 0 ∷ w ∷ more)
      ≡ ok (pre ++ (wire (split host) ++ 0 ∷ rest))
unfolding changeto_dns_name_format strcat_dot
changeto_dns_name_format-split host more pre body rest w z fuel t b f =
    let dot : store (host ++ 0 ∷ w ∷ more) (length host) b'.'
        ≡ ok ((host ++ b'.' ∷ []) ++ w ∷ more) =
      store_at host 0 (w ∷ more) b'.' refl refl ∙ simp append_assoc in
    let end : store ((host ++ b'.' ∷ []) ++ w ∷ more) (length host + 1) 0
        ≡ ok ((host ++ b'.' ∷ []) ++ 0 ∷ more) =
      store_at (host ++ b'.' ∷ []) w more 0 refl (omega (arith, length-append host (b'.' ∷ []))) in
    rw (strlen_text host (w ∷ more) t, ◌>>=◌, dot, end)
      (label_loop-split host [] [] pre body rest more fuel z
        (All-append _ host (b'.' ∷ []) t ((λ e. cc), tt)) refl (omega arith) (omega arith) refl refl
        (omega arith) f)
