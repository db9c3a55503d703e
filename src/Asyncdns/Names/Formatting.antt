-- ===== src/Asyncdns/Names/Formatting.antt =====
-- What `change_to_dns_name_format` leaves in the block.
use shadowc.Base.{
  ℕ, ◌+◌, ◌%◌, ◌≡◌, refl, ◌∙◌, inl, inr, [], ◌∷◌, ◌++◌, Bytes, length, length-append, append_assoc,
  append-nil, ◌==◌, Bool-cases, arith,
}
use shadowc.Memory.{ok, store}
use shadowc.Memory.Laws.{store_at}
use shadowc.Asyncdns.Names.{format_loop, change_to_dns_name_format}
use shadowc.Asyncdns.Names.Labels.{split_from, split, wire}

-- The loop with a label `current` begun behind its length byte `hole`, and `host` to go. The byte
-- `stale` behind the name stays, and the one behind it is cleared.
format_loop-split :
    (host pre current mid : Bytes) (hole stale z : ℕ) (rest : Bytes) {block : Bytes}
    {dns label_len label_len_ptr : ℕ}
    → length mid ≡ length host
    → block ≡ pre ++ hole ∷ (current ++ (mid ++ stale ∷ z ∷ rest))
    → label_len_ptr ≡ length pre
    → dns ≡ length pre + 1 + length current
    → label_len ≡ length current % 256
    → format_loop host dns label_len label_len_ptr block
      ≡ ok (pre ++ (wire (split_from current host) ++ stale ∷ 0 ∷ rest))
unfolding format_loop split_from wire
format_loop-split [] pre current [] hole stale z rest {block} {dns} {label_len} {label_len_ptr} m e
      p d l =
    let len : ℕ = length current % 256 in
    let first : store block label_len_ptr label_len
        ≡ ok (pre ++ len ∷ (current ++ stale ∷ z ∷ rest)) =
      rw l (store_at pre hole (current ++ stale ∷ z ∷ rest) len e p) in
    let second : store (pre ++ len ∷ (current ++ stale ∷ z ∷ rest)) (dns + 1) 0
        ≡ ok ((pre ++ len ∷ (current ++ stale ∷ [])) ++ 0 ∷ rest) =
      store_at (pre ++ len ∷ (current ++ stale ∷ [])) z rest 0 (simp append_assoc) (
        omega (
          arith,
          length-append pre (len ∷ (current ++ stale ∷ [])),
          length-append current (stale ∷ []),
        )) in
    rw (first, second) (simp (append_assoc, append-nil))
format_loop-split [] pre current (x ∷ mid) hole stale z rest m e p d l = absurd (omega arith)
format_loop-split (v ∷ host) pre current [] hole stale z rest m e p d l = absurd (omega arith)
format_loop-split (v ∷ host) pre current (x ∷ mid) hole stale z rest {block} {dns} {label_len}
      {label_len_ptr} m e p d l =
    let after : Bytes = mid ++ stale ∷ z ∷ rest in
    let len : ℕ = length current % 256 in
    elim (Bool-cases (v == b'.')) [
      | inl dot ↦
          let first : store block label_len_ptr label_len
              ≡ ok (pre ++ len ∷ (current ++ x ∷ after)) =
            rw l (store_at pre hole (current ++ x ∷ after) len e p) in
          rw (dot, format_loop, first)
            (format_loop-split host (pre ++ len ∷ current) [] mid x stale z rest (omega arith)
                (simp append_assoc) (omega (arith, length-append pre (len ∷ current)))
                (omega (arith, length-append pre (len ∷ current))) refl
              ∙ simp append_assoc)
      | inr char ↦
          let first : store block dns v ≡ ok ((pre ++ hole ∷ current) ++ v ∷ after) =
            store_at (pre ++ hole ∷ current) x after v (e ∙ simp append_assoc)
              (omega (arith, length-append pre (hole ∷ current))) in
          rw (char, format_loop, first)
            (format_loop-split host pre (current ++ v ∷ []) mid hole stale z rest (omega arith)
              (simp append_assoc) p (omega (arith, length-append current (v ∷ [])))
              (omega (arith, length-append current (v ∷ []))))
    ]

-- On a block with room for it, the wire form of the host's labels is written from `dns` on, the
-- byte behind it keeps its old value `stale`, the byte behind that is cleared, and all others stay
-- as they are.
pub change_to_dns_name_format-split :
    (host pre body : Bytes) (stale last : ℕ) (rest : Bytes)
    → length body ≡ length host + 1
    → change_to_dns_name_format (pre ++ (body ++ stale ∷ last ∷ rest)) (length pre) host
      ≡ ok (pre ++ (wire (split host) ++ stale ∷ 0 ∷ rest))
unfolding change_to_dns_name_format
change_to_dns_name_format-split host pre [] stale last rest h = absurd (omega arith)
change_to_dns_name_format-split host pre (hole ∷ mid) stale last rest h =
    format_loop-split host pre [] mid hole stale last rest (omega arith) refl refl (omega arith)
      refl
