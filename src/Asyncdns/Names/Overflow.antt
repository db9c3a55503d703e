-- ===== src/Asyncdns/Names/Overflow.antt =====
-- Names that do not fit where `change_to_dns_name_format` writes them.
use shadowc.Base.{ℕ, ◌+◌, ◌%◌, ◌≤◌, ◌≡◌, inl, inr, [], ◌∷◌, Bytes, length, ◌==◌, Bool-cases, arith}
use shadowc.Memory.{fault, out_of_bounds_write, ◌>>=◌}
use shadowc.Memory.Laws.{store-cases, store_out_of_bounds}
use shadowc.Asyncdns.Names.{format_loop, change_to_dns_name_format}

-- The loop only writes, so it ends well or out of bounds; with its last write outside it is the
-- latter.
format_loop_overflow :
    (host block : Bytes) (dns label_len label_len_ptr : ℕ)
    → length block ≤ dns + length host + 1
    → format_loop host dns label_len label_len_ptr block ≡ fault out_of_bounds_write
unfolding format_loop
format_loop_overflow [] block dns label_len ptr h = elim (store-cases block ptr label_len) [
  | inl (b, e, l) ↦ rw (e, ◌>>=◌) (store_out_of_bounds b (dns + 1) 0 (omega arith))
  | inr e ↦ rw e
]
format_loop_overflow (v ∷ host) block dns label_len ptr h = elim (Bool-cases (v == b'.')) [
  | inl dot ↦ elim (store-cases block ptr label_len) [
    | inl (b, e, l) ↦
        rw (dot, format_loop, e) (format_loop_overflow host b (dns + 1) 0 dns (omega arith))
    | inr e ↦ rw (dot, format_loop, e)
  ]
  | inr char ↦ elim (store-cases block dns v) [
    | inl (b, e, l) ↦
        rw (char, format_loop, e)
          (format_loop_overflow host b (dns + 1) ((label_len + 1) % 256) ptr (omega arith))
    | inr e ↦ rw (char, format_loop, e)
  ]
]

pub change_to_dns_name_format_overflow :
    (host block : Bytes) (dns : ℕ)
    → length block ≤ dns + length host + 2
    → change_to_dns_name_format block dns host ≡ fault out_of_bounds_write
unfolding change_to_dns_name_format
change_to_dns_name_format_overflow host block dns h =
    format_loop_overflow host block (dns + 1) 0 dns (omega arith)
