-- ===== src/Asyncdns/Names/RoundTrip.antt =====
-- `read_name` as a whole, and after `change_to_dns_name_format`.
use shadowc.Base.{
  ℕ, zero, suc, ◌+◌, ◌%◌, ◌≤◌, ◌<◌, ◌≡◌, ◌≢◌, refl, ◌∙◌, ap, List, [], ◌∷◌, ◌++◌, Bytes, length,
  length-append, length-concat, append_assoc, drop, All, All-append, false, arith,
}
use native.Mathlib.Nat.{zero-add}
use shadowc.Memory.{ok, fault, out_of_bounds_write, no_fuel, ◌>>=◌, load, store, c_string}
use shadowc.Memory.Laws.{load_at, store_at, store-append, c_string_text}
use shadowc.Asyncdns.Names.{
  ReadState, read_loop, dot_loop, end_name, read_name, change_to_dns_name_format,
}
use shadowc.Asyncdns.Names.Labels.{
  wire, dots, joined, split, split_from, IsLabel, dots-joined, length-dots, joined-IsText,
  joined-split, length-wire-split,
}
use shadowc.Asyncdns.Names.Formatting.{change_to_dns_name_format-split}
use shadowc.Asyncdns.Names.Dotting.{dot_loop-dots}
use shadowc.Asyncdns.Names.Reading.{
  Encodes, Reads, stop, byte, read_loop-Encodes, read_loop_cycle, final_count, IsCycle,
}

-- The state in which the first loop begins.
abbrev start : Bytes → ReadState
start block = record { name = block; p = 0; jumped = false; count = 1 }

end_name-joined :
    (l : Bytes) (ls : List Bytes) (post : Bytes)
    → end_name (length (wire (l ∷ ls))) (dots (l ∷ ls) ++ post) ≡ ok (joined (l ∷ ls) ++ 0 ∷ post)
unfolding end_name wire
end_name-joined l ls post =
    store_at (joined (l ∷ ls)) b'.' post 0
      (rw (dots-joined l ls) (append_assoc (joined (l ∷ ls)) _ _))
      (omega (
        arith,
        length-dots (l ∷ ls),
        ap length (dots-joined l ls),
        length-append (joined (l ∷ ls)) (b'.' ∷ []),
        ap length (wire_cons l ls),
      ))
  where
    wire_cons : (l : Bytes) (ls : List Bytes) → wire (l ∷ ls) ≡ (length l % 256) ∷ (l ++ wire ls)
    wire_cons l ls = refl

labels-le-wire : (ls : List Bytes) → length ls ≤ length (wire ls)
unfolding wire
labels-le-wire [] = omega arith
labels-le-wire (l ∷ ls) = omega (arith, labels-le-wire ls, length-append l (wire ls))

dot_loop-joined :
    (l : Bytes) (ls : List Bytes) (junk : Bytes)
    → All IsLabel (l ∷ ls)
    → dot_loop (length (wire (l ∷ ls) ++ 0 ∷ junk) + 1) 0 (wire (l ∷ ls) ++ 0 ∷ junk)
      ≡ ok (0 + length (wire (l ∷ ls)), dots (l ∷ ls) ++ 0 ∷ junk)
dot_loop-joined l ls junk v =
    dot_loop-dots (l ∷ ls) [] junk _ tt v
      (omega (arith, labels-le-wire (l ∷ ls), length-append (wire (l ∷ ls)) (0 ∷ junk))) refl refl

-- Splits a block behind its first `n` bytes.
drop-cons : (n : ℕ) (b : Bytes) → n < length b → (y : ℕ) × (ys : Bytes) × (drop n b ≡ y ∷ ys)
drop-cons n [] h = elim h [ ]
drop-cons zero (x ∷ b) h = (x, b, refl)
drop-cons (suc n) (x ∷ b) h = drop-cons n b (omega arith)

-- The rest of `read_name` behind its first loop.
read_name-Reads :
    (buffer : Bytes) (b : ℕ) (block : Bytes) (fuel pos used : ℕ) (l : Bytes) (ls : List Bytes)
    (t : ReadState)
    → read_loop fuel buffer pos (start (0 ∷ block)) ≡ ok t
    → Reads (start (0 ∷ block)) [] (0 ∷ block) (wire (l ∷ ls)) used t
    → All IsLabel (l ∷ ls)
    → length (wire (l ∷ ls)) ≤ length block
    → (name : Bytes) × (read_name fuel buffer pos (b ∷ block) ≡ ok (name, used))
      × (c_string name ≡ ok (joined (l ∷ ls)))
unfolding read_name
read_name-Reads buffer b block fuel pos used l ls t run d v r =
    let raw : Bytes = wire (l ∷ ls) in
    let cleared : store (b ∷ block) 0 0 ≡ ok (0 ∷ block) = store-append [] b block 0 in
    let (y, ys, tail) = drop-cons (length raw) (0 ∷ block) (omega arith) in
    let name : t.name ≡ raw ++ y ∷ ys = d.name_is ∙ ap (◌++◌ raw) tail in
    let ended : store t.name t.p 0 ≡ ok (raw ++ 0 ∷ ys) =
      store_at raw y ys 0 name (omega (arith, d.p_is)) in
    let last : end_name (0 + length raw) (dots (l ∷ ls) ++ 0 ∷ ys)
        ≡ ok (joined (l ∷ ls) ++ 0 ∷ 0 ∷ ys) =
      rw zero-add (end_name-joined l ls (0 ∷ ys)) in
    let result : Bytes = joined (l ∷ ls) ++ 0 ∷ 0 ∷ ys in
    (
      result,
      rw (cleared, run, ended, dot_loop-joined l ls ys v, ◌>>=◌, last)
          (ap (λ (n : ℕ). ok (result, n)) d.count_is),
      c_string_text _ _ (joined-IsText (l ∷ ls) v),
    )

-- A name of one or more proper labels that a message encodes in `steps` steps, compressed or not,
-- and whose wire form is shorter than the block, is read back as its dotted text with fuel for the
-- steps, and `*count` is the number of bytes that it takes up where it stands.
pub read_name-Encodes :
    (buffer block : Bytes) (fuel pos : ℕ) {used steps : ℕ} (names : List Bytes)
    → Encodes buffer pos (wire names) used steps
    → All IsLabel names
    → names ≢ []
    → length (wire names) < length block
    → steps ≤ fuel
    → (name : Bytes) × (read_name fuel buffer pos block ≡ ok (name, used))
      × (c_string name ≡ ok (joined names))
read_name-Encodes buffer block fuel pos [] e v ne r f = absurd (ne refl)
read_name-Encodes buffer [] fuel pos (l ∷ ls) e v ne r f = absurd (omega arith)
read_name-Encodes buffer (b ∷ block) fuel pos {used} (l ∷ ls) e v ne r f =
    let (t, run, d) =
      read_loop-Encodes e fuel [] (0 ∷ block) (start (0 ∷ block)) f refl refl (omega arith) in
    let count : final_count t ≡ used = d.count_is ∙ omega arith in
    read_name-Reads buffer b block fuel pos used l ls t run
      (record { name_is = d.name_is; p_is = d.p_is; count_is = count }) v (omega arith)

-- A run of plain bytes with a zero behind it encodes itself.
pub plain-Encodes :
    (pre raw post : Bytes) {buffer : Bytes}
    → buffer ≡ pre ++ (raw ++ 0 ∷ post)
    → All (λ c. (0 < c) × (c < 192)) raw
    → Encodes buffer (length pre) raw (suc (length raw)) (suc (length raw))
plain-Encodes pre [] post e h = stop (load_at pre 0 post e refl)
plain-Encodes pre (c ∷ raw) post {buffer} e (h, hs) =
    byte (load_at pre c (raw ++ 0 ∷ post) e refl) h.0 h.1 (
      let next : length (pre ++ c ∷ []) ≡ length pre + 1 = length-concat pre c in
      rw next at
        (plain-Encodes (pre ++ c ∷ []) raw post {buffer = buffer} (e ∙ simp append_assoc) hs))

pub wire-plain : (ls : List Bytes) → All IsLabel ls → All (λ c. (0 < c) × (c < 192)) (wire ls)
unfolding wire
wire-plain [] v = tt
wire-plain (l ∷ ls) (v, vs) = (
  (omega (arith, v.nonempty, v.short), omega (arith, v.short)),
  All-append _ l _ v.plain (wire-plain ls vs),
)

-- The labels of a name are never an empty list.
pub split_from-ne-nil : (current host : Bytes) → split_from current host ≢ []
unfolding split_from
split_from-ne-nil current [] h = cc
split_from-ne-nil current (c ∷ host) h = ground (arith, split_from-ne-nil (current ++ c ∷ []) host)

-- If `host` is the dotted form of proper labels, fits into the block that `read_name` allocates,
-- and the byte behind the place of its wire form is zero, then `change_to_dns_name_format` writes a
-- message from which `read_name`, with fuel for each byte, reads `host` back, and counts its length
-- and 2.
pub read_name-change_to_dns_name_format :
    (host pre body rest block : Bytes) (last fuel : ℕ)
    → All IsLabel (split host)
    → length body ≡ length host + 1
    → length host + 1 < length block
    → length host + 2 ≤ fuel
    → (message : Bytes) × (name : Bytes) × (change_to_dns_name_format
          (pre ++ (body ++ 0 ∷ last ∷ rest))
          (length pre)
          host
        ≡ ok message)
      × (read_name fuel message (length pre) block ≡ ok (name, length host + 2))
      × (c_string name ≡ ok host)
read_name-change_to_dns_name_format host pre body rest block last fuel v b r f =
    let message : Bytes = pre ++ (wire (split host) ++ 0 ∷ 0 ∷ rest) in
    let size = length-wire-split host in
    let steps : suc (length (wire (split host))) ≡ length host + 2 = omega arith in
    let encoded : Encodes message (length pre) (wire (split host)) (length host + 2)
        (length host + 2) =
      rw steps at
        (plain-Encodes pre (wire (split host)) (0 ∷ rest) refl (wire-plain (split host) v)) in
    let (name, run, text) =
      read_name-Encodes message block fuel (length pre) (split host) encoded v
        (split_from-ne-nil [] host) (omega arith) f in
    (
      message,
      name,
      change_to_dns_name_format-split host pre body 0 last rest b,
      run,
      text ∙ ap ok (joined-split host),
    )

-- Where the message has the root name, a single byte 0, `read_name` writes to the byte in front of
-- its block, if the block is not empty.
pub read_name_root :
    (buffer block : Bytes) (fuel pos : ℕ)
    → load buffer pos ≡ ok 0
    → 0 < length block
    → read_name (suc fuel) buffer pos block ≡ fault out_of_bounds_write
unfolding read_name wire dots
read_name_root buffer [] fuel pos r h = elim h [ ]
read_name_root buffer (b ∷ block) fuel pos r h =
    let loop : dot_loop (length (0 ∷ block) + 1) 0 (0 ∷ block) ≡ ok (0, 0 ∷ block) =
      dot_loop-dots [] [] block (length (0 ∷ block) + 1) tt tt (omega arith) refl refl in
    rw (store-append [] b block 0, r, ◌>>=◌, store-append [] 0 block 0, loop)

-- In a set of positions with a compression pointer at each that leads to a position of the set,
-- `read_name` follows pointers for ever: no fuel is enough, if its block is not empty.
pub read_name_cycle :
    (buffer block : Bytes) (P : ℕ → Type 0)
    → IsCycle buffer P
    → (fuel pos : ℕ) → P pos
    → 0 < length block
    → read_name fuel buffer pos block ≡ no_fuel
unfolding read_name
read_name_cycle buffer [] P next fuel pos h r = elim r [ ]
read_name_cycle buffer (b ∷ block) P next fuel pos h r =
    rw (store-append [] b block 0, read_loop_cycle buffer P next fuel pos _ h)
