-- ===== src/Asyncdns/Names/Reading.antt =====
-- The first loop of `read_name`, against the names that RFC 1035 encodes.
use shadowc.Base.{
  ℕ, zero, suc, ◌+◌, ◌-◌, ◌*◌, ◌≤◌, ◌<◌, ◌≡◌, refl, ◌∙◌, [], ◌∷◌, ◌++◌, Bytes, length,
  length-append, append_assoc, drop, true, if◌then◌else◌, ne→==, le→leb, lt→leb, arith,
}
use shadowc.Memory.{ok, no_fuel, ◌>>=◌, load, store}
use shadowc.Memory.Laws.{store_at}
use shadowc.Asyncdns.Names.{ReadState, read_loop}

-- `Encodes pos raw used steps`: the name at `pos` of the message spells `raw` (in 3www form,
-- without the final zero), possibly through pointers; its own bytes there are `used` many, and the
-- loop takes `steps` rounds.
pub data Encodes (buffer : Bytes) : ℕ → Bytes → ℕ → ℕ → Type 0 where
  stop : {pos : ℕ} → load buffer pos ≡ ok 0 → Encodes buffer pos [] 1 1
  byte :
      {pos c used steps : ℕ} {raw : Bytes}
      → load buffer pos ≡ ok c
      → 0 < c
      → c < 192
      → Encodes buffer (pos + 1) raw used steps
      → Encodes buffer pos (c ∷ raw) (suc used) (suc steps)
  pointer :
      {pos c low used steps : ℕ} {raw : Bytes}
      → load buffer pos ≡ ok c
      → 192 ≤ c
      → load buffer (pos + 1) ≡ ok low
      → Encodes buffer (c * 256 + low - 49152) raw used steps
      → Encodes buffer pos raw 2 (suc steps)

-- What `*count` will be.
abbrev pub final_count : ReadState → ℕ
final_count s = if s.jumped then s.count + 1 else s.count

-- Reading `raw` from state `s`, with `count` bytes counted in the end.
pub record Reads (s : ReadState) (pre junk raw : Bytes) (count : ℕ) (t : ReadState) : Type 0 where
  pub name_is : t.name ≡ pre ++ (raw ++ drop (length raw) junk)
  pub p_is : t.p ≡ s.p + length raw
  pub count_is : final_count t ≡ count

-- One round on each kind of byte.
read_loop_stop :
    (fuel : ℕ) (buffer : Bytes) (pos : ℕ) (s : ReadState)
    → load buffer pos ≡ ok 0
    → read_loop (suc fuel) buffer pos s ≡ ok s
unfolding read_loop
read_loop_stop fuel buffer pos s r = rw r

read_loop_pointer :
    (fuel : ℕ) (buffer : Bytes) (pos c low : ℕ) (s : ReadState)
    → load buffer pos ≡ ok c
    → 192 ≤ c
    → load buffer (pos + 1) ≡ ok low
    → read_loop (suc fuel) buffer pos s
      ≡ read_loop fuel buffer (c * 256 + low - 49152) (record s { jumped = true })
unfolding read_loop
read_loop_pointer fuel buffer pos c low s r h r' =
    rw (r, ◌>>=◌, ne→== c 0 (λ e. omega arith), le→leb 192 c h, r')

read_loop_byte :
    (fuel : ℕ) (buffer : Bytes) (pos c : ℕ) (s : ReadState) (name : Bytes)
    → load buffer pos ≡ ok c
    → 0 < c
    → c < 192
    → store s.name s.p c ≡ ok name
    → read_loop (suc fuel) buffer pos s
      ≡ read_loop fuel buffer
          (pos + 1)
          (record s { name = name; p = s.p + 1; count = if s.jumped then s.count else s.count + 1 })
unfolding read_loop
read_loop_byte fuel buffer pos c s name r h k w =
    rw (r, ◌>>=◌, ne→== c 0 (λ e. omega arith), lt→leb 192 c k, w)

-- The bytes that the loop has counted when it ends, if it starts in `s`.
abbrev pub counted : ReadState → ℕ → ℕ
counted s used = if s.jumped then s.count + 1 else s.count + used - 1

Encodes-pos :
    {buffer : Bytes} {pos used steps : ℕ} {raw : Bytes}
    → Encodes buffer pos raw used steps
    → 0 < steps
Encodes-pos (stop r) = omega arith
Encodes-pos (byte r h k e) = omega arith
Encodes-pos (pointer r h r' e) = omega arith

pub read_loop-Encodes :
    {buffer : Bytes} {pos used steps : ℕ} {raw : Bytes}
    → Encodes buffer pos raw used steps
    → (fuel : ℕ) (pre junk : Bytes) (s : ReadState) → steps ≤ fuel
    → s.name ≡ pre ++ junk
    → s.p ≡ length pre
    → length raw ≤ length junk
    → (t : ReadState) × (read_loop fuel buffer pos s ≡ ok t)
      × Reads s pre junk raw (counted s used) t
read_loop-Encodes e zero pre junk s f n p l = absurd (omega (arith, Encodes-pos e))
read_loop-Encodes (stop r) (suc fuel) pre junk s f n p l = (
  s,
  read_loop_stop fuel _ _ s r,
  record { name_is = n; p_is = omega arith; count_is = ground arith },
)
read_loop-Encodes {buffer} {pos} (byte {c} r h k e) (suc fuel) pre [] s f n p l =
    absurd (omega arith)
read_loop-Encodes {buffer} {pos} (byte {c} {used} {raw} r h k e) (suc fuel) pre (j ∷ junk) s f n p
      l =
    let w = store_at pre j junk c n p in
    let s' : ReadState = record s {
      name = pre ++ c ∷ junk;
      p = s.p + 1;
      count = if s.jumped then s.count else s.count + 1;
    } in
    let (t, run, d) =
      read_loop-Encodes {pos = pos + 1} e fuel (pre ++ c ∷ []) junk s' (omega arith)
        (simp append_assoc) (omega (arith, length-append pre (c ∷ []))) (omega arith) in
    (
      t,
      read_loop_byte fuel buffer pos c s _ r h k w ∙ run,
      record {
        name_is = d.name_is ∙ simp append_assoc;
        p_is = omega (arith, d.p_is);
        count_is = d.count_is ∙ ground arith;
      },
    )
read_loop-Encodes {buffer} {pos} (pointer {c} {low} r h r' e) (suc fuel) pre junk s f n p l =
    let s' : ReadState = record s { jumped = true } in
    let (t, run, d) =
      read_loop-Encodes {pos = c * 256 + low - 49152} e fuel pre junk s' (omega arith) n p l in
    (
      t,
      read_loop_pointer fuel buffer pos c low s r h r' ∙ run,
      record { name_is = d.name_is; p_is = d.p_is; count_is = d.count_is ∙ ground arith },
    )

-- A set of positions with a compression pointer at each that leads to a position of the set.
abbrev pub IsCycle : Bytes → (ℕ → Type 0) → Type 0
IsCycle message P =
    (pos : ℕ)
    → P pos
    → (c : ℕ) × (low : ℕ) × (load message pos ≡ ok c)
      × (192 ≤ c)
      × (load message (pos + 1) ≡ ok low)
      × P (c * 256 + low - 49152)

-- Where every position of a set holds a pointer back into the set, the loop has no end.
pub read_loop_cycle :
    (buffer : Bytes) (P : ℕ → Type 0)
    → IsCycle buffer P
    → (fuel pos : ℕ) (s : ReadState) → P pos
    → read_loop fuel buffer pos s ≡ no_fuel
unfolding read_loop
read_loop_cycle buffer P next zero pos s h = refl
read_loop_cycle buffer P next (suc fuel) pos s h =
    let (c, low, r, k, r', h') = next pos h in
    read_loop_pointer fuel buffer pos c low s r k r' ∙ read_loop_cycle buffer P next fuel _ _ h'
