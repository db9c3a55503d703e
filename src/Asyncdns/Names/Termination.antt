-- ===== src/Asyncdns/Names/Termination.antt =====
-- When `read_name` comes to an end: on every message whose compression pointers have no cycle.
use shadowc.Base.{
  ℕ, zero, suc, ◌+◌, ◌-◌, ◌*◌, ◌≤◌, ◌<◌, ◌≡◌, ◌≢◌, inl, inr, Bytes, length, Bool-cases, ◌==◌, leb,
  arith, true,
}
use shadowc.Memory.{ok, no_fuel, load, store}
use shadowc.Memory.Laws.{store-lt, length-store, store-ne-no_fuel, load-ne-no_fuel, >>=-ne-no_fuel}
use shadowc.Asyncdns.Names.{ReadState, read_loop, dot_loop, end_name, read_name}
use shadowc.Asyncdns.Names.Dotting.{dot_loop-ne-no_fuel}

-- A rank of the positions, at most `bound`, that falls at each compression pointer.
pub record IsAcyclic (buffer : Bytes) (rank : ℕ → ℕ) (bound : ℕ) : Type 0 where
  pub bounded : (pos : ℕ) → rank pos ≤ bound
  pub falls :
      (pos c low : ℕ)
      → load buffer pos ≡ ok c
      → 192 ≤ c
      → load buffer (pos + 1) ≡ ok low
      → rank (c * 256 + low - 49152) < rank pos

-- Rounds that are enough for a name that is read at `pos` into `room` bytes.
abbrev pub rounds : ℕ → ℕ → ℕ
rounds bound room = room * suc bound + bound + 1

one_less : (n m : ℕ) → 0 < n → (n - 1) * m + m ≡ n * m
one_less zero m h = elim h [ ]
one_less (suc n) m h = grind arith

module _ {buffer : Bytes} {rank : ℕ → ℕ} {bound : ℕ} (a : IsAcyclic buffer rank bound) where
  read_loop-ne-no_fuel :
      (fuel room pos : ℕ) (s : ReadState)
      → length s.name ≤ s.p + room
      → room * suc bound + rank pos < fuel
      → read_loop fuel buffer pos s ≢ no_fuel
  unfolding read_loop
  read_loop-ne-no_fuel zero room pos s r f = absurd (omega arith)
  read_loop-ne-no_fuel (suc fuel) room pos s r f =
      >>=-ne-no_fuel (load buffer pos) _ (load-ne-no_fuel buffer pos) λ c l.
        elim (Bool-cases (c == 0)) [
          | inl stop ↦ rw stop (λ e. cc)
          | inr go ↦ elim (Bool-cases (leb 192 c)) [
            | inl jump ↦
                rw (go, jump)
                  (>>=-ne-no_fuel (load buffer (pos + 1)) _ (load-ne-no_fuel buffer (pos + 1))
                    λ low l'.
                      let large : 192 ≤ c = ground arith in
                      read_loop-ne-no_fuel fuel room _ (record s { jumped = true }) r
                        (omega (arith, a.falls pos c low l large l')))
            | inr plain ↦
                rw (go, plain)
                  (>>=-ne-no_fuel (store s.name s.p c) _ (store-ne-no_fuel s.name s.p c) λ name w.
                    let fits = store-lt s.name s.p c w in
                    read_loop-ne-no_fuel fuel (room - 1) (pos + 1) _
                      (omega (arith, length-store s.name s.p c w))
                      (omega (arith, a.bounded (pos + 1), one_less room (suc bound) (omega arith))))
          ]
        ]

  -- `read_name` ends on a message without a cycle of pointers.
  pub read_name-ne-no_fuel :
      (fuel pos : ℕ) (block : Bytes)
      → rounds bound (length block) ≤ fuel
      → read_name fuel buffer pos block ≢ no_fuel
  unfolding read_name end_name
  read_name-ne-no_fuel fuel pos block f =
      >>=-ne-no_fuel (store block 0 0) _ (store-ne-no_fuel block 0 0) λ cleared w.
        >>=-ne-no_fuel (read_loop fuel buffer pos _) _
          (read_loop-ne-no_fuel fuel (length block) pos _ (omega (arith, length-store block 0 0 w))
            (omega (arith, a.bounded pos)))
          λ s _. >>=-ne-no_fuel (store s.name s.p 0) _ (store-ne-no_fuel s.name s.p 0) λ name _.
            >>=-ne-no_fuel (dot_loop (length name + 1) 0 name) _
              (dot_loop-ne-no_fuel (length name + 1) 0 name (omega arith) (omega arith))
              λ (i, dotted) _.
                >>=-ne-no_fuel (end_name i dotted) _ (end_name-ne-no_fuel i dotted) λ r _ e. cc
    where
      end_name-ne-no_fuel : (i : ℕ) (name : Bytes) → end_name i name ≢ no_fuel
      end_name-ne-no_fuel zero name = λ e. cc
      end_name-ne-no_fuel (suc i) name = store-ne-no_fuel name i 0
