-- ===== src/Asyncdns/Query/Fitting.antt =====
-- Names short enough for the buffer, whatever it held.
use shadowc.Base.{
  ℕ, ◌+◌, ◌≤◌, ◌≡◌, refl, ◌∙◌, sym, ap, inl, inr, [], ◌∷◌, ◌++◌, Bytes, length, take, drop,
  take-append-drop, length-take_of_le, length-drop, ◌==◌, ==→eq, append-nil, Bool-cases, arith,
}
use shadowc.Memory.{ok}
use shadowc.Memory.Laws.{IsText}
use shadowc.Asyncdns.Header.{encode}
use shadowc.Asyncdns.Names.Labels.{wire, split}
use shadowc.Asyncdns.Query.{query_header, question, build_query}
use shadowc.Asyncdns.Query.Packet.{build_query_clean, build_query_stale}

-- A block cut behind its first `n` bytes.
pub record Cut (n : ℕ) (block : Bytes) : Type 0 where
  pub front : Bytes
  pub back : Bytes
  pub whole : block ≡ front ++ back
  pub front_len : length front ≡ n
  pub back_len : length back + n ≡ length block

pub cut : (n : ℕ) (block : Bytes) → n ≤ length block → Cut n block
cut n block h = record {
  front = take n block;
  back = drop n block;
  whole = sym (take-append-drop n block);
  front_len = length-take_of_le n block h;
  back_len = omega (arith, length-drop n block);
}

-- A buffer laid out for a name of `n` characters: the header's place, the name's, two bytes behind
-- it, and the rest.
record Layout (n : ℕ) (buf : Bytes) : Type 0 where
  old : Bytes
  body : Bytes
  stale : ℕ
  last : ℕ
  tail : Bytes
  whole : buf ≡ old ++ (body ++ stale ∷ last ∷ tail)
  old_len : length old ≡ 12
  body_len : length body ≡ n + 1
  tail_len : length tail + n + 15 ≡ length buf

two_more : (b : Bytes) → 2 ≤ length b → (x : ℕ) × (y : ℕ) × (t : Bytes) × (b ≡ x ∷ y ∷ t)
two_more [] h = absurd (omega arith)
two_more (x ∷ []) h = absurd (omega arith)
two_more (x ∷ y ∷ t) h = (x, y, t, refl)

layout : (n : ℕ) (buf : Bytes) → n + 15 ≤ length buf → Layout n buf
layout n buf h =
    let head = cut 12 buf (omega arith) in
    let name = cut (n + 1) head.back (omega (arith, head.back_len)) in
    let (stale, last, tail, e) = two_more name.back (omega (arith, head.back_len, name.back_len)) in
    record {
      old = head.front;
      body = name.front;
      stale = stale;
      last = last;
      tail = tail;
      whole = head.whole ∙ ap (◌++◌ head.front) (name.whole ∙ ap (◌++◌ name.front) e);
      old_len = head.front_len;
      body_len = name.front_len;
      tail_len = omega (arith, head.back_len, name.back_len, ap length e);
    }

-- A host name of at most 109 characters whose wire form has no zero byte is asked for, whatever the
-- buffer of 128 bytes held: as its wire form, or as that with one byte more.
pub build_query_fits :
    (pid query_type : ℕ) (buf hostname : Bytes)
    → length buf ≡ 128
    → length hostname ≤ 109
    → IsText (wire (split hostname))
    → (extra : Bytes) × (build_query pid buf hostname query_type
        ≡ ok (
            encode (query_header pid)
            ++ ((wire (split hostname) ++ extra) ++ 0 ∷ question query_type)))
      × (length extra ≤ 1)
build_query_fits pid query_type buf hostname b h t =
    let l = layout (length hostname) buf (omega arith) in
    elim (Bool-cases (l.stale == 0)) [
      | inl zeroed ↦
          let room = cut 3 l.tail (omega (arith, l.tail_len)) in
          let laid : buf ≡ l.old ++ (l.body ++ 0 ∷ l.last ∷ (room.front ++ room.back)) =
            l.whole
            ∙ ap (λ (x : ℕ). l.old ++ (l.body ++ x ∷ l.last ∷ l.tail)) (==→eq l.stale 0 zeroed)
            ∙ ap (λ (t : Bytes). l.old ++ (l.body ++ 0 ∷ l.last ∷ t)) room.whole in
          (
            [],
            ap (λ (b : Bytes). build_query pid b hostname query_type) laid
                ∙ build_query_clean pid query_type hostname l.old l.body room.front room.back t
                    l.old_len l.body_len room.front_len l.last
                ∙ ap
                    (λ (n : Bytes).
                      ok (encode (query_header pid) ++ (n ++ 0 ∷ question query_type)))
                    (sym (append-nil (wire (split hostname)))),
            omega arith,
          )
      | inr stale ↦
          let room = cut 4 l.tail (omega (arith, l.tail_len)) in
          let laid : buf ≡ l.old ++ (l.body ++ l.stale ∷ l.last ∷ (room.front ++ room.back)) =
            l.whole ∙ ap (λ (t : Bytes). l.old ++ (l.body ++ l.stale ∷ l.last ∷ t)) room.whole in
          (
            l.stale ∷ [],
            ap (λ (b : Bytes). build_query pid b hostname query_type) laid
                ∙ build_query_stale pid query_type l.stale hostname l.old l.body room.front
                    room.back t (λ z. absurd (ground (arith, stale, z))) l.old_len l.body_len
                    room.front_len l.last,
            omega arith,
          )
    ]
