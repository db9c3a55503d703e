-- ===== src/Asyncdns/Names/Labels.antt =====
-- What the two name formats mean: a name is a list of labels.
use shadowc.Base.{
  ◌+◌, ◌%◌, ◌<◌, ◌≡◌, refl, sym, inl, inr, List, [], ◌∷◌, ◌++◌, Bytes, length, All, All-append,
  length-append, append_assoc, append-nil, ◌==◌, if◌then◌else◌, Bool-cases, ==→eq, arith,
}
use shadowc.Memory.Laws.{IsText}

-- The labels of a dotted name, the first of them begun with `current`.
unfoldable pub split_from : Bytes → Bytes → List Bytes
split_from current [] = current ∷ []
split_from current (c ∷ host) =
    if c == b'.' then current ∷ split_from [] host else split_from (current ++ c ∷ []) host

abbrev pub split : Bytes → List Bytes
split = split_from []

-- 3www6google3com: each label behind its length, in one byte.
unfoldable pub wire : List Bytes → Bytes
wire [] = []
wire (l ∷ ls) = (length l % 256) ∷ (l ++ wire ls)

-- www.google.com
unfoldable pub joined : List Bytes → Bytes
joined [] = []
joined (l ∷ []) = l
joined (l ∷ m ∷ ls) = l ++ b'.' ∷ joined (m ∷ ls)

-- www.google.com., with a dot behind each label.
unfoldable pub dots : List Bytes → Bytes
dots [] = []
dots (l ∷ ls) = l ++ b'.' ∷ dots ls

-- A label that `read_name` reads back: neither its length nor its bytes look like a pointer.
pub record IsLabel (l : Bytes) : Type 0 where
  pub nonempty : 0 < length l
  pub short : length l < 192
  pub plain : All (λ c. (0 < c) × (c < 192)) l

pub dots-joined : (l : Bytes) (ls : List Bytes) → dots (l ∷ ls) ≡ joined (l ∷ ls) ++ b'.' ∷ []
unfolding dots joined
dots-joined l [] = refl
dots-joined l (m ∷ ls) = rw (dots-joined m ls) (sym (append_assoc l _ _))

pub length-dots : (ls : List Bytes) → length (dots ls) ≡ length (wire ls)
unfolding dots wire
length-dots [] = refl
length-dots (l ∷ ls) =
    omega (arith, length-dots ls, length-append l (b'.' ∷ dots ls), length-append l (wire ls))

plain-IsText : (l : Bytes) → All (λ c. (0 < c) × (c < 192)) l → IsText l
plain-IsText [] h = tt
plain-IsText (c ∷ l) h = (omega arith, plain-IsText l h.1)

pub label-IsText : (l : Bytes) → IsLabel l → IsText l
label-IsText l h = plain-IsText l h.plain

pub wire-IsText : (ls : List Bytes) → All IsLabel ls → IsText (wire ls)
unfolding wire
wire-IsText [] h = tt
wire-IsText (l ∷ ls) (h, hs) =
    (omega (arith, h.nonempty, h.short), All-append _ l _ (label-IsText l h) (wire-IsText ls hs))

pub dots-IsText : (ls : List Bytes) → All IsLabel ls → IsText (dots ls)
unfolding dots
dots-IsText [] h = tt
dots-IsText (l ∷ ls) (h, hs) = All-append _ l _ (label-IsText l h) (omega arith, dots-IsText ls hs)

pub joined-IsText : (ls : List Bytes) → All IsLabel ls → IsText (joined ls)
unfolding joined
joined-IsText [] h = tt
joined-IsText (l ∷ []) (h, hs) = label-IsText l h
joined-IsText (l ∷ m ∷ ls) (h, hs) =
    All-append _ l _ (label-IsText l h) (omega arith, joined-IsText (m ∷ ls) hs)

joined-cons-split_from :
    (l current host : Bytes)
    → joined (l ∷ split_from current host) ≡ l ++ b'.' ∷ joined (split_from current host)
unfolding joined split_from
joined-cons-split_from l current [] = refl
joined-cons-split_from l current (c ∷ host) = elim (Bool-cases (c == b'.')) [
  | inl dot ↦ rw dot
  | inr char ↦ rw char (joined-cons-split_from l (current ++ c ∷ []) host)
]

joined-split_from : (current host : Bytes) → joined (split_from current host) ≡ current ++ host
unfolding split_from
joined-split_from current [] = unfold joined in sym (append-nil current)
joined-split_from current (c ∷ host) = elim (Bool-cases (c == b'.')) [
  | inl dot ↦
      rw (dot, ==→eq c _ dot, joined-cons-split_from current [] host, joined-split_from [] host)
  | inr char ↦ rw (char, joined-split_from (current ++ c ∷ []) host) (append_assoc current _ _)
]

-- Splitting a name at its dots loses nothing.
pub joined-split : (host : Bytes) → joined (split host) ≡ host
joined-split = joined-split_from []

-- The wire form is one byte longer than the dotted form.
length-wire-split_from :
    (current host : Bytes)
    → length (wire (split_from current host)) ≡ length current + length host + 1
unfolding wire split_from
length-wire-split_from current [] = omega (arith, length-append current [])
length-wire-split_from current (c ∷ host) = elim (Bool-cases (c == b'.')) [
  | inl dot ↦ rw dot (
      omega
        (arith, length-append current (wire (split_from [] host)), length-wire-split_from [] host))
  | inr char ↦ rw char (
      omega
        (arith, length-wire-split_from (current ++ c ∷ []) host, length-append current (c ∷ [])))
]

pub length-wire-split : (host : Bytes) → length (wire (split host)) ≡ length host + 1
length-wire-split host = omega (arith, length-wire-split_from [] host)
