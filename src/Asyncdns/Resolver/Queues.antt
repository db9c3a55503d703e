-- ===== src/Asyncdns/Resolver/Queues.antt =====
-- What a resolver promises, with no sockets, packets or tables: a queue of callbacks for each host
-- name, which an answer for that name empties.
use shadowc.Base.{
  List, [], ◌∷◌, ◌++◌, map, append_assoc, ◌≡◌, refl, sym, ap, ◌∙◌, Bytes, bytes_beq, if◌then◌else◌,
}

pub data Input (C : Type 0) : Type 0 where
  ask : Bytes → C → Input C
  answer : Bytes → Bytes → Input C

-- A call of a callback, with its host name and address.
pub record Call (C : Type 0) : Type 0 where
  pub cb : C
  pub hostname : Bytes
  pub ip : Bytes

abbrev pub Queues : Type 0 → Type 0
Queues C = Bytes → List C

module _ {C : Type 0} where
  abbrev pub step : Input C → Queues C → Queues C × List (Call C)
  step (ask hostname cb) q =
      ((λ host. q host ++ (if bytes_beq hostname host then cb ∷ [] else [])), [])
  step (answer hostname ip) q = (
    (λ host. if bytes_beq hostname host then [] else q host),
    map (λ cb. record { cb = cb; hostname = hostname; ip = ip }) (q hostname),
  )

  -- What follows, behind what has been called.
  abbrev pub after :
      Queues C × List (Call C) → (Queues C → Queues C × List (Call C)) → Queues C × List (Call C)
  after (q, now) next = let (q', later) = next q in (q', now ++ later)

  abbrev pub behave : List (Input C) → Queues C → Queues C × List (Call C)
  behave [] q = (q, [])
  behave (input ∷ inputs) q = after (step input q) (behave inputs)

  -- One behaviour after another.
  pub behave-append :
      (inputs inputs' : List (Input C)) (q : Queues C)
      → behave (inputs ++ inputs') q ≡ after (behave inputs q) (behave inputs')
  behave-append [] inputs' q = refl
  behave-append (input ∷ inputs) inputs' q =
      ap (λ p. after (step input q) (λ _. p)) (behave-append inputs inputs' (step input q).0)
      ∙ after_assoc (step input q) (behave inputs (step input q).0)
          (behave inputs' (behave inputs (step input q).0).0)
    where
      after_assoc :
          (p p' p'' : Queues C × List (Call C))
          → after p (λ _. after p' (λ _. p'')) ≡ after (after p (λ _. p')) (λ _. p'')
      after_assoc p p' p'' i = (p''.0, sym (append_assoc p.1 p'.1 p''.1) i)
