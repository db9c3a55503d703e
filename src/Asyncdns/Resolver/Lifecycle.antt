-- ===== src/Asyncdns/Resolver/Lifecycle.antt =====
-- The resolver's socket and its place in the event loop.
use shadowc.Base.{
  Bool, Option, List, ap, ◌∙◌, ◌++◌, if◌then◌else◌, true, false, none, some, [], ◌∷◌, ◌≡◌, ◌≢◌,
  refl, beq_refl, Bool-cases, inl, inr,
}
use shadowc.Base.Int.{ℤ, pos, int_eq, int_eq_iff, int_key}
use shadowc.Eventloop.{EventLoop, remove}
use shadowc.Eventloop.Registry.{handler_of, handler_of-add, handler_of-remove}
use shadowc.Asyncdns.Resolver.{Resolver, Effect, closes, unblocks, create, add_to_loop, close}

int_ne : (a b : ℤ) → a ≢ b → int_eq a b ≡ false
int_ne a b h = elim (Bool-cases (int_eq a b)) [
  | inl e ↦ absurd (h ((int_eq_iff a b).0 e))
  | inr e ↦ e
]

module _ {ℓ} {C : Type 0} {H : Type ℓ} (self : H) where
  -- A new resolver that joins a loop where nobody has the socket that the system gives it gets that
  -- socket, handles its events and makes it non-blocking. Joining once more changes nothing.
  pub add_to_loop-create :
      (socket socket' : ℤ) (self' : H) (loop : EventLoop H)
      → handler_of loop socket ≡ none
      → let (r, loop', effects) = add_to_loop {C = C} socket self create loop in
        (r.dns_socket ≡ socket)
        × (handler_of loop' socket ≡ some self)
        × (effects ≡ unblocks socket ∷ [])
        × (add_to_loop socket' self' r loop' ≡ (r, loop', []))
  unfolding add_to_loop
  add_to_loop-create socket socket' self' loop free =
      (refl, rw (handler_of-add loop socket socket _ self, beq_refl socket, free), refl, refl)

-- What happens to a resolver: it joins its loop, with what `socket` would return, or is closed.
pub data Life : Type 0 where
  joins : ℤ → Life
  leaves : Life

abbrev pub leaves_in : List Life → Bool
leaves_in [] = false
leaves_in (joins socket ∷ lives) = leaves_in lives
leaves_in (leaves ∷ lives) = true

module _ {ℓ} {C : Type 0} {H : Type ℓ} (self : H) where
  -- `close` for each time that the resolver leaves.
  abbrev pub closings : ℤ → List Life → List (Effect C)
  closings fd [] = []
  closings fd (joins socket ∷ lives) = closings fd lives
  closings fd (leaves ∷ lives) = closes fd ∷ closings fd lives

  pub live : List Life → Resolver C → EventLoop H → Resolver C × EventLoop H × List (Effect C)
  live [] r loop = (r, loop, [])
  live (joins socket ∷ lives) r loop =
      let (r', loop', effects) = add_to_loop socket self r loop in
      let (r'', loop'', later) = live lives r' loop' in (r'', loop'', effects ++ later)
  live (leaves ∷ lives) r loop =
      let (r', loop', effects) = close r loop in
      let (r'', loop'', later) = live lives r' loop' in (r'', loop'', effects ++ later)

  add_to_loop-joined :
      (socket : ℤ) (r : Resolver C) (loop : EventLoop H)
      → r.has_loop ≡ true
      → add_to_loop socket self r loop ≡ (r, loop, [])
  unfolding add_to_loop
  add_to_loop-joined socket r loop joined = rw joined

  close-joined :
      (r : Resolver C) (loop : EventLoop H)
      → r.has_loop ≡ true
      → int_eq r.dns_socket (pos 0) ≡ false
      → close r loop ≡ (r, remove loop r.dns_socket, closes r.dns_socket ∷ [])
  unfolding close
  close-joined r loop joined open_socket = rw (open_socket, close, joined)

  live-joined :
      (lives : List Life) (r : Resolver C) (loop : EventLoop H) (o : Option H)
      → r.has_loop ≡ true
      → int_eq r.dns_socket (pos 0) ≡ false
      → handler_of loop r.dns_socket ≡ o
      → let (r', loop', effects) = live lives r loop in
        (r' ≡ r)
        × (effects ≡ closings r.dns_socket lives)
        × (handler_of loop' r.dns_socket ≡ (if leaves_in lives then none else o))
  unfolding live
  live-joined [] r loop o joined open_socket h = (refl, refl, h)
  live-joined (joins socket ∷ lives) r loop o joined open_socket h =
      rw (add_to_loop-joined socket r loop joined) (live-joined lives r loop o joined open_socket h)
  live-joined (leaves ∷ lives) r loop o joined open_socket h =
      let gone : handler_of (remove loop r.dns_socket) r.dns_socket ≡ none =
        rw (handler_of-remove loop r.dns_socket r.dns_socket, beq_refl r.dns_socket) in
      let (same, effects, handler) =
        live-joined lives r (remove loop r.dns_socket) none joined open_socket gone in
      rw (close-joined r loop joined open_socket)
        (same, ap (◌∷◌ (closes r.dns_socket)) effects, handler ∙ if_same (leaves_in lives))
    where
      if_same : (b : Bool) → ◌≡◌ {A = Option H} (if b then none else none) none
      if_same true = refl
      if_same false = refl

  -- Let a new resolver join a loop where nobody has the socket that the system gives it, which is
  -- not 0, and then be closed and join again any number of times, in any order. It keeps the number
  -- of its first socket for ever: each `close` closes that number, even if it has been closed
  -- before, no joining makes another socket or sets flags again, and from the first `close` on the
  -- loop has no handler for it, whether the resolver joins again or not.
  pub live-create :
      (socket : ℤ) (lives : List Life) (loop : EventLoop H)
      → socket ≢ pos 0
      → handler_of loop socket ≡ none
      → let (r, loop', effects) = live (joins socket ∷ lives) create loop in
        (r.dns_socket ≡ socket)
        × (effects ≡ unblocks socket ∷ closings socket lives)
        × (handler_of loop' socket ≡ (if leaves_in lives then none else some self))
  unfolding live add_to_loop
  live-create socket lives loop ne free =
      let (fd, handles, effects, _) = add_to_loop-create self socket socket self loop free in
      let (same, later, handler) =
        live-joined lives (add_to_loop {C = C} socket self create loop).0
          (add_to_loop {C = C} socket self create loop).1 (some self) refl
          (int_ne socket (pos 0) ne) handles in
      (ap (λ (r : Resolver C). r.dns_socket) same ∙ fd, λ i. effects i ++ later i, handler)
