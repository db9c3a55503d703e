-- ===== src/Eventloop/Watching.antt =====
-- The loop's map against what the kernel watches: each call of `epoll_ctl` reaches both, but the
-- kernel may refuse to add a descriptor.
use mathlib.Core.Path.{subst}
use shadowc.Base.{
  ℕ, ◌≡◌, refl, ◌∙◌, sym, ap, Bool, true, false, Option, none, some, List, [], ◌∷◌, ◌++◌, find,
  if◌then◌else◌, ◌⊎◌, inl, inr, arith,
}
use shadowc.Base.Int.{ℤ, int_eq, int_key}
use shadowc.Eventloop.{EventLoop, EpollCall, ctl_add, ctl_del, create, add, remove}
use shadowc.Eventloop.Registry.{handler_of, handler_of-add, handler_of-remove}

-- The kernel, as far as an epoll instance of it goes: its state, what a call of `epoll_ctl` does to
-- it, the mode with which it watches a descriptor, and whether it refuses to add one that it does
-- not watch yet (EBADF, EPERM, ENOMEM, ENOSPC and the like).
pub record Epoll : Type 1 where
  pub State : Type 0
  pub ctl : EpollCall → State → State
  pub watched : State → ℤ → Option ℕ
  pub refuses : State → ℤ → ℕ → Bool

-- What epoll_ctl documents, for descriptors that stay open: a descriptor that is watched already
-- cannot be added (EEXIST), a call that fails changes nothing, and a call is about no other
-- descriptor.
pub record IsEpoll (kernel : Epoll) : Type 0 where
  pub added :
      (s : kernel.State) (fd fd' : ℤ) (mode : ℕ)
      → kernel.watched (kernel.ctl (ctl_add fd mode) s) fd' ≡ (
          if int_eq fd fd'
          then elim (kernel.watched s fd) [
            | none ↦ if kernel.refuses s fd mode then none else some mode
            | some old ↦ some old
          ]
          else kernel.watched s fd')
  pub deleted :
      (s : kernel.State) (fd fd' : ℤ)
      → kernel.watched (kernel.ctl (ctl_del fd) s) fd'
        ≡ (if int_eq fd fd' then none else kernel.watched s fd')

-- The kernel behind some calls.
abbrev pub obey : (kernel : Epoll) → List EpollCall → kernel.State → kernel.State
obey kernel [] s = s
obey kernel (c ∷ calls) s = obey kernel calls (kernel.ctl c s)

obey-append :
    (kernel : Epoll) (calls : List EpollCall) (c : EpollCall) (s : kernel.State)
    → obey kernel (calls ++ c ∷ []) s ≡ kernel.ctl c (obey kernel calls s)
obey-append kernel [] c s = refl
obey-append kernel (d ∷ calls) c s = obey-append kernel calls c (kernel.ctl d s)

-- What users ask of a loop.
pub data Registration {ℓ} (H : Type ℓ) : Type ℓ where
  adds : ℤ → ℕ → H → Registration H
  removes : ℤ → Registration H

module _ {ℓ} {H : Type ℓ} where
  pub register : List (Registration H) → EventLoop H → EventLoop H
  register [] loop = loop
  register (adds fd mode handler ∷ rs) loop = register rs (add loop fd mode handler)
  register (removes fd ∷ rs) loop = register rs (remove loop fd)

  -- The modes and handlers with which each descriptor was registered since it was last removed.
  abbrev pub offered : List (Registration H) → (ℤ → List (ℕ × H)) → ℤ → List (ℕ × H)
  offered [] q = q
  offered (adds fd mode handler ∷ rs) q =
      offered rs λ fd'. if int_eq fd fd' then q fd ++ (mode, handler) ∷ [] else q fd'
  offered (removes fd ∷ rs) q = offered rs λ fd'. if int_eq fd fd' then [] else q fd'

  abbrev pub first_handler : List (ℕ × H) → Option H
  first_handler [] = none
  first_handler ((mode, handler) ∷ offers) = some handler

  -- One of the modes.
  abbrev pub Offers : List (ℕ × H) → ℕ → Type 0
  Offers [] m = ⊥
  Offers ((mode, handler) ∷ offers) m = (m ≡ mode) ⊎ Offers offers m

  -- What is watched is watched with one of the modes.
  abbrev pub Watches : List (ℕ × H) → Option ℕ → Type 0
  Watches offers none = Unit
  Watches offers (some m) = Offers offers m

  Offers-append : (offers more : List (ℕ × H)) (m : ℕ) → Offers offers m → Offers (offers ++ more) m
  Offers-append [] more m k = absurd k
  Offers-append (o ∷ offers) more m (inl e) = inl e
  Offers-append (o ∷ offers) more m (inr w) = inr (Offers-append offers more m w)

  Offers-append_last :
      (offers : List (ℕ × H)) (mode : ℕ) (handler : H)
      → Offers (offers ++ (mode, handler) ∷ []) mode
  Offers-append_last [] mode handler = inl refl
  Offers-append_last (o ∷ offers) mode handler = inr (Offers-append_last offers mode handler)

  Watches-add :
      (b r : Bool) (l l' : List (ℕ × H)) (w w' : Option ℕ) (mode : ℕ) (handler : H)
      → Watches l w
      → Watches l' w'
      → Watches
          (if b then l ++ (mode, handler) ∷ [] else l')
          (if b then elim w [ none ↦ if r then none else some mode | some old ↦ some old ] else w')
  Watches-add false r l l' w w' mode handler k k' = k'
  Watches-add true true l l' none w' mode handler k k' = tt
  Watches-add true false l l' none w' mode handler k k' = Offers-append_last l mode handler
  Watches-add true r l l' (some old) w' mode handler k k' =
      Offers-append l ((mode, handler) ∷ []) old k

  Watches-remove :
      (b : Bool) (l : List (ℕ × H)) (w : Option ℕ)
      → Watches l w
      → Watches (if b then [] else l) (if b then none else w)
  Watches-remove true l w k = tt
  Watches-remove false l w k = k

  first_handler-add :
      (b : Bool) (l l' : List (ℕ × H)) (mode : ℕ) (handler : H)
      → (if b
          then some (elim (first_handler l) [ none ↦ handler | some old ↦ old ])
          else first_handler l')
        ≡ first_handler (if b then l ++ (mode, handler) ∷ [] else l')
  first_handler-add true [] l' mode handler = refl
  first_handler-add true (o ∷ l) l' mode handler = refl
  first_handler-add false l l' mode handler = refl

  first_handler-remove :
      (b : Bool) (l : List (ℕ × H))
      → (if b then none else first_handler l) ≡ first_handler (if b then [] else l)
  first_handler-remove true l = refl
  first_handler-remove false l = refl

  create-empty :
      (efd : ℤ) (loop : EventLoop H)
      → create efd ≡ some loop
      → (loop.calls ≡ []) × (loop.fd_handler_map ≡ [])
  unfolding create
  create-empty efd loop e = ground arith

module _ {ℓ} {H : Type ℓ} {kernel : Epoll} (law : IsEpoll kernel) (s : kernel.State) where
  -- The mode with which the kernel watches a descriptor, behind the calls of a loop.
  abbrev pub watched_by : EventLoop H → ℤ → Option ℕ
  watched_by loop = kernel.watched (obey kernel loop.calls s)

  abbrev Agrees : (ℤ → List (ℕ × H)) → EventLoop H → Type ℓ
  Agrees q loop =
      (fd : ℤ) → (handler_of loop fd ≡ first_handler (q fd)) × Watches (q fd) (watched_by loop fd)

  watched_by-add :
      (loop : EventLoop H) (fd fd' : ℤ) (mode : ℕ) (handler : H)
      → watched_by (add loop fd mode handler) fd' ≡ (
          if int_eq fd fd'
          then elim (watched_by loop fd) [
            | none ↦ if kernel.refuses (obey kernel loop.calls s) fd mode then none else some mode
            | some old ↦ some old
          ]
          else watched_by loop fd')
  unfolding add
  watched_by-add loop fd fd' mode handler =
      ap (λ t. kernel.watched t fd') (obey-append kernel loop.calls (ctl_add fd mode) s)
      ∙ law.added (obey kernel loop.calls s) fd fd' mode

  watched_by-remove :
      (loop : EventLoop H) (fd fd' : ℤ)
      → watched_by (remove loop fd) fd' ≡ (if int_eq fd fd' then none else watched_by loop fd')
  unfolding remove
  watched_by-remove loop fd fd' =
      ap (λ t. kernel.watched t fd') (obey-append kernel loop.calls (ctl_del fd) s)
      ∙ law.deleted (obey kernel loop.calls s) fd fd'

  register-Agrees :
      (rs : List (Registration H)) (q : ℤ → List (ℕ × H)) (loop : EventLoop H)
      → Agrees q loop
      → Agrees (offered rs q) (register rs loop)
  unfolding register
  register-Agrees [] q loop a = a
  register-Agrees (adds fd mode handler ∷ rs) q loop a =
      let refused = kernel.refuses (obey kernel loop.calls s) fd mode in
      register-Agrees rs _ (add loop fd mode handler) λ fd'. (
        handler_of-add loop fd fd' mode handler
            ∙ rw ((a fd).0, (a fd').0)
                (first_handler-add (int_eq fd fd') (q fd) (q fd') mode handler),
        subst (Watches (if int_eq fd fd' then q fd ++ (mode, handler) ∷ [] else q fd'))
            (sym (watched_by-add loop fd fd' mode handler))
            (Watches-add (int_eq fd fd') refused (q fd) (q fd') _ _ mode handler (a fd).1
              (a fd').1),
      )
  register-Agrees (removes fd ∷ rs) q loop a = register-Agrees rs _ (remove loop fd) λ fd'. (
    handler_of-remove loop fd fd' ∙ rw ((a fd').0) (first_handler-remove (int_eq fd fd') (q fd')),
    subst (Watches (if int_eq fd fd' then [] else q fd')) (sym (watched_by-remove loop fd fd'))
        (Watches-remove (int_eq fd fd') (q fd') _ (a fd').1),
  )

  -- Over a kernel that does what epoll_ctl documents, may refuse to add a descriptor, and watches
  -- nothing at first, take any registrations and removals on a new loop. The handler in the loop's
  -- map is the one that came with the first registration of the descriptor since it was last
  -- removed, whether the kernel refused that or not, and there is none without a registration; if
  -- the kernel watches the descriptor, it does so with the mode of one of these registrations.
  pub register-create :
      (efd : ℤ) (loop : EventLoop H) (rs : List (Registration H)) (fd : ℤ)
      → ((fd' : ℤ) → kernel.watched s fd' ≡ none)
      → create efd ≡ some loop
      → let offers = offered rs (λ fd'. []) fd in
        (handler_of (register rs loop) fd ≡ first_handler offers)
        × Watches offers (watched_by (register rs loop) fd)
  unfolding find
  register-create efd loop rs fd fresh e =
      let (no_calls, no_handlers) = create-empty efd loop e in
      let unwatched : (fd' : ℤ) → watched_by loop fd' ≡ none = λ fd'. rw no_calls (fresh fd') in
      register-Agrees rs (λ fd'. []) loop
        (λ fd'. (rw no_handlers refl, subst (Watches {H = H} []) (sym (unwatched fd')) tt)) fd
