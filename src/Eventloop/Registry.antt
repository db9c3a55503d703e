-- ===== src/Eventloop/Registry.antt =====
-- Which handler a descriptor has, after registrations and removals.
use shadowc.Base.{
  ℕ, ◌≡◌, Option, none, some, find, find-insert, find-erase, if◌then◌else◌, beq_refl,
}
use shadowc.Base.Int.{ℤ, int_eq, int_key}
use shadowc.Eventloop.{EventLoop, add, remove}

module _ {ℓ} {H : Type ℓ} where
  abbrev pub handler_of : EventLoop H → ℤ → Option H
  handler_of loop fd = find fd loop.fd_handler_map

  -- `add` gives a handler to a descriptor that has none, keeps the one of a descriptor that has
  -- one, and leaves every other descriptor alone.
  pub handler_of-add :
      (loop : EventLoop H) (fd fd' : ℤ) (mode : ℕ) (handler : H)
      → handler_of (add loop fd mode handler) fd' ≡ (
          if int_eq fd fd'
          then some (elim (handler_of loop fd) [ none ↦ handler | some old ↦ old ])
          else handler_of loop fd')
  unfolding add
  handler_of-add loop fd fd' mode handler = find-insert fd fd' handler loop.fd_handler_map

  -- `remove` takes the handler of its descriptor away, and no other.
  pub handler_of-remove :
      (loop : EventLoop H) (fd fd' : ℤ)
      → handler_of (remove loop fd) fd' ≡ (if int_eq fd fd' then none else handler_of loop fd')
  unfolding remove
  handler_of-remove loop fd fd' = find-erase fd fd' loop.fd_handler_map

  -- A descriptor that is removed and added again has the new handler.
  pub handler_of-add-remove :
      (loop : EventLoop H) (fd : ℤ) (mode : ℕ) (handler : H)
      → handler_of (add (remove loop fd) fd mode handler) fd ≡ some handler
  handler_of-add-remove loop fd mode handler = rw (
    handler_of-add (remove loop fd) fd fd mode handler,
    handler_of-remove loop fd fd,
    beq_refl fd,
  )
