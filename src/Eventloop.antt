-- ===== src/Eventloop.antt =====
-- Namespace `eventloop`: lib/eventloop.cpp and include/eventloop.hpp. What the kernel answers is an
-- argument: whether `epoll_ctl` succeeded, and what each `epoll_wait` returned. The calls of
-- `epoll_ctl` are recorded in order.
pub mod Registry
pub mod Schedule
pub mod Watching
mod Tests
use shadowc.Base.{
  ℕ, Bool, true, false, Option, none, some, List, [], ◌∷◌, ◌++◌, ◌==◌ as nat_eq, find, insert,
  erase,
}
use shadowc.Base.Int.{ℤ, pos, failed, int_eq, int_key}

-- `epoll_event`, as far as the program reads it.
pub record EpollEvent : Type 0 where
  pub events : ℕ
  pub fd : ℤ

-- The bits of `events`.
abbrev pub epollin : ℕ
epollin = 1

abbrev pub epollerr : ℕ
epollerr = 8

abbrev pub epollet : ℕ
epollet = 0x80000000

pub data EpollCall : Type 0 where
  ctl_add : ℤ → ℕ → EpollCall
  ctl_del : ℤ → EpollCall

-- `H` is the type of pointers to handlers.
pub record EventLoop {ℓ} (H : Type ℓ) : Type ℓ where
  pub efd : ℤ
  pub fd_handler_map : List (ℤ × H)
  pub calls : List EpollCall

module _ {ℓ} {H : Type ℓ} where
  -- The constructor, with the result of `epoll_create1`: `none` is `exit(1)`.
  unfoldable pub create : ℤ → Option (EventLoop H)
  create efd = elim (int_eq efd failed) [
    | true ↦ none
    | false ↦ some (record { efd = efd; fd_handler_map = []; calls = [] })
  ]

  -- The destructor, as the descriptor that it closes.
  unfoldable pub destroy : EventLoop H → ℤ
  destroy loop = loop.efd

  -- A failure of `epoll_ctl` is only logged, so its result plays no part.
  unfoldable pub add : EventLoop H → ℤ → ℕ → H → EventLoop H
  add loop fd mode handler = record loop {
    fd_handler_map = insert fd handler loop.fd_handler_map;
    calls = loop.calls ++ ctl_add fd mode ∷ [];
  }

  unfoldable pub remove : EventLoop H → ℤ → EventLoop H
  remove loop fd = record loop {
    fd_handler_map = erase fd loop.fd_handler_map;
    calls = loop.calls ++ ctl_del fd ∷ [];
  }

-- What an `epoll_wait` returns: an error with its `errno`, or at most 64 events.
pub data Wait : Type 0 where
  wait_error : ℕ → Wait
  ready : List EpollEvent → Wait

abbrev pub eintr : ℕ
eintr = 4

-- How `run` stands after some waits: it has returned -1, or waits again.
pub data Running {ℓ} (S : Type ℓ) : Type ℓ where
  returned : S → Running S
  waiting : S → Running S

-- `S` is the state that handlers may change, the loop's map included.
module _ {ℓ κ} {H : Type ℓ} {S : Type κ} (loop_of : S → EventLoop H)
    (handle_event : H → EpollEvent → S → S) where
  dispatch_to : Option H → EpollEvent → S → S
  dispatch_to none e s = s
  dispatch_to (some handler) e s = handle_event handler e s

  -- The body of the loop over the events; the handler is looked up when its event's turn comes.
  pub dispatch : EpollEvent → S → S
  unfolding dispatch_to
  dispatch e s = dispatch_to (find e.fd (loop_of s).fd_handler_map) e s

  unfoldable pub dispatch_all : List EpollEvent → S → S
  dispatch_all [] s = s
  dispatch_all (e ∷ es) s = dispatch_all es (dispatch e s)

  -- `while (true)`, on the results of its waits.
  unfoldable pub run : List Wait → S → Running S
  unfolding dispatch_all
  run [] s = waiting s
  run (wait_error errno ∷ waits) s = elim (nat_eq errno eintr) [
    | true ↦ run waits s
    | false ↦ returned s
  ]
  run (ready events ∷ waits) s = run waits (dispatch_all events s)
