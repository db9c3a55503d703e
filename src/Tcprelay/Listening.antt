-- ===== src/Tcprelay/Listening.antt =====
-- Which socket the relay listens on.
use mathlib.Core.Path.{ap₂}
use Prim.Native.Nat.{bit_or}
use shadowc.Utils.{make_socket_non_blocking}
use shadowc.Base.{
  ℕ, Option, sym, append_assoc, Bool-cases, if◌then◌else◌, ◌+◌, true, false, none, some, List, [],
  ◌∷◌, ◌++◌, ◌≡◌, refl, All, beq_refl, arith, ◌⊎◌, inl, inr,
}
use shadowc.Base.Int.{ℤ, pos, negsuc, failed, int_eq, int_key}
use shadowc.Eventloop.{EventLoop, add, epollin, epollerr}
use shadowc.Eventloop.Registry.{handler_of, handler_of-add}
use shadowc.Tcprelay.{
  Relay, Attempt, Setup, try_socket, finish, bind_loop, started, aborted, create, add_to_loop,
  flagged, negative, opens, sets_reuse, logs_reuse_failed, binds, listens, sets_flags,
  frees_addresses,
}

-- The address cannot be served: no socket, or it cannot be bound.
abbrev pub Fails : Attempt → Type 0
Fails a =
    (int_eq a.socket failed ≡ true)
    ⊎ ((int_eq a.socket failed ≡ false) × (int_eq a.bind (pos 0) ≡ false))

-- What is done with the sockets of attempts.
abbrev pub tried : List Attempt → List Setup
tried [] = []
tried (a ∷ attempts) = elim (int_eq a.socket failed) [
  | true ↦ tried attempts
  | false ↦ try_socket a ++ tried attempts
]

-- The first address that has a socket and can be bound ends the loop.
pub bind_loop_first :
    (before after : List Attempt) (a : Attempt) (s : ℤ)
    → All Fails before
    → int_eq a.socket failed ≡ false
    → int_eq a.bind (pos 0) ≡ true
    → bind_loop s (before ++ a ∷ after) ≡ (a.socket, tried before ++ try_socket a)
unfolding bind_loop
bind_loop_first [] after a s f h k = rw (h, bind_loop, k)
bind_loop_first (b ∷ before) after a s (inl none', fs) h k =
    ground (arith, bind_loop_first before after a b.socket fs h k)
bind_loop_first (b ∷ before) after a s (inr (one, unbound), fs) h k =
    rw (one, bind_loop, tried, unbound, bind_loop_first before after a b.socket fs h k)
      (λ i. (a.socket, sym (append_assoc (try_socket b) (tried before) (try_socket a)) i))

-- The calls for the sockets of attempts, written out: each one that is there is opened, set to
-- reuse its address, with a line of the log if that fails, and bound; none is closed.
abbrev pub prepared : ℤ → ℤ → List Setup
prepared socket (pos n) = opens socket ∷ sets_reuse socket ∷ binds socket ∷ []
prepared socket (negsuc n) =
    opens socket ∷ sets_reuse socket ∷ logs_reuse_failed socket ∷ binds socket ∷ []

abbrev pub in_vain : List Attempt → List Setup
in_vain [] = []
in_vain (a ∷ attempts) = elim (int_eq a.socket failed) [
  | true ↦ in_vain attempts
  | false ↦ prepared a.socket a.setsockopt ++ in_vain attempts
]

-- The flags of a socket whose flags are known get O_NONBLOCK.
abbrev pub unblocked : ℤ → Option ℕ → List Setup
unblocked socket none = []
unblocked socket (some flags) = sets_flags socket (bit_or flags 2048) ∷ []

try_socket-prepared : (a : Attempt) → try_socket a ≡ prepared a.socket a.setsockopt
unfolding try_socket negative
try_socket-prepared a = go a.setsockopt refl
  where
    go : (z : ℤ) → a.setsockopt ≡ z → try_socket a ≡ prepared a.socket z
    go (pos n) e = rw (e)
    go (negsuc n) e = rw (e)

tried-in_vain : (attempts : List Attempt) → tried attempts ≡ in_vain attempts
tried-in_vain [] = refl
tried-in_vain (a ∷ attempts) = elim (Bool-cases (int_eq a.socket failed)) [
  | inl e ↦ rw (e, tried, in_vain) (tried-in_vain attempts)
  | inr e ↦ rw (e, tried, in_vain) (ap₂ ◌++◌ (try_socket-prepared a) (tried-in_vain attempts))
]

finish_lem :
    (socket : ℤ) (flags set : Option ℕ)
    → finish socket flags set ≡ frees_addresses ∷ (unblocked socket flags ++ listens socket ∷ [])
unfolding finish flagged make_socket_non_blocking
finish_lem socket none set = refl
finish_lem socket (some flags) none = refl
finish_lem socket (some flags) (some s) = refl

-- If every address before it fails, an address that has a socket and can be bound ends the search
-- of the constructor: the relay has its socket, or the program aborts if `listen` fails on that. Up
-- to then, each socket has been opened, set to reuse its address, with a line of the log if that
-- failed, and bound, none has been closed, and behind the last bind the addresses are freed,
-- O_NONBLOCK is added to the flags of the server socket, if these could be read, and it is listened
-- on.
pub create_first {ℓ} :
    {H : Type ℓ} (dns_resolver : ℕ) (before after : List Attempt) (a : Attempt)
    (fcntl : ℤ → Option ℕ × Option ℕ) (listen : ℤ → ℤ)
    → All Fails before
    → int_eq a.socket failed ≡ false
    → int_eq a.bind (pos 0) ≡ true
    → let done =
        in_vain before
        ++ (prepared a.socket a.setsockopt
            ++ (frees_addresses
                ∷ (unblocked a.socket (fcntl a.socket).0 ++ listens a.socket ∷ []))) in
      create {H = H} dns_resolver (some (before ++ a ∷ after)) fcntl listen ≡ (
        if int_eq (listen a.socket) failed
        then aborted done
        else started
            (record {
              server_socket = a.socket;
              has_loop = false;
              closed = false;
              fd_to_handlers = [];
              dns_resolver = dns_resolver;
            })
            done)
unfolding create
create_first dns_resolver before after a fcntl listen f h k =
    let doings = finish a.socket (fcntl a.socket).0 (fcntl a.socket).1 in
    let loop = bind_loop_first before after a (pos 0) f h k in
    let joined = append_assoc (tried before) (try_socket a) doings in
    let written = finish_lem a.socket (fcntl a.socket).0 (fcntl a.socket).1 in
    rw (← written, ← try_socket-prepared a, ← tried-in_vain before, ← joined)
      (elim (Bool-cases (int_eq (listen a.socket) failed)) [
        | inl e ↦ rw (loop, create, e, loop)
        | inr e ↦ rw (loop, create, e, loop)
      ])

-- If no address can be bound, the server socket is what `socket` returned for the last one.
pub bind_loop_last :
    (before : List Attempt) (a : Attempt) (s : ℤ)
    → All Fails before
    → Fails a
    → (bind_loop s (before ++ a ∷ [])).0 ≡ a.socket
unfolding bind_loop
bind_loop_last [] a s f (inl e) = rw (e, bind_loop)
bind_loop_last [] a s f (inr (e, u)) = rw (e, bind_loop, u)
bind_loop_last (b ∷ before) a s (inl e, fs) l =
    rw (e, bind_loop) (bind_loop_last before a b.socket fs l)
bind_loop_last (b ∷ before) a s (inr (e, u), fs) l =
    rw (e, bind_loop, u) (bind_loop_last before a b.socket fs l)

-- How a relay starts.
pub create-started {ℓ} :
    {H : Type ℓ} (dns_resolver : ℕ) (attempts : List Attempt) (fcntl : ℤ → Option ℕ × Option ℕ)
    (listen : ℤ → ℤ) (r : Relay H) (done : List Setup)
    → create dns_resolver (some attempts) fcntl listen ≡ started r done
    → (r.has_loop ≡ false)
      × (r.closed ≡ false)
      × (r.fd_to_handlers ≡ [])
      × ((bind_loop (pos 0) attempts).0 ≡ r.server_socket)
      × (int_eq (listen r.server_socket) failed ≡ false)
unfolding create
create-started dns_resolver attempts fcntl listen r done e = ground arith

-- A relay that has started joins a loop once: it handles the events of its socket, if nobody had
-- that descriptor, and a second call changes nothing.
pub add_to_loop-started {ℓ κ} :
    {H : Type ℓ} {E : Type κ} (dns_resolver : ℕ) (attempts : List Attempt)
    (fcntl : ℤ → Option ℕ × Option ℕ) (listen : ℤ → ℤ) (r : Relay H) (done : List Setup)
    (self self' : E) (loop : EventLoop E)
    → create dns_resolver (some attempts) fcntl listen ≡ started r done
    → handler_of loop r.server_socket ≡ none
    → let (r', loop') = add_to_loop self r loop in
      (handler_of loop' r.server_socket ≡ some self) × (add_to_loop self' r' loop' ≡ (r', loop'))
unfolding create add_to_loop
add_to_loop-started dns_resolver attempts fcntl listen r done self self' loop e free =
    let (idle, open_relay, _, _, _) = create-started dns_resolver attempts fcntl listen r done e in
    let joined : add_to_loop self r loop
        ≡ (record r { has_loop = true }, add loop r.server_socket (epollin + epollerr) self) =
      ground (arith, idle, open_relay) in
    rw joined (
      rw (
        handler_of-add loop r.server_socket r.server_socket _ self,
        beq_refl r.server_socket,
        free,
      ),
      refl,
    )
