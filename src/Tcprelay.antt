-- ===== src/Tcprelay.antt =====
-- Namespace `tcprelay`: `TCPRelay` of lib/tcprelay.cpp. What the system answers is an argument; what
-- the relay does outside is a list of effects. `H` is the type of pointers to `TCPRelayHandler`s,
-- whose `handle_event` has no definition in the program.
pub mod Listening
pub mod Accepting
mod Tests
use Prim.Native.Nat.{bit_and}
use shadowc.Base.{
  ℕ, ◌+◌, Bool, true, false, ◌||◌, Option, none, some, List, [], ◌∷◌, ◌++◌, find, ◌==◌,
  if◌then◌else◌,
}
use shadowc.Utils.{make_socket_non_blocking}
use shadowc.Base.Int.{ℤ, pos, negsuc, failed, int_eq, int_key}
use shadowc.Eventloop.{EpollEvent, EventLoop, add, epollin, epollerr}

-- `dns_resolver` is the number of the resolver that the pointer leads to.
pub record Relay {ℓ} (H : Type ℓ) : Type ℓ where
  pub server_socket : ℤ
  pub has_loop : Bool
  pub closed : Bool
  pub fd_to_handlers : List (ℤ × H)
  pub dns_resolver : ℕ

-- What the calls for one `addrinfo` return.
pub record Attempt : Type 0 where
  pub socket : ℤ
  pub setsockopt : ℤ
  pub bind : ℤ

-- What the constructor does outside: the calls for a socket, and a line of the log.
pub data Setup : Type 0 where
  opens sets_reuse logs_reuse_failed binds listens : ℤ → Setup
  sets_flags : ℤ → ℕ → Setup
  frees_addresses : Setup

-- Whether a result is below 0.
pub negative : ℤ → Bool
negative (pos n) = false
negative (negsuc n) = true

-- What is done with a socket that has been opened.
pub try_socket : Attempt → List Setup
unfolding negative
try_socket a =
    opens a.socket
    ∷ sets_reuse a.socket
    ∷ ((if negative a.setsockopt then logs_reuse_failed a.socket ∷ [] else [])
        ++ binds a.socket ∷ [])

-- The loop over the addresses: the server socket at the end, and what has been done.
unfoldable pub bind_loop : ℤ → List Attempt → ℤ × List Setup
bind_loop server_socket [] = (server_socket, [])
bind_loop server_socket (a ∷ attempts) =
    let rest = bind_loop a.socket attempts in
    elim (int_eq a.socket failed) [
      | true ↦ rest
      | false ↦ elim (int_eq a.bind (pos 0)) [
        | true ↦ (a.socket, try_socket a)
        | false ↦ (rest.0, try_socket a ++ rest.1)
      ]
    ]

-- How the constructor ends.
pub data Started {ℓ} (H : Type ℓ) : Type ℓ where
  exited : Started H
  aborted : List Setup → Started H
  started : Relay H → List Setup → Started H

-- The flags that `make_socket_non_blocking` sets, if it gets there.
pub flagged : ℤ → Option ℕ → List Setup
flagged socket none = []
flagged socket (some flags) = sets_flags socket flags ∷ []

-- What follows the loop, up to `listen`.
pub finish : ℤ → Option ℕ → Option ℕ → List Setup
unfolding flagged
finish socket flags set =
    frees_addresses ∷ (flagged socket (make_socket_non_blocking flags set).1 ++ listens socket ∷ [])

-- The constructor, with the answers of `getaddrinfo` and the calls for each of its addresses, of
-- `fcntl` for the flags of a socket, and of `listen` for it.
unfoldable pub create {ℓ} :
    {H : Type ℓ} → ℕ → Option (List Attempt) → (ℤ → Option ℕ × Option ℕ) → (ℤ → ℤ) → Started H
unfolding finish
create dns_resolver none fcntl listen = exited
create dns_resolver (some attempts) fcntl listen =
    let (server_socket, tried) = bind_loop (pos 0) attempts in
    let done = tried ++ finish server_socket (fcntl server_socket).0 (fcntl server_socket).1 in
    elim (int_eq (listen server_socket) failed) [
      | true ↦ aborted done
      | false ↦
          started
            (record {
              server_socket = server_socket;
              has_loop = false;
              closed = false;
              fd_to_handlers = [];
              dns_resolver = dns_resolver;
            })
            done
    ]

unfoldable pub add_to_loop {ℓ κ} :
    {H : Type ℓ} {E : Type κ} → E → Relay H → EventLoop E → Relay H × EventLoop E
add_to_loop self r loop = elim r.has_loop [
  | true ↦ (r, loop)
  | false ↦ elim r.closed [
    | true ↦ (r, loop)
    | false ↦ (record r { has_loop = true }, add loop r.server_socket (epollin + epollerr) self)
  ]
]

-- The lines of the log that say how an accept went.
pub data Message : Type 0 where
  epoll_error accepting accepting_error : Message
  accepted_connection : ℤ → Message

pub data Effect {ℓ} (H : Type ℓ) : Type ℓ where
  accepts : ℤ → Effect H
  logs : Message → Effect H
  hands : H → EpollEvent → Effect H

-- What `accept` and `getnameinfo` answer.
pub record Answers : Type 0 where
  pub conn : ℤ
  pub errno : ℕ
  pub name_result : ℤ

-- EAGAIN and EWOULDBLOCK
abbrev pub eagain : ℕ
eagain = 11

abbrev pub ewouldblock : ℕ
ewouldblock = 11

module _ {ℓ} {H : Type ℓ} where
  -- Behind `accept`: the numeric name of the peer is logged.
  log_peer : Answers → List (Effect H)
  log_peer a = elim (int_eq a.name_result (pos 0)) [
    | true ↦ logs (accepted_connection a.conn) ∷ []
    | false ↦ []
  ]

  on_accept : Answers → List (Effect H)
  unfolding log_peer
  on_accept a = elim (int_eq a.conn failed) [
    | true ↦ elim (a.errno == eagain || a.errno == ewouldblock) [ true ↦ [] | false ↦ log_peer a ]
    | false ↦ accepts a.conn ∷ logs accepting_error ∷ log_peer a
  ]

  hand_over : Option H → EpollEvent → List (Effect H)
  hand_over none evt = []
  hand_over (some handler) evt = hands handler evt ∷ []

  -- The relay's own fields stay as they are.
  unfoldable pub handle_event : Relay H → EpollEvent → Answers → Relay H × List (Effect H)
  unfolding on_accept hand_over
  handle_event r evt a = elim (int_eq evt.fd r.server_socket) [
    | true ↦ elim (bit_and evt.events epollerr == 0) [
      | false ↦ (r, logs epoll_error ∷ [])
      | true ↦ (r, logs accepting ∷ on_accept a)
    ]
    | false ↦ (r, hand_over (find evt.fd r.fd_to_handlers) evt)
  ]

module _ {ℓ} {H : Type ℓ} where
  -- The destructor, as the descriptors that it closes.
  abbrev pub destroy : Relay H → List ℤ
  destroy r = []

  abbrev pub sweep_timeout : Relay H → Relay H
  sweep_timeout r = r

-- `TCPRelayHandler`, with the types of its pointers. `none` is a member that nothing has been
-- assigned to.
pub record RelayHandler {ℓ κ μ} (R : Type ℓ) (M : Type κ) (D : Type μ) : Type (ℓ ⊔ κ ⊔ μ) where
  pub tcp_relay : R
  pub local_socket : Option ℤ
  pub dns_resolver : Option D
  pub fd_to_handlers : M

-- Its constructor.
abbrev pub create_handler {ℓ κ ν μ} :
    {R : Type ℓ} {M : Type κ} {L : Type ν} {D : Type μ} → R → M → L → ℤ → D → RelayHandler R M D
create_handler tcp_relay fd_to_handlers loop local_sock dnsresolver = record {
  tcp_relay = tcp_relay;
  local_socket = none;
  dns_resolver = none;
  fd_to_handlers = fd_to_handlers;
}
