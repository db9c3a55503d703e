-- ===== src/Asyncdns/Resolver.antt =====
-- `DNSResolver` of lib/asyncdns.cpp. What the object does to the outside is a list of effects, in
-- order. What the system answers, and what the buffers on the stack held, are arguments. A callback
-- that calls the resolver again while it is being called is the subject of Reentry.
pub mod Pending
pub mod History
pub mod Answering
pub mod Service
pub mod Dispatch
pub mod Serving
pub mod Lifecycle
pub mod Release
pub mod Termination
pub mod Reentry
pub mod Queues
pub mod Meaning
pub mod Refinement
pub mod Replying
pub mod Views
pub mod Exchange
mod Tests
use Prim.Native.Nat.{bit_and}
use shadowc.Base.{
  ℕ, ◌+◌, Bool, true, false, not, Option, none, some, List, [], ◌∷◌, ◌++◌, map, Bytes, find, assign,
  erase, keys, map, ltb, if◌then◌else◌, true, false, bytes_key, ◌==◌,
}
use shadowc.Base.Int.{ℤ, pos, int_eq}
use shadowc.Base.Text.{codes}
use shadowc.Memory.{Outcome, ok, fault, null_dereference, ◌>>=◌, c_string}
use shadowc.Eventloop.{EpollEvent, EventLoop, add, remove, epollin, epollerr, epollet}
use shadowc.Asyncdns.Query.{build_query}
use shadowc.Asyncdns.Response.{Malloc, qtype_a, parse_response, first_address}

abbrev pub status_first : ℕ
status_first = 0

-- `C` is the type of function pointers. `servers` has `num_servers` entries, and `has_loop` says
-- that `loop` is not NULL.
pub record Resolver (C : Type 0) : Type 0 where
  pub servers : List Bytes
  pub has_loop : Bool
  pub dns_socket : ℤ
  pub hostname_to_cb : List (Bytes × List C)
  pub hostname_status_map : List (Bytes × ℕ)

pub data Effect (C : Type 0) : Type 0 where
  sends : ℤ → Bytes → Bytes → Effect C
  calls : C → Bytes → Bytes → Effect C
  closes : ℤ → Effect C
  unblocks : ℤ → Effect C

module _ {C : Type 0} where
  -- The constructor.
  abbrev pub create : Resolver C
  create = record {
    servers = codes "8.8.4.4" ∷ codes "8.8.8.8" ∷ [];
    has_loop = false;
    dns_socket = pos 0;
    hostname_to_cb = [];
    hostname_status_map = [];
  }

  -- One datagram to each server.
  pub send_req : ℕ → Bytes → Resolver C → Bytes → ℕ → Outcome (List (Effect C))
  send_req pid buf r hostname query_type = do
    packet ← build_query pid buf hostname query_type
    ok (map (λ server. sends r.dns_socket server packet) r.servers)

  -- `hostname_to_cb[hostname]->push_back(cb)`
  pub push_back : Resolver C → Bytes → C → Outcome (Resolver C)
  push_back r hostname cb = elim (find hostname r.hostname_to_cb) [
    | none ↦ fault null_dereference
    | some callbacks ↦
        ok (record r { hostname_to_cb = assign hostname (callbacks ++ cb ∷ []) r.hostname_to_cb })
  ]

  -- A new entry for the host name.
  pub new_entry : Resolver C → Bytes → Resolver C
  new_entry r hostname = record r {
    hostname_to_cb = assign hostname [] r.hostname_to_cb;
    hostname_status_map = assign hostname status_first r.hostname_status_map;
  }

  unfoldable pub resolve :
      ℕ → Bytes → Resolver C → Bytes → C → Outcome (Resolver C × List (Effect C))
  unfolding send_req push_back new_entry
  resolve pid buf r hostname cb = elim (find hostname r.hostname_to_cb) [
    | none ↦ do
      let added = new_entry r hostname
      sent ← send_req pid buf added hostname qtype_a
      r' ← push_back added hostname cb
      ok (r', sent)
    | some _ ↦ do
      r' ← push_back r hostname cb
      sent ← send_req pid buf r' hostname qtype_a
      ok (r', sent)
  ]

  -- The callbacks of the host name are called in order, and forgotten.
  unfoldable pub call_callback : Resolver C → Bytes → Bytes → Resolver C × List (Effect C)
  call_callback r hostname ip = elim (find hostname r.hostname_to_cb) [
    | none ↦ (r, [])
    | some callbacks ↦ (
      record r {
        hostname_to_cb = assign hostname [] r.hostname_to_cb;
        hostname_status_map = erase hostname r.hostname_status_map;
      },
      map (λ cb. calls cb hostname ip) callbacks,
    )
  ]

  -- Section parameters: the fuel for compressed names, the allocator, and the library's text of an
  -- address that is given as its four bytes in memory.
  module _ (fuel : ℕ) (malloc : Malloc) (inet_ntoa : Bytes → Bytes) where
    pub handle_found : Resolver C → Option (Bytes × Bytes) → Outcome (Resolver C × List (Effect C))
    handle_found r none = ok (r, [])
    handle_found r (some (name, address)) = do
      hostname ← c_string name
      ok (call_callback r hostname (inet_ntoa address))

    -- What `free_response` frees at the end is not among the effects.
    unfoldable pub handle_data : Resolver C → Bytes → Outcome (Resolver C × List (Effect C))
    unfolding handle_found
    handle_data r message = do
      response ← parse_response fuel malloc message
      found ← first_address message response
      handle_found r found

    -- `buf` is the array of 1024 bytes as it stands after `recvfrom`, whatever that returned.
    unfoldable pub handle_event :
        Resolver C → EpollEvent → Bytes → Outcome (Resolver C × List (Effect C))
    handle_event r evt buf = elim (int_eq r.dns_socket evt.fd) [
      | false ↦ ok (r, [])
      | true ↦ elim (bit_and evt.events epollerr == 0) [
        | false ↦ ok (r, closes evt.fd ∷ [])
        | true ↦ handle_data r buf
      ]
    ]

  -- With what `socket` returns.
  unfoldable pub create_dns_socket : ℤ → Resolver C → Resolver C
  create_dns_socket socket r = elim (int_eq r.dns_socket (pos 0)) [
    | false ↦ r
    | true ↦ record r { dns_socket = socket }
  ]

  -- `self` is the resolver as a handler.
  unfoldable pub add_to_loop {ℓ} :
      {H : Type ℓ} → ℤ → H → Resolver C → EventLoop H → (Resolver C × EventLoop H × List (Effect C))
  unfolding create_dns_socket
  add_to_loop socket self r loop = elim r.has_loop [
    | true ↦ (r, loop, [])
    | false ↦
        let r' : Resolver C = record (create_dns_socket socket r) { has_loop = true } in
        (r', add loop r'.dns_socket (epollin + epollet) self, unblocks r'.dns_socket ∷ [])
  ]

  unfoldable pub close {ℓ} :
      {H : Type ℓ} → Resolver C → EventLoop H → (Resolver C × EventLoop H × List (Effect C))
  close r loop = elim (int_eq r.dns_socket (pos 0)) [
    | true ↦ (r, loop, [])
    | false ↦ (
      r,
      elim r.has_loop [ true ↦ remove loop r.dns_socket | false ↦ loop ],
      closes r.dns_socket ∷ [],
    )
  ]

-- `operator<` on `std::string`: the first byte that differs decides, and a front comes first.
pub comes_before : Bytes → Bytes → Bool
comes_before [] [] = false
comes_before [] (y ∷ b) = true
comes_before (x ∷ a) [] = false
comes_before (x ∷ a) (y ∷ b) = if x == y then comes_before a b else ltb x y

pub put_key : Bytes → List Bytes → List Bytes
put_key a [] = a ∷ []
put_key a (b ∷ ks) = if comes_before b a then b ∷ put_key a ks else a ∷ b ∷ ks

-- The order in which a `std::map` visits its keys.
unfoldable pub in_key_order : List Bytes → List Bytes
in_key_order [] = []
in_key_order (a ∷ ks) = put_key a (in_key_order ks)

-- What the destructor frees: the array of servers, and the vectors of callbacks.
pub record Freed (C : Type 0) : Type 0 where
  pub servers : List Bytes
  pub vectors : List (List C)

module _ {C : Type 0} where
  abbrev pub or_nil : Option (List C) → List C
  or_nil none = []
  or_nil (some callbacks) = callbacks

  -- The destructor. It leaves the socket and the loop as they are.
  unfoldable pub destroy : Resolver C → Freed C
  destroy r = record {
    servers = r.servers;
    vectors =
        map (λ host. or_nil (find host r.hostname_to_cb)) (in_key_order (keys r.hostname_to_cb));
  }

  -- `get_dns_socket`
  abbrev pub get_dns_socket : Resolver C → ℤ
  get_dns_socket r = r.dns_socket
