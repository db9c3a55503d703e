-- ===== src/Asyncdns/Resolver/Release.antt =====
-- What the destructor frees after any history.
use Prim.Native.Nat.{bit_and}
use shadowc.Base.{
  ℕ, ◌≡◌, refl, ◌∙◌, sym, ap, inl, inr, Option, none, some, List, [], ◌∷◌, ◌++◌, map, Bytes, find,
  assign, keys, note, note-note, note-keys, note-IsDistinct, IsDistinct, keys-assign, bytes_key,
  ◌==◌, Bool-cases, Option-cases,
}
use mathlib.Core.List.{Perm}
use mathlib.Core.List.Perm
use shadowc.Base.Int.{int_eq}
use shadowc.Memory.{ok, c_string}
use shadowc.Memory.Laws.{>>=-eq-ok, ok-injective}
use shadowc.Eventloop.{EpollEvent, epollerr}
use shadowc.Asyncdns.Query.{build_query}
use shadowc.Asyncdns.Response.{Malloc, qtype_a, parse_response, first_address}
use shadowc.Asyncdns.Resolver.{
  Resolver, Effect, new_entry, resolve, call_callback, handle_found, handle_data, handle_event,
  destroy, put_key, comes_before, in_key_order,
}
use shadowc.Asyncdns.Resolver.Pending.{pending, or_nil, called, waits_too, resolve_lem}
use shadowc.Asyncdns.Resolver.History.{Happening, requested, received, registered, run, run-pending}

put_key-Perm : (a : Bytes) (ks : List Bytes) → Perm (put_key a ks) (a ∷ ks)
unfolding put_key
put_key-Perm a [] = Perm.refl (a ∷ [])
put_key-Perm a (b ∷ ks) = elim (Bool-cases (comes_before b a)) [
  | inl e ↦ rw (e, put_key) (Perm.trans (Perm.cons b (put_key-Perm a ks)) (Perm.swap a b ks))
  | inr e ↦ rw (e, put_key) (Perm.refl (a ∷ b ∷ ks))
]

in_key_order-Perm : (ks : List Bytes) → Perm (in_key_order ks) ks
unfolding in_key_order
in_key_order-Perm [] = Perm.refl []
in_key_order-Perm (a ∷ ks) =
    Perm.trans (put_key-Perm a (in_key_order ks)) (Perm.cons a (in_key_order-Perm ks))

module _ {C : Type 0} where
  -- The host names asked for, each once, in the order in which they came up, behind `hosts`.
  abbrev pub asked_for : List Bytes → List (Happening C) → List Bytes
  asked_for hosts [] = hosts
  asked_for hosts (requested pid buf hostname cb ∷ hs) = asked_for (note hostname hosts) hs
  asked_for hosts (received evt buf ∷ hs) = asked_for hosts hs

  asked_for-IsDistinct :
      (hosts : List Bytes) (hs : List (Happening C))
      → IsDistinct hosts
      → IsDistinct (asked_for hosts hs)
  asked_for-IsDistinct hosts [] d = d
  asked_for-IsDistinct hosts (requested pid buf hostname cb ∷ hs) d =
      asked_for-IsDistinct (note hostname hosts) hs (note-IsDistinct hostname hosts d)
  asked_for-IsDistinct hosts (received evt buf ∷ hs) d = asked_for-IsDistinct hosts hs d

  -- The blocks that a resolver owns: one for each of these names, and the array.
  abbrev owns : Resolver C → List Bytes × List Bytes
  owns r = (keys r.hostname_to_cb, r.servers)

  waits_too-owns :
      (r : Resolver C) (hostname : Bytes) (cb : C)
      → owns (waits_too r hostname cb (find hostname r.hostname_to_cb))
        ≡ (note hostname (keys r.hostname_to_cb), r.servers)
  unfolding new_entry
  waits_too-owns r hostname cb = elim (Option-cases (find hostname r.hostname_to_cb)) [
    | inl e ↦
        rw
          (
            e,
            keys-assign hostname (cb ∷ []) (assign hostname [] r.hostname_to_cb),
            keys-assign hostname [] r.hostname_to_cb,
            note-note hostname (keys r.hostname_to_cb),
          )
          refl
    | inr (callbacks, e) ↦ rw (e, keys-assign hostname (callbacks ++ cb ∷ []) r.hostname_to_cb) refl
  ]

  resolve-owns :
      (pid : ℕ) (buf : Bytes) (r : Resolver C) (hostname : Bytes) (cb : C) {r' : Resolver C}
      {effects : List (Effect C)}
      → resolve pid buf r hostname cb ≡ ok (r', effects)
      → owns r' ≡ (note hostname (keys r.hostname_to_cb), r.servers)
  resolve-owns pid buf r hostname cb {r'} {effects} e =
      let (packet, _, done) =
        >>=-eq-ok (build_query pid buf hostname qtype_a) _
          (sym (resolve_lem pid buf r hostname cb) ∙ e) in
      ap (λ p. owns p.0) (sym (ok-injective _ (r', effects) done)) ∙ waits_too-owns r hostname cb

  call_callback-owns :
      (r : Resolver C) (hostname ip : Bytes) → owns (call_callback r hostname ip).0 ≡ owns r
  unfolding call_callback
  call_callback-owns r hostname ip = elim (Option-cases (find hostname r.hostname_to_cb)) [
    | inl e ↦ rw (e, call_callback) refl
    | inr (callbacks, e) ↦
        rw
          (
            e,
            call_callback,
            keys-assign hostname [] r.hostname_to_cb,
            note-keys hostname r.hostname_to_cb e,
          )
          refl
  ]

module _ {C : Type 0} (fuel : ℕ) (malloc : Malloc) (inet_ntoa : Bytes → Bytes) where
  handle_found-owns :
      (r : Resolver C) (found : Option (Bytes × Bytes)) {r' : Resolver C}
      {effects : List (Effect C)}
      → handle_found fuel malloc inet_ntoa r found ≡ ok (r', effects)
      → owns r' ≡ owns r
  unfolding handle_found
  handle_found-owns r none {r'} {effects} e =
      ap (λ p. owns p.0) (sym (ok-injective (r, []) (r', effects) e))
  handle_found-owns r (some (name, address)) {r'} {effects} e =
      let (hostname, _, done) = >>=-eq-ok (c_string name) _ e in
      ap (λ p. owns p.0) (sym (ok-injective _ (r', effects) done))
      ∙ call_callback-owns r hostname (inet_ntoa address)

  handle_event-owns :
      (r : Resolver C) (evt : EpollEvent) (buf : Bytes) {r' : Resolver C}
      {effects : List (Effect C)}
      → handle_event fuel malloc inet_ntoa r evt buf ≡ ok (r', effects)
      → owns r' ≡ owns r
  unfolding handle_event handle_data
  handle_event-owns r evt buf {r'} {effects} e = elim (Bool-cases (int_eq r.dns_socket evt.fd)) [
    | inr other ↦
        ap (λ p. owns p.0) (sym (ok-injective _ (r', effects) (rw (other, handle_event) at e)))
    | inl ours ↦ elim (Bool-cases (bit_and evt.events epollerr == 0)) [
      | inr error ↦
          ap (λ p. owns p.0)
            (sym (ok-injective _ (r', effects) (rw (ours, handle_event, error) at e)))
      | inl fine ↦
          let (response, _, e') =
            >>=-eq-ok (parse_response fuel malloc buf) _ (rw (ours, handle_event, fine) at e) in
          let (found, _, e'') = >>=-eq-ok (first_address buf response) _ e' in
          handle_found-owns r found e''
    ]
  ]

  run-owns :
      (hs : List (Happening C)) (r : Resolver C) {r' : Resolver C} {effects : List (Effect C)}
      → run fuel malloc inet_ntoa hs r ≡ ok (r', effects)
      → owns r' ≡ (asked_for (keys r.hostname_to_cb) hs, r.servers)
  unfolding run
  run-owns [] r {r'} {effects} e = ap (λ p. owns p.0) (sym (ok-injective (r, []) (r', effects) e))
  run-owns (requested pid buf hostname cb ∷ hs) r {r'} {effects} e =
      let ((r₁, first), step, e') = >>=-eq-ok (resolve pid buf r hostname cb) _ e in
      let ((r₂, more), rest, done) = >>=-eq-ok (run fuel malloc inet_ntoa hs r₁) _ e' in
      ap (λ p. owns p.0) (sym (ok-injective _ (r', effects) done))
      ∙ run-owns hs r₁ rest
      ∙ ap (λ o. (asked_for o.0 hs, o.1)) (resolve-owns pid buf r hostname cb step)
  run-owns (received evt buf ∷ hs) r {r'} {effects} e =
      let ((r₁, first), step, e') = >>=-eq-ok (handle_event fuel malloc inet_ntoa r evt buf) _ e in
      let ((r₂, more), rest, done) = >>=-eq-ok (run fuel malloc inet_ntoa hs r₁) _ e' in
      ap (λ p. owns p.0) (sym (ok-injective _ (r', effects) done))
      ∙ run-owns hs r₁ rest
      ∙ ap (λ o. (asked_for o.0 hs, o.1)) (handle_event-owns r evt buf step)

  -- Over any history of a resolver without requests that ends without a fault, the destructor frees
  -- the array of servers and one vector for each host name asked for, each name once, in the order
  -- of the names as a `std::map` keeps them; and the callbacks in a name's vector are those that
  -- were not called: with the ones called before they are all that asked.
  pub run-destroy :
      (hs : List (Happening C)) (r : Resolver C) {r' : Resolver C} {effects : List (Effect C)}
      → r.hostname_to_cb ≡ []
      → run fuel malloc inet_ntoa hs r ≡ ok (r', effects)
      → let hosts = asked_for [] hs in
        (destroy r' ≡ record {
          servers = r.servers;
          vectors = map (λ host. pending host r') (in_key_order hosts);
        })
        × Perm (in_key_order hosts) hosts
        × IsDistinct hosts
        × ((host : Bytes) → called host effects ++ pending host r' ≡ registered host hs)
  unfolding destroy find
  run-destroy hs r {r'} {effects} new e =
      let all : owns r' ≡ (asked_for [] hs, r.servers) =
        run-owns hs r e
        ∙ ap (λ (m : List (Bytes × List C)). (asked_for (keys m) hs, r.servers)) new in
      let hosts : keys r'.hostname_to_cb ≡ asked_for [] hs = ap (λ o. o.0) all in
      let distinct : IsDistinct (asked_for [] hs) = asked_for-IsDistinct [] hs tt in
      (
        rw (hosts, ap (λ o. o.1) all) refl,
        in_key_order-Perm (asked_for [] hs),
        distinct,
        λ host.
            run-pending fuel malloc inet_ntoa host hs r e
            ∙ ap (λ (m : List (Bytes × List C)). or_nil (find host m) ++ registered host hs) new,
      )
