-- ===== src/Asyncdns/Resolver/Pending.antt =====
-- The callbacks that wait for a host name, and what each operation does to them.
use shadowc.Base.{
  ℕ, true, false, Option, none, some, List, [], ◌∷◌, ◌++◌, ◌≡◌, refl, ap, inl, inr, map, Bytes,
  append-nil, find, assign, find-assign, bytes_beq, bytes_beq_iff, bytes_key, beq_refl,
  if◌then◌else◌, Bool-cases, Option-cases,
}
use shadowc.Memory.{ok, ◌>>=◌}
use shadowc.Memory.Laws.{>>=-assoc}
use shadowc.Asyncdns.Query.{build_query}
use shadowc.Asyncdns.Response.{qtype_a}
pub use shadowc.Asyncdns.Resolver.{or_nil}
use shadowc.Asyncdns.Resolver.{
  Resolver, Effect, sends, calls, closes, unblocks, push_back, new_entry, resolve, call_callback,
}

module _ {C : Type 0} where
  -- The callbacks that wait for `host`.
  abbrev pub pending : Bytes → Resolver C → List C
  pending host r = or_nil (find host r.hostname_to_cb)

  -- The callbacks that the effects call for `host`.
  abbrev pub called : Bytes → List (Effect C) → List C
  called host [] = []
  called host (calls cb hostname ip ∷ es) =
      if bytes_beq hostname host then cb ∷ called host es else called host es
  called host (sends fd server packet ∷ es) = called host es
  called host (closes fd ∷ es) = called host es
  called host (unblocks fd ∷ es) = called host es

  pub called-append :
      (host : Bytes) (es fs : List (Effect C))
      → called host (es ++ fs) ≡ called host es ++ called host fs
  called-append host [] fs = refl
  called-append host (calls cb hostname ip ∷ es) fs = elim (Bool-cases (bytes_beq hostname host)) [
    | inl e ↦ rw e (ap (◌∷◌ cb) (called-append host es fs))
    | inr e ↦ rw e (called-append host es fs)
  ]
  called-append host (sends fd server packet ∷ es) fs = called-append host es fs
  called-append host (closes fd ∷ es) fs = called-append host es fs
  called-append host (unblocks fd ∷ es) fs = called-append host es fs

  pub called-calls_self :
      (host hostname ip : Bytes) (callbacks : List C)
      → bytes_beq hostname host ≡ true
      → called host (map (λ cb. calls cb hostname ip) callbacks) ≡ callbacks
  called-calls_self host hostname ip [] same = refl
  called-calls_self host hostname ip (cb ∷ callbacks) same =
      rw same (ap (◌∷◌ cb) (called-calls_self host hostname ip callbacks same))

  pub called-calls_other :
      (host hostname ip : Bytes) (callbacks : List C)
      → bytes_beq hostname host ≡ false
      → called host (map (λ cb. calls cb hostname ip) callbacks) ≡ []
  called-calls_other host hostname ip [] ne = refl
  called-calls_other host hostname ip (cb ∷ callbacks) ne =
      rw ne (called-calls_other host hostname ip callbacks ne)

  pub called-sends :
      (host packet : Bytes) (r : Resolver C) (servers : List Bytes)
      → called host (map (λ server. sends r.dns_socket server packet) servers) ≡ []
  called-sends host packet r [] = refl
  called-sends host packet r (s ∷ servers) = called-sends host packet r servers

  -- An answer for `hostname` calls what waits for that name, in order, and keeps what waits for
  -- another.
  pub pending-call_callback :
      (host hostname ip : Bytes) (r : Resolver C)
      → let (r', effects) = call_callback r hostname ip in
        called host effects ++ pending host r' ≡ pending host r
  unfolding call_callback
  pending-call_callback host hostname ip r = elim (Option-cases (find hostname r.hostname_to_cb)) [
    | inl e ↦ rw (e, call_callback) refl
    | inr (callbacks, e) ↦
        rw (e, call_callback, find-assign hostname host [] r.hostname_to_cb)
          (elim (Bool-cases (bytes_beq hostname host)) [
            | inl same ↦
                let found : find host r.hostname_to_cb ≡ some callbacks =
                  rw ((bytes_beq_iff hostname host).0 same) at e in
                rw (same, called-calls_self host hostname ip callbacks same, append-nil, found)
            | inr other ↦ rw (other, called-calls_other host hostname ip callbacks other)
          ])
  ]

  -- The resolver once `cb` waits for `hostname` too.
  abbrev pub waits_too : Resolver C → Bytes → C → Option (List C) → Resolver C
  waits_too r hostname cb none = record (new_entry r hostname) {
    hostname_to_cb = assign hostname (cb ∷ []) (assign hostname [] r.hostname_to_cb);
  }
  waits_too r hostname cb (some callbacks) = record r {
    hostname_to_cb = assign hostname (callbacks ++ cb ∷ []) r.hostname_to_cb;
  }

  push_back_found :
      (r : Resolver C) (hostname : Bytes) (cb : C) (callbacks : List C)
      → find hostname r.hostname_to_cb ≡ some callbacks
      → push_back r hostname cb
        ≡ ok (record r { hostname_to_cb = assign hostname (callbacks ++ cb ∷ []) r.hostname_to_cb })
  unfolding push_back
  push_back_found r hostname cb callbacks e = rw (e, push_back)

  -- `resolve` fails only where building the datagram does. Otherwise one copy of the datagram goes
  -- to each server, and the callback waits behind those that wait already.
  pub resolve_lem :
      (pid : ℕ) (buf : Bytes) (r : Resolver C) (hostname : Bytes) (cb : C)
      → resolve pid buf r hostname cb ≡ (do
        packet ← build_query pid buf hostname qtype_a
        ok (
          waits_too r hostname cb (find hostname r.hostname_to_cb),
          map (λ server. sends r.dns_socket server packet) r.servers,
        ))
  unfolding resolve
  resolve_lem pid buf r hostname cb = elim (Option-cases (find hostname r.hostname_to_cb)) [
    | inl e ↦
        let fresh : find hostname (new_entry r hostname).hostname_to_cb ≡ some [] =
          unfold new_entry in
          rw (find-assign hostname hostname [] r.hostname_to_cb, beq_refl hostname) in
        rw (e, resolve, push_back_found (new_entry r hostname) hostname cb [] fresh)
          (>>=-assoc (build_query pid buf hostname qtype_a) _ _)
    | inr (callbacks, e) ↦
        rw (e, resolve, push_back_found r hostname cb callbacks e)
          (>>=-assoc (build_query pid buf hostname qtype_a) _ _)
  ]

  pub pending-waits_too :
      (host hostname : Bytes) (cb : C) (r : Resolver C)
      → pending host (waits_too r hostname cb (find hostname r.hostname_to_cb))
        ≡ pending host r ++ (if bytes_beq hostname host then cb ∷ [] else [])
  unfolding new_entry
  pending-waits_too host hostname cb r = elim (Option-cases (find hostname r.hostname_to_cb)) [
    | inl e ↦ elim (Bool-cases (bytes_beq hostname host)) [
      | inl same ↦
          let found : find host r.hostname_to_cb ≡ none =
            rw ((bytes_beq_iff hostname host).0 same) at e in
          rw (
            e,
            find-assign hostname host (cb ∷ []) (assign hostname [] r.hostname_to_cb),
            same,
            found,
          )
      | inr other ↦ rw (
        e,
        find-assign hostname host (cb ∷ []) (assign hostname [] r.hostname_to_cb),
        other,
        find-assign hostname host [] r.hostname_to_cb,
        other,
        append-nil,
      )
    ]
    | inr (callbacks, e) ↦ elim (Bool-cases (bytes_beq hostname host)) [
      | inl same ↦
          let found : find host r.hostname_to_cb ≡ some callbacks =
            rw ((bytes_beq_iff hostname host).0 same) at e in
          rw (e, find-assign hostname host (callbacks ++ cb ∷ []) r.hostname_to_cb, same, found)
      | inr other ↦
          rw (
            e,
            find-assign hostname host (callbacks ++ cb ∷ []) r.hostname_to_cb,
            other,
            append-nil,
          )
    ]
  ]
