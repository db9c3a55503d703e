-- ===== src/Asyncdns/Resolver/Reentry/Asking.antt =====
-- Callbacks that ask for other host names, and one that asks for its own.
use shadowc.Base.{
  ℕ, zero, suc, ◌+◌, ◌<◌, ◌≡◌, refl, ◌∙◌, sym, ap, inl, inr, Bool, true, false, none, some, List,
  [], ◌∷◌, ◌++◌, map, Bytes, length, length-append, All, append_assoc, append-nil, if◌then◌else◌,
  find, assign, find-assign, erase, beq_refl, bytes_beq, bytes_key, get_elem?, get_elem?-length,
  get_elem?-end, Option-cases, arith,
}
use shadowc.Memory.{ok, fault, invalid_iterator, ◌>>=◌}
use shadowc.Asyncdns.Resolver.{Resolver, Effect, calls, sends}
use shadowc.Asyncdns.Resolver.Pending.{
  pending, called, called-append, called-sends, waits_too, pending-waits_too,
}
use shadowc.Asyncdns.Resolver.Service.{IsHost, resolve_fits}
use shadowc.Asyncdns.Resolver.Reentry.{
  Request, keep_iterator, perform, go_through, call_callback_with,
}

module _ {C : Type 0} where
  -- The callbacks of the requests for `host`, in order.
  abbrev pub asking : Bytes → List (Request C) → List C
  asking host [] = []
  asking host (q ∷ qs) = (if bytes_beq q.hostname host then q.cb ∷ [] else []) ++ asking host qs

  asking-append :
      (host : Bytes) (qs qs' : List (Request C))
      → asking host (qs ++ qs') ≡ asking host qs ++ asking host qs'
  asking-append host [] qs' = refl
  asking-append host (q ∷ qs) qs' = rw (asking-append host qs qs') (
      sym (
        append_assoc (if bytes_beq q.hostname host then q.cb ∷ [] else []) (asking host qs)
          (asking host qs')))

  -- A request that fits, for another name than `host`.
  pub record IsOther (host : Bytes) (q : Request C) : Type 0 where
    pub buffer : length q.buf ≡ 128
    pub fits : IsHost q.hostname
    pub other : bytes_beq q.hostname host ≡ false

  asking-IsOther :
      (host : Bytes) (qs : List (Request C)) → All (IsOther host) qs → asking host qs ≡ []
  asking-IsOther host [] h = refl
  asking-IsOther host (q ∷ qs) (h, hs) = rw (h.other) (asking-IsOther host qs hs)

module _ {C : Type 0} (asks : C → Bytes → Bytes → List (Request C)) where
  -- What callbacks ask for, in the order in which they are called.
  abbrev pub asked_by : Bytes → Bytes → List C → List (Request C)
  asked_by host ip [] = []
  asked_by host ip (cb ∷ cbs) = asks cb host ip ++ asked_by host ip cbs

module _ {C : Type 0} (asks : C → Bytes → Bytes → List (Request C)) (has_room : List C → Bool) where
  perform-IsOther :
      (host : Bytes) (qs : List (Request C)) (r : Resolver C)
      → All (IsOther host) qs
      → (r' : Resolver C) × (sent : List (Effect C)) × (perform asks has_room host qs r
          ≡ ok (r', sent))
        × ((h : Bytes) → called h sent ≡ [])
        × ((h : Bytes) → pending h r' ≡ pending h r ++ asking h qs)
  unfolding perform keep_iterator
  perform-IsOther host [] r o = (r, [], refl, (λ h. refl), λ h. sym (append-nil (pending h r)))
  perform-IsOther host (q ∷ qs) r (o, os) =
      let (packet, step) = resolve_fits q.pid q.buf r q.hostname q.cb o.buffer o.fits in
      let r₁ : Resolver C = waits_too r q.hostname q.cb (find q.hostname r.hostname_to_cb) in
      let (r', more, rest, silent, waits) = perform-IsOther host qs r₁ os in
      let sent : List (Effect C) = map (λ server. sends r.dns_socket server packet) r.servers in
      (
        r',
        sent ++ more,
        rw (step, ◌>>=◌, o.other, rest) refl,
        (λ h. called-append h sent more ∙ rw (called-sends h packet r r.servers) (silent h)),
        λ h.
            waits h
            ∙ ap (λ l. l ++ asking h qs) (pending-waits_too h q.hostname q.cb r)
            ∙ append_assoc (pending h r) (if bytes_beq q.hostname h then q.cb ∷ [] else [])
                (asking h qs),
      )

  -- The loop, with `pre` behind it and `rest` to go.
  go_through-IsOther :
      (fuel : ℕ) (host ip : Bytes) (pre rest : List C) (r : Resolver C)
      → pending host r ≡ pre ++ rest
      → length rest < fuel
      → All (λ cb. All (IsOther host) (asks cb host ip)) rest
      → (r' : Resolver C) × (effects : List (Effect C)) × (go_through asks has_room fuel host ip
            (length pre)
            r
          ≡ ok (r', effects))
        × (called host effects ≡ rest)
        × ((h : Bytes) → bytes_beq host h ≡ false → called h effects ≡ [])
        × ((h : Bytes) → pending h r' ≡ pending h r ++ asking h (asked_by asks host ip rest))
  unfolding go_through
  go_through-IsOther zero host ip pre rest r p f o = absurd (omega arith)
  go_through-IsOther (suc fuel) host ip pre [] r p f o =
      let end : get_elem? (pending host r) (length pre) ≡ none =
        ap (λ l. get_elem? l (length pre)) (p ∙ append-nil pre) ∙ get_elem?-end pre in
      (r, [], rw (end, go_through) refl, refl, (λ h ne. refl), λ h. sym (append-nil (pending h r)))
  go_through-IsOther (suc fuel) host ip pre (cb ∷ rest) r p f (o, os) =
      let at : get_elem? (pending host r) (length pre) ≡ some cb =
        ap (λ l. get_elem? l (length pre)) p ∙ get_elem?-length pre rest cb in
      let (r₁, during, step, silent, waits) = perform-IsOther host (asks cb host ip) r o in
      let p' : pending host r₁ ≡ (pre ++ cb ∷ []) ++ rest =
        waits host
        ∙ ap (◌++◌ (pending host r)) (asking-IsOther host (asks cb host ip) o)
        ∙ append-nil (pending host r)
        ∙ p
        ∙ sym (append_assoc pre (cb ∷ []) rest) in
      let (r', more, onward, called_rest, no_other, waits') =
        go_through-IsOther fuel host ip (pre ++ cb ∷ []) rest r₁ p' (omega arith) os in
      let next : length (pre ++ cb ∷ []) ≡ length pre + 1 = length-append pre (cb ∷ []) in
      let onward' : go_through asks has_room fuel host ip (length pre + 1) r₁ ≡ ok (r', more) =
        ap (λ (i : ℕ). go_through asks has_room fuel host ip i r₁) (sym next) ∙ onward in
      (
        r',
        calls cb host ip ∷ (during ++ more),
        rw (at, go_through, step, ◌>>=◌, onward') refl,
        rw (beq_refl host)
            (ap (◌∷◌ cb) (called-append host during more ∙ rw (silent host) called_rest)),
        (λ h ne. rw ne (called-append h during more ∙ rw (silent h) (no_other h ne))),
        λ h.
            waits' h
            ∙ ap (λ l. l ++ asking h (asked_by asks host ip rest)) (waits h)
            ∙ append_assoc (pending h r) (asking h (asks cb host ip))
                (asking h (asked_by asks host ip rest))
            ∙ ap (◌++◌ (pending h r))
                (sym (asking-append h (asks cb host ip) (asked_by asks host ip rest))),
      )

  -- If the callbacks that wait for a host name only ask, while they are called, for other names,
  -- that have at most 109 characters and no zero byte in their wire form, from buffers of 128
  -- bytes, `call_callback`, with a round for each callback and one to end, does not fault: it calls
  -- everybody who waits for the name, once and in order, and nobody else; nobody waits for the name
  -- any more, and the callbacks of the requests wait for theirs, behind those that waited before.
  pub call_callback_with-IsOther :
      (fuel : ℕ) (r : Resolver C) (host ip : Bytes)
      → length (pending host r) < fuel
      → All (λ cb. All (IsOther host) (asks cb host ip)) (pending host r)
      → (r' : Resolver C) × (effects : List (Effect C)) × (call_callback_with asks has_room fuel r
            host ip
          ≡ ok (r', effects))
        × (called host effects ≡ pending host r)
        × (pending host r' ≡ [])
        × ((h : Bytes)
            → bytes_beq host h ≡ false
            → (called h effects ≡ [])
              × (pending h r' ≡ pending h r ++ asking h (asked_by asks host ip (pending host r))))
  unfolding call_callback_with
  call_callback_with-IsOther fuel r host ip f o = elim (Option-cases (find host r.hostname_to_cb)) [
    | inl e ↦ (
      r,
      [],
      rw (e, call_callback_with) refl,
      rw (e) refl,
      rw (e) refl,
      λ h ne. (refl, rw (e) (sym (append-nil (pending h r)))),
    )
    | inr (callbacks, e) ↦
        let (r₁, effects, run, all, none_other, waits) =
          go_through-IsOther fuel host ip [] (pending host r) r refl f o in
        (
          record r₁ {
            hostname_to_cb = assign host [] r₁.hostname_to_cb;
            hostname_status_map = erase host r₁.hostname_status_map;
          },
          effects,
          rw (e, call_callback_with, run, ◌>>=◌) refl,
          all,
          rw (find-assign host host [] r₁.hostname_to_cb, beq_refl host) refl,
          λ h ne. (none_other h ne, rw (find-assign host h [] r₁.hostname_to_cb, ne) (waits h)),
        )
  ]

  -- If the first callback that waits for a host name of at most 109 characters, without a zero byte
  -- in its wire form, asks for that name first when it is called, from a buffer of 128 bytes, and
  -- the vector of callbacks has no room for one more, `call_callback` goes on with an iterator that
  -- is not valid any more.
  pub call_callback_with_moved :
      (fuel : ℕ) (r : Resolver C) (host ip : Bytes) (cb : C) (rest : List C) (q : Request C)
      (qs : List (Request C))
      → pending host r ≡ cb ∷ rest
      → asks cb host ip ≡ q ∷ qs
      → q.hostname ≡ host
      → length q.buf ≡ 128
      → IsHost host
      → has_room (pending host r) ≡ false
      → call_callback_with asks has_room (suc fuel) r host ip ≡ fault invalid_iterator
  unfolding call_callback_with go_through perform keep_iterator
  call_callback_with_moved fuel r host ip cb rest q qs p a same b fits full =
      elim (Option-cases (find host r.hostname_to_cb)) [
        | inl e ↦ absurd (cc)
        | inr (callbacks, e) ↦
            let (packet, step) = resolve_fits q.pid q.buf r q.hostname q.cb b (rw same fits) in
            let first : get_elem? (pending host r) 0 ≡ some cb = rw p refl in
            let again : bytes_beq q.hostname host ≡ true = rw same (beq_refl host) in
            rw
              (
                e, call_callback_with, first, go_through, a, perform, step, ◌>>=◌, again,
                keep_iterator, full,
              )
              refl
      ]
