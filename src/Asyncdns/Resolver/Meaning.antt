-- ===== src/Asyncdns/Resolver/Meaning.antt =====
-- What a resolver and its operations mean to the queues.
use mathlib.Core.Path.{fun_ext}
use shadowc.Base.{
  ◌≡◌, refl, ◌∙◌, sym, ap, inl, inr, List, [], ◌∷◌, ◌++◌, Bytes, Option, none, some, map, find,
  assign, find-assign, bytes_beq, bytes_beq_iff, bytes_key, if◌then◌else◌, Bool-cases, Option-cases,
  append-nil,
}
use shadowc.Base.Int.{ℤ}
use shadowc.Asyncdns.Names.Labels.{joined}
use shadowc.Asyncdns.Resolver.{Resolver, Effect, sends, calls, closes, unblocks, call_callback}
use shadowc.Asyncdns.Resolver.Pending.{pending, or_nil, waits_too, pending-waits_too}
use shadowc.Asyncdns.Resolver.Answering.{answer_with}
use shadowc.Asyncdns.Resolver.Queues.{
  Input, ask, answer, Call, Queues, step, after, behave, behave-append,
}

module _ {C : Type 0} where
  -- The queues of a resolver: what its tables mean.
  abbrev pub queues : Resolver C → Queues C
  queues r host = pending host r

  -- The calls among the effects, in order.
  abbrev pub calls_of : List (Effect C) → List (Call C)
  calls_of [] = []
  calls_of (calls cb hostname ip ∷ es) =
      record { cb = cb; hostname = hostname; ip = ip } ∷ calls_of es
  calls_of (sends fd server packet ∷ es) = calls_of es
  calls_of (closes fd ∷ es) = calls_of es
  calls_of (unblocks fd ∷ es) = calls_of es

  calls_of-append : (es fs : List (Effect C)) → calls_of (es ++ fs) ≡ calls_of es ++ calls_of fs
  calls_of-append [] fs = refl
  calls_of-append (calls cb hostname ip ∷ es) fs =
      ap (◌∷◌ (record { cb = cb; hostname = hostname; ip = ip })) (calls_of-append es fs)
  calls_of-append (sends fd server packet ∷ es) fs = calls_of-append es fs
  calls_of-append (closes fd ∷ es) fs = calls_of-append es fs
  calls_of-append (unblocks fd ∷ es) fs = calls_of-append es fs

  calls_of-sends :
      (fd : ℤ) (packet : Bytes) (servers : List Bytes)
      → calls_of (map (λ server. sends fd server packet) servers) ≡ []
  calls_of-sends fd packet [] = refl
  calls_of-sends fd packet (s ∷ servers) = calls_of-sends fd packet servers

  calls_of-calls :
      (hostname ip : Bytes) (callbacks : List C)
      → calls_of (map (λ cb. calls cb hostname ip) callbacks)
        ≡ map (λ cb. record { cb = cb; hostname = hostname; ip = ip }) callbacks
  calls_of-calls hostname ip [] = refl
  calls_of-calls hostname ip (cb ∷ callbacks) =
      ap (◌∷◌ (record { cb = cb; hostname = hostname; ip = ip }))
        (calls_of-calls hostname ip callbacks)

  -- What a step of the resolver means.
  abbrev pub meaning : Resolver C × List (Effect C) → Queues C × List (Call C)
  meaning (r, effects) = (queues r, calls_of effects)

  pub resolve-step :
      (hostname packet : Bytes) (cb : C) (r : Resolver C)
      → meaning (
        waits_too r hostname cb (find hostname r.hostname_to_cb),
        map (λ server. sends r.dns_socket server packet) r.servers,
      )
        ≡ step (ask hostname cb) (queues r)
  resolve-step hostname packet cb r i = (
    fun_ext (λ host. pending-waits_too host hostname cb r) i,
    calls_of-sends r.dns_socket packet r.servers i,
  )

  nobody :
      (hostname host : Bytes) (r : Resolver C)
      → find hostname r.hostname_to_cb ≡ none
      → pending host r ≡ (if bytes_beq hostname host then [] else pending host r)
  nobody hostname host r e = elim (Bool-cases (bytes_beq hostname host)) [
    | inl same ↦
        let found : find host r.hostname_to_cb ≡ none =
          rw ((bytes_beq_iff hostname host).0 same) at e in
        rw (same, found) refl
    | inr other ↦ rw other refl
  ]

  emptied :
      (hostname host : Bytes) (r : Resolver C)
      → or_nil (find host (assign hostname [] r.hostname_to_cb))
        ≡ (if bytes_beq hostname host then [] else pending host r)
  emptied hostname host r = elim (Bool-cases (bytes_beq hostname host)) [
    | inl same ↦ rw (find-assign hostname host [] r.hostname_to_cb, same) refl
    | inr other ↦ rw (find-assign hostname host [] r.hostname_to_cb, other) refl
  ]

  -- Calling the callbacks for a name empties its queue.
  pub call_callback-step :
      (hostname ip : Bytes) (r : Resolver C)
      → meaning (call_callback r hostname ip) ≡ step (answer hostname ip) (queues r)
  unfolding call_callback
  call_callback-step hostname ip r = elim (Option-cases (find hostname r.hostname_to_cb)) [
    | inl e ↦ rw (e, call_callback) λ i. (fun_ext (λ host. nobody hostname host r e) i, [])
    | inr (callbacks, e) ↦
        rw (e, call_callback)
          λ i. (fun_ext (λ host. emptied hostname host r) i, calls_of-calls hostname ip callbacks i)
  ]

  -- What a found address means to the queues.
  abbrev pub heard : (Bytes → Bytes) → Option (List Bytes × Bytes) → List (Input C)
  heard inet_ntoa none = []
  heard inet_ntoa (some (names, rdata)) = answer (joined names) (inet_ntoa rdata) ∷ []

  pub answer_with-behave :
      (inet_ntoa : Bytes → Bytes) (r : Resolver C) (found : Option (List Bytes × Bytes))
      → meaning (answer_with inet_ntoa r found) ≡ behave (heard inet_ntoa found) (queues r)
  answer_with-behave inet_ntoa r none = refl
  answer_with-behave inet_ntoa r (some (names, rdata)) =
      call_callback-step (joined names) (inet_ntoa rdata) r ∙ λ i. (
        (step {C = C} (answer (joined names) (inet_ntoa rdata)) (queues r)).0,
        sym (append-nil (step {C = C} (answer (joined names) (inet_ntoa rdata)) (queues r)).1) i,
      )

  -- A step, and what follows.
  pub next_meaning :
      (r r' : Resolver C) (first more : List (Effect C)) (now later : List (Input C)) (q : Queues C)
      → meaning (r, first) ≡ behave now q
      → meaning (r', more) ≡ behave later (queues r)
      → meaning (r', first ++ more) ≡ behave (now ++ later) q
  next_meaning r r' first more now later q e e' =
      (λ i. (queues r', calls_of-append first more i))
      ∙ ap (λ p. after (meaning (r, first)) (λ _. p)) e'
      ∙ ap (λ p. after p (behave later)) e
      ∙ sym (behave-append now later q)
