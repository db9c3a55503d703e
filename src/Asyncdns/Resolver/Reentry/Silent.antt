-- ===== src/Asyncdns/Resolver/Reentry/Silent.antt =====
-- Callbacks that ask for nothing: `call_callback` as the rest of the resolver's model has it.
use shadowc.Base.{
  ℕ, zero, suc, ◌+◌, ◌<◌, ◌≡◌, refl, ◌∙◌, sym, ap, inl, inr, Bool, none, some, List, [], ◌∷◌, ◌++◌,
  map, Bytes, length, length-append, All, append_assoc, append-nil, find, bytes_key, get_elem?,
  get_elem?-length, get_elem?-end, Option-cases, arith,
}
use shadowc.Memory.{ok, ◌>>=◌}
use shadowc.Asyncdns.Resolver.{Resolver, calls, call_callback}
use shadowc.Asyncdns.Resolver.Pending.{pending}
use shadowc.Asyncdns.Resolver.Reentry.{Request, perform, go_through, call_callback_with}

module _ {C : Type 0} (asks : C → Bytes → Bytes → List (Request C)) (has_room : List C → Bool) where
  go_through-silent :
      (fuel : ℕ) (host ip : Bytes) (pre rest : List C) (r : Resolver C)
      → pending host r ≡ pre ++ rest
      → length rest < fuel
      → All (λ cb. asks cb host ip ≡ []) rest
      → go_through asks has_room fuel host ip (length pre) r
        ≡ ok (r, map (λ cb. calls cb host ip) rest)
  unfolding go_through perform
  go_through-silent zero host ip pre rest r p f o = absurd (omega arith)
  go_through-silent (suc fuel) host ip pre [] r p f o =
      let end : get_elem? (pending host r) (length pre) ≡ none =
        ap (λ l. get_elem? l (length pre)) (p ∙ append-nil pre) ∙ get_elem?-end pre in
      rw (end, go_through) refl
  go_through-silent (suc fuel) host ip pre (cb ∷ rest) r p f (o, os) =
      let at : get_elem? (pending host r) (length pre) ≡ some cb =
        ap (λ l. get_elem? l (length pre)) p ∙ get_elem?-length pre rest cb in
      let onward : go_through asks has_room fuel host ip (length pre + 1) r
          ≡ ok (r, map (λ cb. calls cb host ip) rest) =
        ap (λ (i : ℕ). go_through asks has_room fuel host ip i r)
          (sym (length-append pre (cb ∷ [])))
        ∙ go_through-silent fuel host ip (pre ++ cb ∷ []) rest r
            (p ∙ sym (append_assoc pre (cb ∷ []) rest)) (omega arith) os in
      rw (at, go_through, o, perform, ◌>>=◌, onward) refl

  -- If the callbacks that wait for a host name ask for nothing while they are called,
  -- `call_callback` with a round for each callback and one to end is the one that the histories of
  -- the resolver use.
  pub call_callback_with-silent :
      (fuel : ℕ) (r : Resolver C) (host ip : Bytes)
      → length (pending host r) < fuel
      → All (λ cb. asks cb host ip ≡ []) (pending host r)
      → call_callback_with asks has_room fuel r host ip ≡ ok (call_callback r host ip)
  unfolding call_callback_with call_callback
  call_callback_with-silent fuel r host ip f o = elim (Option-cases (find host r.hostname_to_cb)) [
    | inl e ↦ rw (e, call_callback_with, call_callback) refl
    | inr (callbacks, e) ↦
        let waiting : pending host r ≡ callbacks = rw e refl in
        let run = go_through-silent fuel host ip [] (pending host r) r refl f o in
        rw (e, call_callback_with, call_callback, run, ◌>>=◌, waiting) refl
  ]
