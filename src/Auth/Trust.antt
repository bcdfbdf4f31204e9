-- ===== src/Auth/Trust.antt =====
-- Whom a request is taken for: for how long an earlier check is trusted.
use recon_sync.Common.{
  ℕ, ◌+◌, ◌≤◌, Bool, true, false, ◌≡◌, ◌⊎◌, refl, sym, ap, subst, ◌∙◌, inl, inr, Option, none, some,
  List, [], ◌∷◌, Text, lookup, length, lookup-insert, lookup-delete, ◌=?◌, ◌==◌, leb, if◌then◌else◌,
  text_eq, text_beq_iff, arith, Bool-cases, Option-cases,
}
use recon_sync.Store.State.{ApiKeyRecord}
use recon_sync.Auth.{
  Hashing, prefix, verify, Principal, CacheEntry, Cache, from_cache, store_principal, principal_of,
  Request, checked, authenticate, invalidate, Served, started, called, invalidated,
  max_cache_entries,
}

module _ (lib : Hashing) (ttl : ℕ) where
  -- At the call, the store had a record for the prefix of the secret that was not revoked and whose
  -- hash the secret matched, and it makes the principal.
  abbrev pub Vouched : Request → Principal → Type 0
  Vouched c p =
      (rec : ApiKeyRecord) × (c.find (prefix c.secret) ≡ some rec)
      × (rec.revoked_at ≡ none)
      × (verify lib rec.hash c.secret ≡ some true)
      × (p ≡ principal_of rec)

  -- One of the calls, with a secret of the same sum, vouches for the principal until the time.
  abbrev pub VouchedUntil : List Request → Text → Principal → ℕ → Type 0
  VouchedUntil [] key p until = ⊥
  VouchedUntil (c ∷ calls) key p until =
      ((lib.sha c.secret ≡ key) × (until ≡ c.stored_at + ttl) × Vouched c p)
      ⊎ VouchedUntil calls key p until

  checked-Vouched :
      (found : Option ApiKeyRecord) (secret : Text) (rec : ApiKeyRecord)
      → checked lib ttl found secret ≡ some rec
      → (found ≡ some rec) × (rec.revoked_at ≡ none) × (verify lib rec.hash secret ≡ some true)
  unfolding checked
  checked-Vouched none secret rec h = absurd (cc)
  checked-Vouched (some x) secret rec h = elim (Option-cases x.revoked_at) [
    | inr (t, e) ↦ absurd (ground (arith, h, e))
    | inl e ↦ elim (Option-cases (verify lib x.hash secret)) [
      | inl f ↦ absurd (ground (arith, h, e, f))
      | inr (ok, f) ↦ elim (Bool-cases ok) [
        | inr g ↦ absurd (ground (arith, h, e, f, g))
        | inl g ↦
            let same : x ≡ rec = ground (arith, h, e, f, g) in
            subst
              (λ (y : ApiKeyRecord).
                (some x ≡ some y) × (y.revoked_at ≡ none) × (verify lib y.hash secret ≡ some true))
              same (refl, e, f ∙ ap some g)
      ]
    ]
  ]

  abbrev pub Sound : List Request → Cache → Type 0
  Sound calls cache =
      (key : Text) (e : CacheEntry)
      → lookup key cache ≡ some e
      → VouchedUntil calls key e.principal e.expires_at

  emptied_or_kept :
      (full : Bool) (cache : Cache) (j : Text) (e : CacheEntry)
      → lookup j (if full then [] else cache) ≡ some e
      → lookup j cache ≡ some e
  unfolding lookup
  emptied_or_kept true cache j e h = absurd (cc)
  emptied_or_kept false cache j e h = h

  store_principal-lookup :
      (now : ℕ) (cache : Cache) (key j : Text) (p : Principal) (e : CacheEntry)
      → lookup j (store_principal ttl now cache key p) ≡ some e
      → ((key ≡ j) × (e.principal ≡ p) × (e.expires_at ≡ now + ttl)) ⊎ (lookup j cache ≡ some e)
  unfolding store_principal
  store_principal-lookup now cache key j p e h =
      let entry : CacheEntry = record { principal = p; expires_at = now + ttl } in
      let base = if leb max_cache_entries (length cache) then [] else cache in
      let at = lookup-insert key j entry base in
      elim (Bool-cases (key =? j)) [
        | inl f ↦
            let same : entry ≡ e = ground (arith, at, h, f) in
            inl (
              (text_beq_iff key j).0 f,
              ap (λ (x : CacheEntry). x.principal) (sym same),
              ap (λ (x : CacheEntry). x.expires_at) (sym same),
            )
        | inr f ↦
            let there : lookup j base ≡ some e = sym (at ∙ rw f refl) ∙ h in
            inr (emptied_or_kept (leb max_cache_entries (length cache)) cache j e there)
      ]

  -- What a call makes of the cache: nothing, or it adds the caller that it vouches for.
  authenticate_cases :
      (c : Request) (cache : Cache)
      → ((authenticate lib ttl c cache).0 ≡ cache)
          × (((authenticate lib ttl c cache).1 ≡ none)
              ⊎ ((p : Principal) × (from_cache c.now cache (lib.sha c.secret) ≡ some p)
                  × ((authenticate lib ttl c cache).1 ≡ some p)))
        ⊎ ((p : Principal) × Vouched c p
            × ((authenticate lib ttl c cache).0
                ≡ store_principal ttl c.stored_at cache (lib.sha c.secret) p)
            × ((authenticate lib ttl c cache).1 ≡ some p))
  unfolding authenticate
  authenticate_cases c cache = elim (Bool-cases (length c.secret == 0)) [
    | inl e ↦ rw (e, authenticate) (inl (refl, inl refl))
    | inr e ↦ elim (Option-cases (from_cache c.now cache (lib.sha c.secret))) [
      | inr (p, f) ↦ rw (e, authenticate, f) (inl (refl, inr (p, refl, refl)))
      | inl f ↦ elim (Option-cases (checked lib ttl (c.find (prefix c.secret)) c.secret)) [
        | inl g ↦ rw (e, authenticate, f, g) (inl (refl, inl refl))
        | inr (rec, g) ↦
            let (found, live, matches) =
              checked-Vouched (c.find (prefix c.secret)) c.secret rec g in
            rw (e, authenticate, f, g)
              (inr (principal_of rec, (rec, found, live, matches, refl), refl, refl))
      ]
    ]
  ]

  Served-Sound :
      {calls : List Request} {cache : Cache} → Served lib ttl calls cache → Sound calls cache
  unfolding invalidate lookup
  Served-Sound started key e h = absurd (cc)
  Served-Sound (called {calls} {cache} served c) key e h = elim (authenticate_cases c cache) [
    | inl (same, answer) ↦ inr (Served-Sound served key e (ap (lookup key) (sym same) ∙ h))
    | inr (p, vouched, stored, answer) ↦
        elim (store_principal-lookup c.stored_at cache (lib.sha c.secret) key p e
          (ap (lookup key) (sym stored) ∙ h)) [
            | inl (mine, who, until) ↦ inl (mine, until, subst (Vouched c) (sym who) vouched)
            | inr old ↦ inr (Served-Sound served key e old)
          ]
  ]
  Served-Sound (invalidated {calls} {cache} served secret) key e h =
      let at = lookup-delete (lib.sha secret) key cache in
      let kept : lookup key cache ≡ some e = ground (arith, at, h) in Served-Sound served key e kept

  from_cache-entry :
      (now : ℕ) (cache : Cache) (key : Text) (p : Principal)
      → from_cache now cache key ≡ some p
      → (e : CacheEntry) × (lookup key cache ≡ some e) × (e.principal ≡ p) × (now ≤ e.expires_at)
  unfolding from_cache
  from_cache-entry now cache key p h = elim (Option-cases (lookup key cache)) [
    | inl e ↦ absurd (ground (arith, h, e))
    | inr (e, f) ↦ (e, f, ground (arith, h, f), ground (arith, h, f))
  ]

  -- A request is taken for a caller only if the store, at this call, has a record for the prefix of
  -- its secret that is not revoked, whose hash the secret matches and which makes the caller; or if
  -- that was so at an earlier call with a secret of the same SHA-256 sum, and this call does not come
  -- later than the time to live after the earlier one stored its result.
  pub authenticate-Vouched :
      {calls : List Request} {cache : Cache}
      → Served lib ttl calls cache
      → (c : Request) (p : Principal) → (authenticate lib ttl c cache).1 ≡ some p
      → Vouched c p
        ⊎ ((until : ℕ) × (c.now ≤ until) × VouchedUntil calls (lib.sha c.secret) p until)
  authenticate-Vouched {calls} {cache} served c p h = elim (authenticate_cases c cache) [
    | inr (q, vouched, stored, answer) ↦
        let same : q ≡ p = ground (arith, answer, h) in inl (subst (Vouched c) same vouched)
    | inl (unchanged, answer) ↦ elim answer [
      | inl refused ↦ absurd (ground (arith, refused, h))
      | inr (q, found, given) ↦
          let same : q ≡ p = ground (arith, given, h) in
          let (e, at, who, time) = from_cache-entry c.now cache (lib.sha c.secret) q found in
          inr (
            e.expires_at,
            time,
            subst (λ (x : Principal). VouchedUntil calls (lib.sha c.secret) x e.expires_at)
                (who ∙ same) (Served-Sound served (lib.sha c.secret) e at),
          )
    ]
  ]
