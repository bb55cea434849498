-- ===== src/Routing/Router/Cache.antt =====
-- The age of what cachedCatalog (orchestrator/router.go) returns.
use ai_governance_orchestrat.Prelude.{
  ℕ, ◌+◌, ◌-◌, ◌<◌, Option, none, some, List, [], ◌∷◌, ◌≡◌, refl, arith, ltb, Bool-cases, inl, inr,
}
use ai_governance_orchestrat.Routing.Router.{
  Report, Outcome, done, refused, CachedValidation, cached_catalog, ttl_of,
}

module _ (validate : ℕ → Outcome Report) (took : ℕ → ℕ) where
  -- The cache after calls at some times.
  unfoldable pub cache_after : Option CachedValidation → List ℕ → Option CachedValidation
  cache_after cache [] = cache
  cache_after cache (now ∷ times) = cache_after (cached_catalog validate took now cache).1 times

  -- The cache holds what a validation has reported, with the time of its end.
  abbrev IsRecorded : Option CachedValidation → Type 0
  IsRecorded none = Unit
  IsRecorded (some c) =
      (start : ℕ) × (c.outcome ≡ validate start) × (c.validated_at ≡ start + took start)

  cached_catalog-IsRecorded :
      (now : ℕ) (cache : Option CachedValidation)
      → IsRecorded cache
      → IsRecorded (cached_catalog validate took now cache).1
  unfolding cached_catalog
  cached_catalog-IsRecorded now none r = (now, refl, refl)
  cached_catalog-IsRecorded now (some c) r =
      elim (Bool-cases (ltb (now - c.validated_at) (ttl_of c.outcome))) [
        | inl young ↦ rw young r
        | inr old ↦ rw old (now, refl, refl)
      ]

  cache_after-IsRecorded :
      (cache : Option CachedValidation) (times : List ℕ)
      → IsRecorded cache
      → IsRecorded (cache_after cache times)
  unfolding cache_after
  cache_after-IsRecorded cache [] r = r
  cache_after-IsRecorded cache (now ∷ times) r =
      cache_after-IsRecorded (cached_catalog validate took now cache).1 times
        (cached_catalog-IsRecorded now cache r)

  ttl_positive : (o : Outcome Report) → 0 < ttl_of o
  ttl_positive (done report) = omega arith
  ttl_positive (refused e) = omega arith

  -- An outcome that a validation gave, and that is younger than its bound at `now`.
  abbrev pub IsFresh : ℕ → Outcome Report → Type 0
  IsFresh now o = (start : ℕ) × (o ≡ validate start) × (now - (start + took start) < ttl_of o)

  cached_catalog-IsFresh :
      (now : ℕ) (cache : Option CachedValidation)
      → IsRecorded cache
      → IsFresh now (cached_catalog validate took now cache).0
  unfolding cached_catalog
  cached_catalog-IsFresh now none r = (now, refl, omega (arith, ttl_positive (validate now)))
  cached_catalog-IsFresh now (some c) (start, same, ended) =
      elim (Bool-cases (ltb (now - c.validated_at) (ttl_of c.outcome))) [
        | inl young ↦ rw young (start, same, ground arith)
        | inr old ↦ rw old (now, refl, omega (arith, ttl_positive (validate now)))
      ]

  -- After calls at any times on a new router, a further call gives what some validation reported,
  -- and that validation had not ended 30 seconds or more before the call, or 5 seconds or more if
  -- it reported an error.
  pub cache_after-IsFresh :
      (times : List ℕ) (now : ℕ)
      → IsFresh now (cached_catalog validate took now (cache_after none times)).0
  cache_after-IsFresh times now =
      cached_catalog-IsFresh now (cache_after none times) (cache_after-IsRecorded none times tt)
