-- ===== src/Web/Limits/Counting.antt =====
-- What a rate limit lets through.
use open_sso.Prelude.{
  ℕ, suc, Text, text_eq, text_eq_refl, find, update_where, leb, Bool, true, false, List, some, ◌≡◌,
  refl, ◌⊎◌, arith, Bool-cases, Option-cases, inl, inr,
}
use open_sso.Store.Tables.{find-update_where, find_holds}
use open_sso.Web.Externals.{Env, World, Counter}
use open_sso.Web.Statements.{next}
use open_sso.Web.Limits.{hits_of, incremented, incr, expire, admit, allow}

module _ (key : Text) where
  abbrev is_key : Counter → Bool
  is_key c = text_eq c.key key

  abbrev one_more : Counter → Counter
  one_more c = record c { hits = suc c.hits }

  hits_of-incremented :
      (cs : List Counter) → hits_of key (incremented key cs) ≡ suc (hits_of key cs)
  unfolding hits_of incremented find
  hits_of-incremented cs = elim (Option-cases (find is_key cs)) [
    | inl n ↦ ground (arith, n, text_eq_refl key)
    | inr (c, h) ↦ ground (
      arith,
      h,
      find-update_where is_key is_key one_more (λ x. refl) cs,
      find_holds is_key cs c h,
    )
  ]

  hits_of-expire :
      (ttl : ℕ) (cs : List Counter)
      → hits_of key (update_where is_key (λ c. record c { ttl = some ttl }) cs) ≡ hits_of key cs
  unfolding hits_of
  hits_of-expire ttl cs =
      ground
        (arith, find-update_where is_key is_key (λ c. record c { ttl = some ttl }) (λ x. refl) cs)

module _ (R : Type 0) (key : Text) (limit ttl : ℕ) (e : Env) (w : World) where
  -- What the limit answers, and how it counts.
  abbrev pub Counted : Type 0
  Counted =
      (allowed : Bool) × ((allow {R = R} key limit ttl e w).0 ≡ next allowed)
      × ((e.fault w.calls ≡ true)
            × (allowed ≡ false)
            × ((allow {R = R} key limit ttl e w).1.counters ≡ w.counters)
          ⊎ ((e.fault w.calls ≡ false)
              × (allowed ≡ leb (suc (hits_of key w.counters)) limit)
              × (hits_of key (allow {R = R} key limit ttl e w).1.counters
                  ≡ suc (hits_of key w.counters))))
      × ((allow {R = R} key limit ttl e w).1.db ≡ w.db)

  -- If the count succeeds, a request passes a rate limit exactly when fewer requests than the
  -- limit were counted before it, and it is counted whether it passes or not; otherwise it does
  -- not pass; the database is not touched.
  pub allow_lem : Counted
  unfolding allow incr admit expire
  allow_lem = elim (Bool-cases (e.fault w.calls)) [
    | inl x ↦ (false, ground (arith, x), inl (x, refl, ground (arith, x)), ground (arith, x))
    | inr x ↦ (
      leb (suc (hits_of key w.counters)) limit,
      ground (arith, x),
      inr (
        x,
        refl,
        ground (
          arith,
          x,
          hits_of-incremented key w.counters,
          hits_of-expire key ttl (incremented key w.counters),
        ),
      ),
      ground (arith, x),
    )
  ]
