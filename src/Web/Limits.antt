-- ===== src/Web/Limits.antt =====
-- The rate limits on Redis counters: `allowOAuthRequest` of oauth.go and `allowLogin` of server.go.
use open_sso.Prelude.{
  ℕ, suc, ◌+◌, ◌*◌, Text, codes, text_eq, find, update_where, leb, ◌==◌, ◌++◌, Bool, List, ◌∷◌,
  Option, none, some, if◌then◌else◌, is_some, false,
}
use open_sso.Web.Externals.{Counter, minute}
use open_sso.Web.Statements.{next, M, ◌>>=◌, ◌>>◌, pure}
pub mod Counting

-- `n` of the counter: a missing key counts as 0.
unfoldable pub hits_of : Text → List Counter → ℕ
hits_of key cs = elim (find (λ c. text_eq c.key key) cs) [ none ↦ 0 | some c ↦ c.hits ]

-- What INCR leaves: a missing key is made without an expiry.
unfoldable pub incremented : Text → List Counter → List Counter
incremented key cs =
    if is_some (find (λ c. text_eq c.key key) cs)
    then update_where (λ c. text_eq c.key key) (λ c. record c { hits = suc c.hits }) cs
    else record { key = key; hits = 1; ttl = none } ∷ cs

unfoldable pub incr : {R : Type 0} → Text → M R (Option ℕ)
unfolding hits_of incremented
incr key e w = (
  next (if e.fault w.calls then none else some (suc (hits_of key w.counters))),
  record w {
    counters = if e.fault w.calls then w.counters else incremented key w.counters;
    calls = w.calls + 1;
  },
)

unfoldable pub expire : {R : Type 0} → Text → ℕ → M R (Unit {0})
expire key ttl e w = (
  next tt,
  record w {
    counters =
        if e.fault w.calls
        then w.counters
        else update_where (λ c. text_eq c.key key) (λ c. record c { ttl = some ttl }) w.counters;
    calls = w.calls + 1;
  },
)

unfoldable pub admit : {R : Type 0} → Text → ℕ → ℕ → Option ℕ → M R Bool
unfolding expire
admit key limit ttl none = pure false
admit key limit ttl (some n) = (if n == 1 then expire key ttl else pure tt) >> pure (leb n limit)

-- The common part: count the request, start the life of a new counter, and compare.
unfoldable pub allow : {R : Type 0} → Text → ℕ → ℕ → M R Bool
unfolding incr admit
allow key limit ttl = do n ← incr key; admit key limit ttl n

unfoldable pub allow_oauth_request : {R : Type 0} → Text → Text → ℕ → ℕ → M R Bool
unfolding allow
allow_oauth_request bucket key limit ttl =
    allow (codes "opensso:oauth:" ++ bucket ++ codes ":" ++ key) limit ttl

unfoldable pub allow_login : {R : Type 0} → Text → M R Bool
unfolding allow
allow_login ip = allow (codes "opensso:login:" ++ ip) 30 (5 * minute)
