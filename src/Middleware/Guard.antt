-- ===== src/Middleware/Guard.antt =====
-- What the middleware lets through.
use open_sso.Prelude.{
  Text, codes, text_eq, text_eq_iff, starts_with, [], ◌∷◌, ◌++◌, some, true, false, ◌≡◌, ◌≢◌, ◌⊎◌,
  inl, inr, refl, ap, ◌∙◌, arith, Bool-cases, Option-cases,
}
use open_sso.Web.{Env, World, Response, run}
use open_sso.Routes.{Request}
use open_sso.Middleware.{Http, serve, middleware, needs_csrf, csrf_token_matches}

-- The request ends with an error of the middleware, and the world is as it was.
abbrev pub Stopped : World → Response × World → Type 0
Stopped w (r, v) = (v ≡ w) × (((r.status ≡ 403) ⊎ (r.status ≡ 400)) ⊎ (r.status ≡ 500))

-- The request is one that changes something: it is under /api/v1/, neither a login nor the first
-- set-up, and its method is none of those that only read.
abbrev pub Changes : Http → Type 0
Changes h =
    (rest : Text) × (h.path ≡ codes "/api/v1/" ++ rest)
    × (h.path ≢ codes "/api/v1/auth/login")
    × (h.path ≢ codes "/api/v1/setup/bootstrap")
    × (h.method ≢ codes "GET")
    × (h.method ≢ codes "HEAD")
    × (h.method ≢ codes "OPTIONS")

-- The header is empty, or is not the text of the cookie.
abbrev pub LacksToken : Http → Type 0
LacksToken h = (h.csrf_header ≡ []) ⊎ (h.csrf_cookie ≢ some h.csrf_header)

differs : (s t : Text) → s ≢ t → text_eq s t ≡ false
differs s t n = elim (Bool-cases (text_eq s t)) [
  | inl y ↦ absurd (n ((text_eq_iff s t).0 y))
  | inr y ↦ y
]

starts_nothing : (s : Text) → starts_with s [] ≡ true
unfolding starts_with
starts_nothing [] = refl
starts_nothing (c ∷ s) = refl

starts_with-append : (p s : Text) → starts_with (p ++ s) p ≡ true
unfolding starts_with
starts_with-append [] s = starts_nothing s
starts_with-append (c ∷ p) s = ground (arith, starts_with-append p s)

Changes-needs_csrf : (h : Http) → Changes h → needs_csrf h ≡ true
unfolding needs_csrf
Changes-needs_csrf h (rest, under, login, first, get, head, options) = ground (
  arith,
  ap (λ p. starts_with p (codes "/api/v1/")) under ∙ starts_with-append (codes "/api/v1/") rest,
  differs h.path (codes "/api/v1/auth/login") login,
  differs h.path (codes "/api/v1/setup/bootstrap") first,
  differs h.method (codes "GET") get,
  differs h.method (codes "HEAD") head,
  differs h.method (codes "OPTIONS") options,
)

lacks : (h : Http) → LacksToken h → csrf_token_matches h ≡ false
unfolding csrf_token_matches
lacks h (inl n) = ground (arith, n)
lacks h (inr n) = elim (Option-cases h.csrf_cookie) [
  | inl x ↦ rw x refl
  | inr (c, x) ↦ rw x (ground (arith, differs c h.csrf_header (λ same. n (x ∙ ap some same))))
]

-- A request under /api/v1/ other than a login or the first set-up, with a method other than GET,
-- HEAD and OPTIONS, whose CSRF header is empty or not the text of the cookie, is answered 403,
-- 400 or 500 on every route, and leaves the world as it was.
pub serve-Stopped :
    (h : Http) (r : Request) (e : Env) (w : World)
    → Changes h
    → LacksToken h
    → Stopped w (run (serve h r) e w)
unfolding serve middleware
serve-Stopped h r e w changes missing =
    ground (arith, Changes-needs_csrf h changes, lacks h missing)
