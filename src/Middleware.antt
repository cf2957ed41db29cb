-- ===== src/Middleware.antt =====
-- The middleware of backend/internal/httpapi/server.go, which stands before every route.
use open_sso.Prelude.{
  Text, codes, text_eq, is_empty, starts_with, ◌&&◌, ◌||◌, not, Bool, true, false, Option, none,
  some, if◌then◌else◌, List, [], ◌∷◌,
}
use open_sso.Web.{Env, M, Handler, Response, ◌>>=◌, ◌>>◌, pure, check, ask, problem}
use open_sso.Routes.{Request, dispatch}
pub mod Guard

-- What the middleware reads of a request; `same_host` is `strings.EqualFold` of its host and the
-- configured one.
pub record Http : Type 0 where
  pub method : Text
  pub path : Text
  pub same_host : Bool
  pub csrf_cookie : Option Text
  pub csrf_header : Text
  pub session : Option Text

-- The methods and the paths that need no CSRF token.
unfoldable pub needs_csrf : Http → Bool
unfolding starts_with
needs_csrf h =
    starts_with h.path (codes "/api/v1/")
    && not (text_eq h.method (codes "GET"))
    && not (text_eq h.method (codes "HEAD"))
    && not (text_eq h.method (codes "OPTIONS"))
    && not (text_eq h.path (codes "/api/v1/auth/login"))
    && not (text_eq h.path (codes "/api/v1/setup/bootstrap"))

-- The header repeats the cookie.
unfoldable pub csrf_token_matches : Http → Bool
csrf_token_matches h = elim h.csrf_cookie [
  | none ↦ false
  | some c ↦ not (is_empty h.csrf_header) && text_eq c h.csrf_header
]

-- The test of the host, with what `parse_url` gives of the configured URL.
abbrev pub check_host : Http → Option (Text × (Text × Text)) → M Response (Unit {0})
check_host h none = check false (problem 500 "invalid public URL configuration")
check_host h (some u) = do
  check (not (is_empty ((u.1).0))) (problem 500 "invalid public URL configuration")
  check h.same_host (problem 400 "invalid host")

-- `middleware`. The request id and the headers are left out.
unfoldable pub middleware : Http → Handler → Handler
unfolding starts_with needs_csrf csrf_token_matches
middleware h next = do
  url ← ask (λ e. e.parse_url e.public_url)
  (if starts_with h.path (codes "/health/") then pure tt else check_host h url)
  check (not (needs_csrf h) || csrf_token_matches h) (problem 403 "CSRF validation failed")
  next

-- A request, through the middleware.
unfoldable pub serve : Http → Request → Handler
unfolding middleware dispatch
serve h r = middleware h (dispatch h.session r)
