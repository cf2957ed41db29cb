-- ===== src/Branding.antt =====
-- The login page: backend/internal/httpapi/branding.go.
use open_sso.Prelude.{
  ℕ, Text, codes, text_eq, is_empty, trim_space, starts_with, byte_len, length, exists, leb, ltb,
  ◌==◌, ◌&&◌, ◌||◌, not, is_some, Bool, true, false, Option, none, some, if◌then◌else◌, [], ◌∷◌,
  Result, ok, err, String,
}
use open_sso.Store.{Db, ℤ, pos, negsuc, LoginUi, Target}
use open_sso.Web.{
  Env, RequestUri, M, Handler, Response, ◌>>=◌, ◌>>◌, pure, stop, or_stop, check, ask, query, exec,
  respond, problem, login_page,
}
use open_sso.Audit.{audit}
use open_sso.Session.{Principal}
pub mod Bounds

-- `defaultLoginUISettings`.
abbrev pub default_login_ui : LoginUi
default_login_ui = record {
  enabled = false;
  brand_name = codes "OpenSSO";
  heading = codes "Sign in";
  subheading = codes "Use your OpenSSO account.";
  logo_url = [];
  background_image_url = [];
  background_color = codes "#0b1020";
  card_color = codes "#11192d";
  text_color = codes "#e8edf5";
  muted_text_color = codes "#9db0ca";
  primary_color = codes "#5b7cfa";
  input_background_color = codes "#0d1526";
  border_color = codes "#223150";
  card_radius = pos 16;
  card_width = pos 460;
  notice_text = [];
  footer_text = [];
  show_brand_name = true;
  show_footer = false;
}

-- A digit of `[0-9a-fA-F]`.
unfoldable pub is_hex : ℕ → Bool
is_hex c =
    (leb (b'0') c && leb c (b'9'))
    || (leb (b'a') c && leb c (b'f'))
    || (leb (b'A') c && leb c (b'F'))

-- `loginUIColorPattern`.
unfoldable pub is_color : Text → Bool
unfolding is_hex
is_color (h ∷ a ∷ b ∷ c ∷ d ∷ e ∷ f ∷ []) =
    h == b'#' && is_hex a && is_hex b && is_hex c && is_hex d && is_hex e && is_hex f
is_color _ = false

-- The characters of `"\"'\\\r\n\t"`.
unfoldable is_unsafe : ℕ → Bool
is_unsafe c = c == 34 || c == 39 || c == 92 || c == 13 || c == 10 || c == 9

-- The last two tests of `validateLoginUIMediaURL`.
unfoldable valid_target : Text → RequestUri → Bool
unfolding starts_with
valid_target raw u =
    if starts_with raw (codes "/")
    then not (starts_with raw (codes "//"))
      && is_empty u.scheme
      && is_empty u.host
      && starts_with u.path (codes "/")
    else not (is_empty u.host)
      && (text_eq u.scheme (codes "https") || text_eq u.scheme (codes "http"))

-- `validateLoginUIMediaURL`: whether it returns no error.
unfoldable pub valid_media_url : Env → Text → Bool
unfolding valid_target is_unsafe
valid_media_url e [] = true
valid_media_url e (c ∷ s) = not (exists is_unsafe (c ∷ s)) && elim (e.parse_request_uri (c ∷ s)) [
  | none ↦ false
  | some u ↦ is_empty u.fragment && not u.has_user && valid_target (c ∷ s) u
]

-- The fields without the spaces around them.
unfoldable pub trimmed : LoginUi → LoginUi
trimmed i = record i {
  brand_name = trim_space i.brand_name;
  heading = trim_space i.heading;
  subheading = trim_space i.subheading;
  logo_url = trim_space i.logo_url;
  background_image_url = trim_space i.background_image_url;
  notice_text = trim_space i.notice_text;
  footer_text = trim_space i.footer_text;
}

-- Between two limits: neither `n < low` nor `n > high`.
unfoldable pub is_between : ℕ → ℕ → ℤ → Bool
is_between low high (pos n) = leb low n && leb n high
is_between low high (negsuc n) = false

unfoldable pub valid_texts : LoginUi → Bool
valid_texts i =
    leb (length i.subheading) 240
    && leb (length i.notice_text) 500
    && leb (length i.footer_text) 240

unfoldable pub valid_colors : LoginUi → Bool
unfolding is_color
valid_colors i =
    is_color i.background_color
    && is_color i.card_color
    && is_color i.text_color
    && is_color i.muted_text_color
    && is_color i.primary_color
    && is_color i.input_background_color
    && is_color i.border_color

-- The tests of `normalizeLoginUISettings`. Which color the message names depends on the order in
-- which Go goes through a map, and is left out, as is what follows the name of an URL.
unfoldable pub check_login_ui : Env → LoginUi → Result String LoginUi
unfolding valid_texts is_between valid_colors valid_media_url
check_login_ui e i =
    if is_empty i.brand_name || ltb 100 (length i.brand_name)
    then err "brand_name must contain 1-100 characters"
    else if is_empty i.heading || ltb 120 (length i.heading)
    then err "heading must contain 1-120 characters"
    else if not (valid_texts i)
    then err "login UI text exceeds allowed length"
    else if not (is_between 0 48 i.card_radius)
    then err "card_radius must be between 0 and 48"
    else if not (is_between 320 720 i.card_width)
    then err "card_width must be between 320 and 720"
    else if ltb 2_048 (byte_len i.logo_url) || ltb 2_048 (byte_len i.background_image_url)
    then err "login UI media URL exceeds 2048 bytes"
    else if not (valid_colors i)
    then err "must be a six-digit hexadecimal color"
    else if not (valid_media_url e i.logo_url)
    then err "logo_url"
    else if not (valid_media_url e i.background_image_url)
    then err "background_image_url"
    else ok i

-- `normalizeLoginUISettings`.
unfoldable pub normalize_login_ui : Env → LoginUi → Result String LoginUi
unfolding check_login_ui trimmed
normalize_login_ui e i = check_login_ui e (trimmed i)

-- `loadLoginUISettings`.
abbrev load_login_ui : M Response (Option LoginUi)
load_login_ui = query (λ db. db.login_ui)

unfoldable pub public_login_ui : Handler
public_login_ui = do
  out ← or_stop (← load_login_ui) (problem 500 "database error")
  pure (respond 200 (login_page (if out.enabled then out else default_login_ui)))

unfoldable pub admin_login_ui : Handler
admin_login_ui = do
  out ← or_stop (← load_login_ui) (problem 500 "database error")
  pure (respond 200 (login_page out))

-- `UPDATE login_ui_settings SET … WHERE id=1`; the time and the user of the update are left out.
-- What is stored passed the tests, which imply the constraints of the columns.
unfoldable pub put_login_ui : LoginUi → Db → Db
put_login_ui i db = record db { login_ui = i }

-- The error of the validation is answered, a valid input is stored.
unfoldable pub store_login_ui : Principal → Result String LoginUi → Handler
unfolding put_login_ui
store_login_ui actor (err x) = pure (problem 400 x)
store_login_ui actor (ok i) = do
  stored ← exec (put_login_ui i)
  check stored (problem 500 "database error")
  audit (some actor.user_id) "LOGIN_UI_UPDATED" (Target.login_ui 1) true
  pure (respond 200 (login_page i))

unfoldable pub update_login_ui : Principal → LoginUi → Handler
unfolding normalize_login_ui store_login_ui
update_login_ui actor i = do r ← ask (λ e. normalize_login_ui e i); store_login_ui actor r

unfoldable pub reset_login_ui : Principal → Handler
unfolding put_login_ui
reset_login_ui actor = do
  stored ← exec (put_login_ui default_login_ui)
  check stored (problem 500 "database error")
  audit (some actor.user_id) "LOGIN_UI_RESET" (Target.login_ui 1) true
  pure (respond 200 (login_page default_login_ui))
