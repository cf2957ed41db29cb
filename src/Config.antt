-- ===== src/Config.antt =====
-- The configuration: backend/internal/config/config.go.
use open_sso.Prelude.{
  ℕ, ◌*◌, String, Text, codes, is_empty, byte_len, length, trim_slashes, leb, ltb, ◌==◌, ◌&&◌, not,
  Bool, true, false, Option, none, some, coalesce, if◌then◌else◌, Result, ok, err, [], ◌∷◌,
}
use open_sso.Store.{ℤ, pos}
use open_sso.Web.{minute}
pub mod Load

-- What the program calls: os.Getenv, which gives an empty text for a variable that is not set;
-- strconv.ParseBool; time.ParseDuration, in nanoseconds; base64.StdEncoding.
pub record Os : Type 0 where
  pub getenv : Text → Text
  pub parse_bool : Text → Option Bool
  pub parse_duration : Text → Option ℤ
  pub decode_base64 : Text → Option Text

pub record Config : Type 0 where
  pub listen_addr : Text
  pub public_url : Text
  pub database_url : Text
  pub redis_url : Text
  pub cookie_secure : Bool
  pub trust_proxy_headers : Bool
  pub session_ttl : ℤ
  pub bootstrap_token : Text
  pub master_key : Text

-- A value that is not empty, or the default.
abbrev or_else_use : Text → Text → Text
or_else_use [] d = d
or_else_use (c ∷ s) d = c ∷ s

-- `env`, `envBool` and `envDuration`.
unfoldable pub env_text : Os → String → String → Text
env_text os k d = or_else_use (os.getenv (codes k)) (codes d)

unfoldable env_bool : Os → String → Bool → Bool
env_bool os k d =
    let v = os.getenv (codes k) in if is_empty v then d else coalesce (os.parse_bool v) d

unfoldable env_duration : Os → String → ℤ → ℤ
env_duration os k d =
    let v = os.getenv (codes k) in if is_empty v then d else coalesce (os.parse_duration v) d

-- What is read before the tests; the master key comes last.
unfoldable pub read_config : Os → Config
unfolding env_text env_bool env_duration
read_config os = record {
  listen_addr = env_text os "OPENSSO_LISTEN_ADDR" ":8080";
  public_url = trim_slashes (env_text os "OPENSSO_PUBLIC_URL" "http://localhost:8080");
  database_url = os.getenv (codes "OPENSSO_DATABASE_URL");
  redis_url = env_text os "OPENSSO_REDIS_URL" "redis://redis:6379/0";
  cookie_secure = env_bool os "OPENSSO_COOKIE_SECURE" false;
  trust_proxy_headers = env_bool os "OPENSSO_TRUST_PROXY_HEADERS" false;
  session_ttl = env_duration os "OPENSSO_SESSION_TTL" (pos (12 * 60 * minute));
  bootstrap_token = os.getenv (codes "OPENSSO_BOOTSTRAP_TOKEN");
  master_key = [];
}

abbrev master_error : String
master_error = "OPENSSO_MASTER_KEY must be base64-encoded 32-byte key"

-- The key has 32 bytes.
unfoldable pub with_master : Config → Option Text → Result String Config
with_master c none = err master_error
with_master c (some k) =
    if length k == 32 then ok (record c { master_key = k }) else err master_error

-- The tests of `Load`.
unfoldable pub check_config : Os → Config → Result String Config
unfolding with_master
check_config os c =
    if is_empty c.database_url
    then err "OPENSSO_DATABASE_URL is required"
    else if not (is_empty c.bootstrap_token) && ltb (byte_len c.bootstrap_token) 24
    then err "OPENSSO_BOOTSTRAP_TOKEN must contain at least 24 characters"
    else if is_empty (os.getenv (codes "OPENSSO_MASTER_KEY"))
    then err "OPENSSO_MASTER_KEY is required"
    else with_master c (os.decode_base64 (os.getenv (codes "OPENSSO_MASTER_KEY")))

-- `Load`.
unfoldable pub load : Os → Result String Config
unfolding check_config read_config
load os = check_config os (read_config os)
