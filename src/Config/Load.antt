-- ===== src/Config/Load.antt =====
-- What a configuration that is loaded satisfies: `Load`.
use open_sso.Prelude.{
  ◌≤◌, Text, codes, is_empty, byte_len, length, trim_slashes, ltb, ◌==◌, ◌&&◌, not, Bool, false,
  Option, none, some, if◌then◌else◌, ok, [], ◌∷◌, ◌≡◌, ◌⊎◌, refl, arith, Bool-cases, inl, inr,
}
use open_sso.Config.{Os, Config, load, check_config, with_master, read_config, env_text}

-- Whether a text ends with a slash.
unfoldable pub ends_with_slash : Text → Bool
ends_with_slash [] = false
ends_with_slash (c ∷ s) = if is_empty s then c == 47 else ends_with_slash s

trim_slashes-ends : (s : Text) → ends_with_slash (trim_slashes s) ≡ false
unfolding ends_with_slash trim_slashes
trim_slashes-ends [] = refl
trim_slashes-ends (c ∷ s) = ground (arith, trim_slashes-ends s)

-- The server can start with it.
pub record IsUsable (os : Os) (c : Config) : Type 0 where
  pub database : is_empty c.database_url ≡ false
  pub token : (c.bootstrap_token ≡ []) ⊎ (24 ≤ byte_len c.bootstrap_token)
  pub key : length c.master_key ≡ 32
  pub decoded : os.decode_base64 (os.getenv (codes "OPENSSO_MASTER_KEY")) ≡ some c.master_key
  pub url : ends_with_slash c.public_url ≡ false
  pub rest : c ≡ record (read_config os) { master_key = c.master_key }

check_config-ok :
    (os : Os) (c d : Config)
    → check_config os c ≡ ok d
    → (is_empty c.database_url ≡ false)
      × (not (is_empty c.bootstrap_token) && ltb (byte_len c.bootstrap_token) 24 ≡ false)
      × (with_master c (os.decode_base64 (os.getenv (codes "OPENSSO_MASTER_KEY"))) ≡ ok d)
unfolding check_config
check_config-ok os c d h = ground (arith, h)

with_master-ok :
    (c d : Config) (o : Option Text)
    → with_master c o ≡ ok d
    → (k : Text) × (o ≡ some k) × (length k ≡ 32) × (d ≡ record c { master_key = k })
unfolding with_master
with_master-ok c d none h = absurd (ground (arith, h))
with_master-ok c d (some k) h = elim (Bool-cases (length k == 32)) [
  | inl y ↦ (k, refl, ground (arith, y), ground (arith, h, y))
  | inr n ↦ absurd (ground (arith, h, n))
]

token_size :
    (t : Text) → not (is_empty t) && ltb (byte_len t) 24 ≡ false → (t ≡ []) ⊎ (24 ≤ byte_len t)
token_size [] h = inl refl
token_size (c ∷ s) h = inr (ground (arith, h))

-- A configuration that loads names a database, has no bootstrap token or one of at least 24
-- bytes, a master key of 32 bytes that was decoded from the variable, and a public URL without a
-- slash at the end; the rest is what the variables say, or the defaults.
pub load-IsUsable : (os : Os) (c : Config) → load os ≡ ok c → IsUsable os c
unfolding load read_config
load-IsUsable os c h =
    let (database, token, master) = check_config-ok os (read_config os) c h in
    let (k, decoded, size, same) =
      with_master-ok (read_config os) c (os.decode_base64 (os.getenv (codes "OPENSSO_MASTER_KEY")))
        master in
    record {
      database = rw same database;
      token = rw same (token_size (os.getenv (codes "OPENSSO_BOOTSTRAP_TOKEN")) token);
      key = rw same size;
      decoded = rw same decoded;
      url = rw same (trim_slashes-ends (env_text os "OPENSSO_PUBLIC_URL" "http://localhost:8080"));
      rest = rw same refl;
    }
