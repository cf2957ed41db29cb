-- ===== src/Password.antt =====
-- `HashPassword` and `VerifyPassword` of backend/internal/security/security.go.
use open_sso.Prelude.{
  ℕ, String, ◌+◌, ◌*◌, ◌-◌, Text, codes, text_eq, byte_len, length, leb, ltb, ◌==◌, ◌&&◌, ◌||◌, not,
  Bool, false, List, [], ◌∷◌, ◌++◌, Option, none, some, if◌then◌else◌,
}
use open_sso.Web.{Env, M, ◌>>=◌, ◌>>◌, check, ask, draw, or_stop}
use Prim.Native.Nat.{◌%◌}
pub mod RoundTrip

-- `strings.Split(s, sep)` for a separator of one character: never empty.
abbrev onto_first : ℕ → List Text → List Text
onto_first c [] = (c ∷ []) ∷ []
onto_first c (w ∷ ws) = (c ∷ w) ∷ ws

unfoldable pub split_on : ℕ → Text → List Text
split_on sep [] = [] ∷ []
split_on sep (c ∷ s) =
    let rest = split_on sep s in if c == sep then [] ∷ rest else onto_first c rest

-- `strings.SplitN(item, "=", 2)`: none without an `=`.
unfoldable pub split_pair : Text → Option (Text × Text)
split_pair [] = none
split_pair (c ∷ s) =
    let rest = split_pair s in
    if c == b'=' then some ([], s) else elim rest [ none ↦ none | some (k, v) ↦ some (c ∷ k, v) ]

-- `strconv.ParseUint(s, 10, 32)`.
unfoldable pub digits : Text → ℕ → Option ℕ
digits [] n = some n
digits (c ∷ s) n =
    let rest = digits s (n * 10 + (c - b'0')) in if leb b'0' c && leb c b'9' then rest else none

unfoldable pub parse_uint : Text → Option ℕ
unfolding digits
parse_uint [] = none
parse_uint (c ∷ s) = elim (digits (c ∷ s) 0) [
  | none ↦ none
  | some n ↦ if ltb n 4_294_967_296 then some n else none
]

-- The parameters `m`, `t` and `p` of an encoded hash.
pub record Cost : Type 0 where
  pub memory : ℕ
  pub time : ℕ
  pub threads : ℕ

-- One round of the loop over the parameters.
unfoldable pub set_cost : Text → ℕ → Cost → Option Cost
set_cost k n c =
    if text_eq k (codes "m")
    then some (record c { memory = n })
    else if text_eq k (codes "t")
    then some (record c { time = n })
    else if text_eq k (codes "p")
    then some (record c { threads = n })
    else none

unfoldable pub read_item : Text → Cost → Option Cost
unfolding set_cost split_pair parse_uint
read_item item c = elim (split_pair item) [
  | none ↦ none
  | some (k, v) ↦ elim (parse_uint v) [ none ↦ none | some n ↦ set_cost k n c ]
]

unfoldable pub read_cost : List Text → Cost → Option Cost
unfolding read_item
read_cost [] c = some c
read_cost (item ∷ items) c = elim (read_item item c) [ none ↦ none | some d ↦ read_cost items d ]

abbrev no_cost : Cost
no_cost = record { memory = 0; time = 0; threads = 0 }

-- The key of the password with the salt and the cost of the encoded hash.
unfoldable pub compare_key : Env → Text → Text → Text → Cost → Bool
compare_key e password salt expected c =
    text_eq expected
      (e.argon_id_key password salt c.time c.memory (c.threads % 256) (length expected))

unfoldable pub verify_parts : Env → Text → List Text → Bool
unfolding read_cost compare_key
verify_parts e password (_ ∷ name ∷ version ∷ cost ∷ salt ∷ hash ∷ []) =
    if not (text_eq name (codes "argon2id")) || not (text_eq version (codes "v=19"))
    then false
    else elim (read_cost (split_on b',' cost) no_cost) [
      | none ↦ false
      | some c ↦ elim (e.std_decode salt) [
        | none ↦ false
        | some salt_bytes ↦ elim (e.std_decode hash) [
          | none ↦ false
          | some expected ↦ compare_key e password salt_bytes expected c
        ]
      ]
    ]
verify_parts e password _ = false

-- `VerifyPassword`.
unfoldable pub verify_password : Env → Text → Text → Bool
unfolding verify_parts split_on
verify_password e encoded password = verify_parts e password (split_on b'$' encoded)

-- The text that `HashPassword` builds.
unfoldable pub encode_hash : Env → Text → Text → Text
encode_hash e salt password =
    codes "$argon2id$v=19$m=65536,t=3,p=2$"
    ++ e.std_encode salt
    ++ codes "$"
    ++ e.std_encode (e.argon_id_key password salt 3 65_536 2 32)

-- `HashPassword`; the salt is read from the random source, whose own error text is not modelled.
unfoldable pub hash_password : Text → M String Text
unfolding encode_hash
hash_password password = do
  check (not (ltb (byte_len password) 12)) "password must contain at least 12 characters"
  salt ← or_stop (← draw) "entropy failure"
  ask (λ e. encode_hash e salt password)
