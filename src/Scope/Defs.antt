-- ===== src/Scope/Defs.antt =====
-- The functions on scopes and verifiers.
use open_sso.Prelude.{
  ℕ, Text, text_eq, fields, join_words, byte_len, is_empty, leb, ltb, ◌==◌, if◌then◌else◌, Bool,
  true, false, not, ◌&&◌, ◌||◌, List, [], ◌∷◌, ◌++◌, Result, ok, err,
}
use open_sso.Web.{Env, sha256_string}

pub data ScopeError : Type 0 where
  invalid_scope scope_required : ScopeError

-- `contains`, and `audienceContains`.
unfoldable pub contains : List Text → Text → Bool
contains [] target = false
contains (value ∷ values) target = text_eq value target || contains values target

unfoldable pub contains_all : List Text → List Text → Bool
contains_all allowed [] = true
contains_all allowed (scope ∷ requested) = contains allowed scope && contains_all allowed requested

-- One round of the loop of `mergeScopes`.
abbrev pub add_scope : List Text → Text → List Text
add_scope out value = if contains out value then out else (out ++ (value ∷ []))

unfoldable pub merge_scopes : List Text → List Text → List Text
merge_scopes a [] = a
merge_scopes a (value ∷ b) = merge_scopes (add_scope a value) b

-- The test of a character in `splitScope`: quotes and backslashes, spaces and controls are refused.
unfoldable pub scope_char : ℕ → Bool
scope_char ch = not (leb ch 0x20 || ch == 0x7f || ch == 34 || ch == 92)

unfoldable pub scope_chars : Text → Bool
scope_chars [] = true
scope_chars (ch ∷ s) = scope_char ch && scope_chars s

-- The loop of `splitScope`. The map `seen` holds what is in `out`.
unfoldable pub split_loop : List Text → List Text → Result ScopeError (List Text)
split_loop [] out = if is_empty out then err scope_required else ok out
split_loop (scope ∷ fs) out =
    let rest = split_loop fs (add_scope out scope) in
    if is_empty scope || not (scope_chars scope) then err invalid_scope else rest

unfoldable pub split_scope : Text → Result ScopeError (List Text)
unfolding split_loop
split_scope raw = split_loop (fields raw) []

-- `scopes, _ := splitScope(raw)`: no scopes on an error.
unfoldable pub scopes_of : Text → List Text
scopes_of raw = elim (split_scope raw) [ ok scopes ↦ scopes | err _ ↦ [] ]

unfoldable pub normalize_requested_scope : Text → Result ScopeError (Text × List Text)
normalize_requested_scope raw = elim (split_scope raw) [
  | ok scopes ↦ ok (join_words scopes, scopes)
  | err x ↦ err x
]

-- Letters, digits and `-._~`.
unfoldable pub verifier_char : ℕ → Bool
verifier_char c =
    (leb b'a' c && leb c b'z')
    || (leb b'A' c && leb c b'Z')
    || (leb b'0' c && leb c b'9')
    || c == b'-'
    || c == b'.'
    || c == b'_'
    || c == b'~'

unfoldable pub verifier_chars : Text → Bool
verifier_chars [] = true
verifier_chars (c ∷ s) = verifier_char c && verifier_chars s

unfoldable pub valid_pkce_verifier : Text → Bool
valid_pkce_verifier value =
    if ltb (byte_len value) 43 || ltb 128 (byte_len value) then false else verifier_chars value

unfoldable pub verify_pkce : Env → Text → Text → Bool
verify_pkce e verifier expected =
    if valid_pkce_verifier verifier then text_eq (sha256_string e verifier) expected else false
