-- ===== src/Policy/Bounds.antt =====
-- The bounds of the stored policy, and what a password has to have.
use open_sso.Prelude.{
  ℕ, Text, [], ◌∷◌, ◌++◌, length, not, ◌&&◌, Bool, true, false, none, ◌≡◌, ◌⊎◌, ◌↔◌, ◌≤◌, ◌∙◌, inl,
  inr, refl, ap, arith, Bool-cases,
}
use open_sso.Store.{SecurityPolicy}
use open_sso.Web.{Env, World, run}
use open_sso.Session.{Principal}
use open_sso.Policy.{
  some_char, password_policy_violation, in_bounds, set_policy, update_security_policy,
}
use open_sso.Audit.{insert_event}

-- Some character of the text is in the class.
abbrev pub Has : (ℕ → Bool) → Text → Type 0
Has p s = (before : Text) × (c : ℕ) × (after : Text) × (s ≡ before ++ (c ∷ after)) × (p c ≡ true)

some_char-Has : (p : ℕ → Bool) (s : Text) → some_char p s ≡ true → Has p s
unfolding some_char
some_char-Has p [] h = ground arith
some_char-Has p (c ∷ s) h = elim (Bool-cases (p c)) [
  | inl y ↦ ([], c, s, refl, y)
  | inr n ↦
      let (before, d, after, here, y) = some_char-Has p s (ground (arith, h, n)) in
      (c ∷ before, d, after, ap (λ t. c ∷ t) here, y)
]

some_here :
    (p : ℕ → Bool) (before : Text) (c : ℕ) (after : Text)
    → p c ≡ true
    → some_char p (before ++ (c ∷ after)) ≡ true
unfolding some_char
some_here p [] c after y = ground (arith, y)
some_here p (b ∷ before) c after y = ground (arith, some_here p before c after y)

Has-some_char : (p : ℕ → Bool) (s : Text) → Has p s → some_char p s ≡ true
Has-some_char p s (before, c, after, here, y) = ap (some_char p) here ∙ some_here p before c after y

-- The class is not asked for, or there is a character of it.
abbrev pub Meets : Bool → (ℕ → Bool) → Text → Type 0
Meets asked p s = (asked ≡ false) ⊎ Has p s

meets :
    (asked : Bool) (p : ℕ → Bool) (s : Text)
    → asked && not (some_char p s) ≡ false
    → Meets asked p s
meets asked p s h = elim (Bool-cases asked) [
  | inr n ↦ inl n
  | inl y ↦ inr (some_char-Has p s (ground (arith, h, y)))
]

met :
    (asked : Bool) (p : ℕ → Bool) (s : Text)
    → Meets asked p s
    → asked && not (some_char p s) ≡ false
met asked p s (inl n) = ground (arith, n)
met asked p s (inr h) = ground (arith, Has-some_char p s h)

-- A password violates the policy in no way exactly when it is long enough and somewhere in it
-- stands a character of each class that the policy asks for.
pub password_policy_violation_iff :
    (e : Env) (p : SecurityPolicy) (password : Text)
    → (password_policy_violation e p password ≡ none) ↔ (
        (p.password_min_length ≤ length password)
        × Meets p.password_require_upper e.is_upper password
        × Meets p.password_require_lower e.is_lower password
        × Meets p.password_require_digit e.is_digit password
        × Meets p.password_require_symbol e.is_symbol password)
unfolding password_policy_violation
password_policy_violation_iff e p password = (
  λ h. (
    ground (arith, h),
    meets p.password_require_upper e.is_upper password (ground (arith, h)),
    meets p.password_require_lower e.is_lower password (ground (arith, h)),
    meets p.password_require_digit e.is_digit password (ground (arith, h)),
    meets p.password_require_symbol e.is_symbol password (ground (arith, h)),
  ),
  λ (long, upper, lower, digit, symbol). ground (
    arith,
    long,
    met p.password_require_upper e.is_upper password upper,
    met p.password_require_lower e.is_lower password lower,
    met p.password_require_digit e.is_digit password digit,
    met p.password_require_symbol e.is_symbol password symbol,
  ),
)

abbrev pub IsBounded : SecurityPolicy → Type 0
IsBounded p =
    (12 ≤ p.password_min_length)
    × (p.password_min_length ≤ 128)
    × (3 ≤ p.lockout_threshold)
    × (p.lockout_threshold ≤ 100)
    × (1 ≤ p.lockout_minutes)
    × (p.lockout_minutes ≤ 1_440)
    × (5 ≤ p.session_ttl_minutes)
    × (p.session_ttl_minutes ≤ 10_080)

-- An update of the security policy keeps a stored policy within its bounds, whatever the request
-- asks for.
pub update_security_policy-IsBounded :
    (actor : Principal) (p : SecurityPolicy) (e : Env) (w : World)
    → IsBounded w.db.policy
    → IsBounded (run (update_security_policy actor p) e w).1.db.policy
unfolding update_security_policy in_bounds set_policy insert_event
update_security_policy-IsBounded actor p e w h = ground arith
