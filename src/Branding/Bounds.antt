-- ===== src/Branding/Bounds.antt =====
-- What is stored for the login page: `normalizeLoginUISettings` and the handlers that write.
use open_sso.Prelude.{
  ℕ, ◌≤◌, Text, length, byte_len, is_empty, ltb, ◌⊎◌, Bool, not, if◌then◌else◌, ◌||◌, Option, none,
  some, true, false, Bool-cases, inl, inr, ◌≡◌, refl, arith, Result, ok, err, String, [], ◌∷◌,
}
use open_sso.Store.{LoginUi, pos, negsuc, ℤ}
use open_sso.Web.{Env, World, run}
use open_sso.Session.{Principal}
use open_sso.Audit.{insert_event}
use open_sso.Branding.{
  default_login_ui, check_login_ui, normalize_login_ui, trimmed, is_between, valid_texts,
  valid_colors, valid_media_url, is_color, is_hex, put_login_ui, store_login_ui, update_login_ui,
  reset_login_ui,
}

-- The settings are fit to be shown.
pub record IsValid (e : Env) (i : LoginUi) : Type 0 where
  pub named : (1 ≤ length i.brand_name) × (length i.brand_name ≤ 100)
  pub headed : (1 ≤ length i.heading) × (length i.heading ≤ 120)
  pub texts : valid_texts i ≡ true
  pub radius : (n : ℕ) × (i.card_radius ≡ pos n) × (n ≤ 48)
  pub width : (n : ℕ) × (i.card_width ≡ pos n) × (320 ≤ n) × (n ≤ 720)
  pub colors : valid_colors i ≡ true
  pub urls :
      (valid_media_url e i.logo_url ≡ true)
      × (valid_media_url e i.background_image_url ≡ true)
      × (byte_len i.logo_url ≤ 2_048)
      × (byte_len i.background_image_url ≤ 2_048)

between :
    (low high : ℕ) (z : ℤ)
    → is_between low high z ≡ true
    → (n : ℕ) × (z ≡ pos n) × (low ≤ n) × (n ≤ high)
unfolding is_between
between low high (pos n) h = (n, refl, ground (arith, h), ground (arith, h))
between low high (negsuc n) h = absurd (ground (arith, h))

some_length : (s : Text) → is_empty s ≡ false → 1 ≤ length s
some_length [] h = absurd (ground (arith, h))
some_length (c ∷ s) h = omega arith

-- What the tests say, one by one.
abbrev Passes : Env → LoginUi → Type 0
Passes e i =
    (is_empty i.brand_name || ltb 100 (length i.brand_name) ≡ false)
    × (is_empty i.heading || ltb 120 (length i.heading) ≡ false)
    × (valid_texts i ≡ true)
    × (is_between 0 48 i.card_radius ≡ true)
    × (is_between 320 720 i.card_width ≡ true)
    × (ltb 2_048 (byte_len i.logo_url) || ltb 2_048 (byte_len i.background_image_url) ≡ false)
    × (valid_colors i ≡ true)
    × (valid_media_url e i.logo_url ≡ true)
    × (valid_media_url e i.background_image_url ≡ true)

-- A test that is passed.
passed :
    (b : Bool) (x : String) (rest : Result String LoginUi) (j : LoginUi)
    → (if b then err x else rest) ≡ ok j
    → (b ≡ false) × (rest ≡ ok j)
passed true x rest j h = absurd (ground (arith, h))
passed false x rest j h = (refl, h)

holds : (b : Bool) → not b ≡ false → b ≡ true
holds b h = ground (arith, h)

check_login_ui-Passes : (e : Env) (i j : LoginUi) → check_login_ui e i ≡ ok j → (i ≡ j) × Passes e i
unfolding check_login_ui
check_login_ui-Passes e i j h =
    let (name, h1) = passed _ _ _ j h in
    let (head, h2) = passed _ _ _ j h1 in
    let (texts, h3) = passed _ _ _ j h2 in
    let (radius, h4) = passed _ _ _ j h3 in
    let (width, h5) = passed _ _ _ j h4 in
    let (sizes, h6) = passed _ _ _ j h5 in
    let (colors, h7) = passed _ _ _ j h6 in
    let (logo, h8) = passed _ _ _ j h7 in
    let (image, same) = passed _ _ _ j h8 in
    (
      ground (arith, same),
      (
        name,
        head,
        holds _ texts,
        holds _ radius,
        holds _ width,
        sizes,
        holds _ colors,
        holds _ logo,
        holds _ image,
      ),
    )

Passes-IsValid : (e : Env) (i : LoginUi) → Passes e i → IsValid e i
Passes-IsValid e i (name, head, texts, r, w, sizes, colors, logo, image) =
    let (n, radius, low, high) = between 0 48 i.card_radius r in
    let (m, width, least, most) = between 320 720 i.card_width w in
    record {
      named = (some_length i.brand_name (ground (arith, name)), ground (arith, name));
      headed = (some_length i.heading (ground (arith, head)), ground (arith, head));
      texts = texts;
      radius = (n, radius, high);
      width = (m, width, least, most);
      colors = colors;
      urls = (logo, image, ground (arith, sizes), ground (arith, sizes));
    }

pub default_login_ui-IsValid : (e : Env) → IsValid e default_login_ui
unfolding valid_texts valid_colors valid_media_url is_color is_hex byte_len
default_login_ui-IsValid e = record {
  named = (omega arith, omega arith);
  headed = (omega arith, omega arith);
  texts = refl;
  radius = (16, refl, omega arith);
  width = (460, refl, omega arith, omega arith);
  colors = refl;
  urls = (refl, refl, omega arith, omega arith);
}

-- The settings that an update or a reset leaves.
abbrev left_by : Principal → Option LoginUi → Env → World → LoginUi
left_by actor none e w = (run (reset_login_ui actor) e w).1.db.login_ui
left_by actor (some i) e w = (run (update_login_ui actor i) e w).1.db.login_ui

store_cases :
    (actor : Principal) (r : Result String LoginUi) (e : Env) (w : World)
    → let u = (store_login_ui actor r e w).1.db.login_ui in
      (u ≡ w.db.login_ui) ⊎ ((i : LoginUi) × (r ≡ ok i) × (u ≡ i))
unfolding store_login_ui put_login_ui insert_event
store_cases actor (err x) e w = inl refl
store_cases actor (ok i) e w = elim (Bool-cases (e.fault w.calls)) [
  | inl x ↦ inl (ground (arith, x))
  | inr x ↦ inr (i, refl, ground (arith, x))
]

reset_cases :
    (actor : Principal) (e : Env) (w : World)
    → let u = (reset_login_ui actor e w).1.db.login_ui in
      (u ≡ w.db.login_ui) ⊎ (u ≡ default_login_ui)
unfolding reset_login_ui put_login_ui insert_event
reset_cases actor e w = elim (Bool-cases (e.fault w.calls)) [
  | inl x ↦ inl (ground (arith, x))
  | inr x ↦ inr (ground (arith, x))
]

-- An update of the login page, whatever it asks for, and a reset leave settings that are valid if
-- they were.
pub login_ui-IsValid :
    (actor : Principal) (change : Option LoginUi) (e : Env) (w : World)
    → IsValid e w.db.login_ui
    → IsValid e (left_by actor change e w)
unfolding update_login_ui normalize_login_ui
login_ui-IsValid actor none e w h = elim (reset_cases actor e w) [
  | inl same ↦ rw same h
  | inr new ↦ rw new (default_login_ui-IsValid e)
]
login_ui-IsValid actor (some i) e w h =
    elim (store_cases actor (check_login_ui e (trimmed i)) e w) [
      | inl same ↦ rw same h
      | inr (j, accepted, new) ↦
          let (same, passes) = check_login_ui-Passes e (trimmed i) j accepted in
          rw (new, ← same) (Passes-IsValid e (trimmed i) passes)
    ]
