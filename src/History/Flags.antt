-- ===== src/History/Flags.antt =====
-- A flag of the rows with a key, and the statements that never take it back.
use mathlib.Core.Path.{subst}
use open_sso.Prelude.{
  Text, text_eq, text_eq_iff, find, exists, update_where, Bool, true, false, not, ◌||◌, ◌&&◌, some,
  List, [], ◌∷◌, ◌≡◌, refl, arith, Bool-cases, inl, inr,
}
use open_sso.Store.Tables.{find_holds, find-exists}

module _ {A : Type 0} (key : A → Text) (flag : A → Bool) where
  -- There is a row with this key, and each such row has the flag.
  abbrev pub flagged : Text → List A → Bool
  flagged hash xs =
      exists (λ x. text_eq (key x) hash) xs
      && not (exists (λ x. text_eq (key x) hash && not (flag x)) xs)

  module _ (q : A → Bool) (g : A → A) (same : (x : A) → key (g x) ≡ key x) where
    pub keeps_keys :
        (hash : Text) (xs : List A)
        → exists (λ x. text_eq (key x) hash) (update_where q g xs)
          ≡ exists (λ x. text_eq (key x) hash) xs
    unfolding exists update_where
    keeps_keys hash [] = refl
    keeps_keys hash (x ∷ xs) = ground (arith, same x, keeps_keys hash xs)

    keeps_flags :
        ((x : A) → not (flag x) || flag (g x) ≡ true)
        → (hash : Text) (xs : List A)
        → exists (λ x. text_eq (key x) hash && not (flag x)) xs
            || not (exists (λ x. text_eq (key x) hash && not (flag x)) (update_where q g xs))
          ≡ true
    unfolding exists update_where
    keeps_flags mono hash [] = refl
    keeps_flags mono hash (x ∷ xs) = ground (arith, same x, mono x, keeps_flags mono hash xs)

  pub flagged-update :
      (q : A → Bool) (g : A → A)
      → ((x : A) → key (g x) ≡ key x)
      → ((x : A) → not (flag x) || flag (g x) ≡ true)
      → (hash : Text) (xs : List A)
      → not (flagged hash xs) || flagged hash (update_where q g xs) ≡ true
  flagged-update q g same mono hash xs =
      ground (arith, keeps_keys q g same hash xs, keeps_flags q g same mono hash xs)

  pub keys_insert :
      (x : A) (hash : Text) (xs : List A)
      → not (exists (λ y. text_eq (key y) hash) xs) || exists (λ y. text_eq (key y) hash) (x ∷ xs)
        ≡ true
  unfolding exists
  keys_insert x hash xs = ground arith

  -- A new row has a new key.
  pub flagged-insert :
      (x : A) (hash : Text) (xs : List A)
      → exists (λ y. text_eq (key y) (key x)) xs ≡ false
      → not (flagged hash xs) || flagged hash (x ∷ xs) ≡ true
  unfolding exists
  flagged-insert x hash xs fresh = elim (Bool-cases (text_eq (key x) hash)) [
    | inl h ↦
        subst (λ k. not (flagged k xs) || flagged k (x ∷ xs) ≡ true)
          ((text_eq_iff (key x) hash).0 h) (ground arith)
    | inr h ↦ ground arith
  ]

  -- A row that is found by the key, and perhaps more, has the flag.
  pub flagged-find :
      (p : A → Bool) (hash : Text) (xs : List A) (x : A)
      → flagged hash xs ≡ true
      → find (λ y. text_eq (key y) hash && p y) xs ≡ some x
      → flag x ≡ true
  flagged-find p hash xs x h found = ground (
    arith,
    find_holds (λ y. text_eq (key y) hash && p y) xs x found,
    find-exists (λ y. text_eq (key y) hash && p y) (λ y. text_eq (key y) hash && not (flag y)) xs x
        found,
  )
