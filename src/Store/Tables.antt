-- ===== src/Store/Tables.antt =====
-- What an update leaves of a table.
use open_sso.Prelude.{
  List, [], ◌∷◌, sym, ◌∙◌, Bool, true, false, Option, none, some, ◌≡◌, refl, find, update_where,
  if◌then◌else◌, Bool-cases, inl, inr, arith, exists, All, select, count, not, ◌&&◌, ◌==◌, ◌+◌, ◌≤◌,
}

module _ {A : Type 0} (p q : A → Bool) (g : A → A) where
  -- A row as an update leaves it.
  abbrev pub updated : A → A
  updated x = if q x then g x else x

  abbrev pub updated_row : Option A → Option A
  updated_row none = none
  updated_row (some x) = some (updated x)

  pub find-update_where :
      ((x : A) → p (g x) ≡ p x)
      → (xs : List A) → find p (update_where q g xs) ≡ updated_row (find p xs)
  unfolding find update_where
  find-update_where keep [] = refl
  find-update_where keep (x ∷ xs) = ground (arith, keep x, find-update_where keep xs)

module _ {A : Type 0} (p : A → Bool) where
  -- A row that satisfies the test is found at the front.
  pub find_first : (x : A) (xs : List A) → p x ≡ true → find p (x ∷ xs) ≡ some x
  unfolding find
  find_first x xs h = rw h refl

  -- The row that is found satisfies the test.
  pub find_holds : (xs : List A) (x : A) → find p xs ≡ some x → p x ≡ true
  unfolding find
  find_holds [] x h = ground arith
  find_holds (y ∷ ys) x h = elim (Bool-cases (p y)) [
    | inl t ↦ ground arith
    | inr n ↦ find_holds ys x (ground arith)
  ]

module _ {A : Type 0} (p : A → Bool) (g : A → A) (P : A → Type 0) where
  -- An update brings about what it establishes on the rows it changes, and on the others.
  pub update_where-All :
      ((x : A) → p x ≡ true → P (g x))
      → ((x : A) → p x ≡ false → P x)
      → (xs : List A) → All P (update_where p g xs)
  unfolding update_where
  update_where-All hit miss [] = tt
  update_where-All hit miss (x ∷ xs) = (
    elim (Bool-cases (p x)) [ inl h ↦ rw h (hit x h) | inr h ↦ rw h (miss x h) ],
    update_where-All hit miss xs,
  )

module _ {A : Type 0} (p q : A → Bool) where
  -- A row that is found is not of a kind that does not occur.
  pub find-exists : (xs : List A) (x : A) → find p xs ≡ some x → exists q xs ≡ false → q x ≡ false
  unfolding find exists
  find-exists [] x h n = ground arith
  find-exists (y ∷ ys) x h n = elim (Bool-cases (p y)) [
    | inl t ↦ ground arith
    | inr f ↦ find-exists ys x (ground arith) (ground arith)
  ]

module _ {A : Type 0} (p : A → Bool) where
  -- A deletion leaves no row that satisfies the test, and no row was counted if there is none.
  pub exists-select : (xs : List A) → exists p (select (λ x. not (p x)) xs) ≡ false
  unfolding exists select
  exists-select [] = refl
  exists-select (x ∷ xs) = ground (arith, exists-select xs)

  pub count_zero : (xs : List A) → count p xs == 0 ≡ not (exists p xs)
  unfolding exists count
  count_zero [] = refl
  count_zero (x ∷ xs) = ground (arith, count_zero xs)

module _ {A : Type 0} (p q : A → Bool) where
  -- A deletion takes away from a count what it deletes of it.
  pub count-select :
      (xs : List A)
      → count p (select (λ x. not (q x && p x)) xs) + count (λ x. q x && p x) xs ≡ count p xs
  unfolding count select
  count-select [] = ground arith
  count-select (x ∷ xs) = ground (arith, count-select xs)

  pub count-both : (xs : List A) → count (λ x. q x && p x) xs ≤ count q xs
  unfolding count
  count-both [] = ground arith
  count-both (x ∷ xs) = ground (arith, count-both xs)

module _ {A : Type 0} (p : A → Bool) where
  -- An update that keeps what is counted keeps the count.
  pub count-update_where :
      (q : A → Bool) (g : A → A)
      → ((x : A) → p (g x) ≡ p x)
      → (xs : List A) → count p (update_where q g xs) ≡ count p xs
  unfolding count update_where
  count-update_where q g keep [] = refl
  count-update_where q g keep (x ∷ xs) = ground (arith, keep x, count-update_where q g keep xs)

  exists_both :
      (q : A → Bool) (xs : List A) → exists p xs ≡ false → exists (λ x. p x && q x) xs ≡ false
  unfolding exists
  exists_both q [] h = refl
  exists_both q (x ∷ xs) h = ground (arith, h, exists_both q xs (ground (arith, h)))

  same : (flag : A → Bool) (y x : A) → some y ≡ some x → flag x ≡ true → flag y ≡ true
  same flag y x h f = ground (arith, h, f)

  -- If at most one row satisfies the test, and one that is found has the flag, then none lacks it.
  pub only_row :
      (r flag : A → Bool) (xs : List A) (x : A)
      → count p xs ≤ 1
      → find (λ y. p y && r y) xs ≡ some x
      → flag x ≡ true
      → (exists p xs ≡ true) × (exists (λ y. p y && not (flag y)) xs ≡ false)
  unfolding count find exists
  only_row r flag [] x few h f = ground arith
  only_row r flag (y ∷ ys) x few h f = elim (Bool-cases (p y)) [
    | inr n ↦
        let (one, all) = only_row r flag ys x (ground (arith, few, n)) (ground (arith, h, n)) f in
        (ground (arith, one), ground (arith, n, all))
    | inl t ↦
        let others : exists p ys ≡ false = ground (arith, few, t, count_zero p ys) in
        elim (Bool-cases (r y)) [
          | inl u ↦
              let first : some y ≡ some x =
                sym (find_first (λ z. p z && r z) y ys (ground (arith, t, u))) ∙ h in
              (
                ground (arith, t),
                ground (arith, t, exists_both (λ z. not (flag z)) ys others, same flag y x first f),
              )
          | inr u ↦
              let later : find (λ z. p z && r z) ys ≡ some x = ground (arith, h, t, u) in
              absurd (
                ground (
                  arith,
                  find_holds (λ z. p z && r z) ys x later,
                  find-exists (λ z. p z && r z) p ys x later others,
                ))
        ]
  ]
