-- ===== src/Scope/Sets.antt =====
-- Scopes as sets: what `containsAll` and `mergeScopes` decide and build.
use open_sso.Prelude.{
  Text, text_eq, text_eq_iff, text_eq_refl, ◌≡◌, refl, ◌↔◌, true, ◌||◌, List, [], ◌∷◌, ◌++◌, arith,
}
use open_sso.Scope.Defs.{contains, contains_all, merge_scopes, add_scope}

contains-append :
    (a b : List Text) (s : Text) → contains (a ++ b) s ≡ (contains a s || contains b s)
unfolding contains
contains-append [] b s = refl
contains-append (x ∷ a) b s = ground (arith, contains-append a b s)

pub contains-add_scope :
    (a : List Text) (v s : Text) → contains (add_scope a v) s ≡ (contains a s || text_eq v s)
unfolding contains
contains-add_scope a v s = ground (arith, contains-append a (v ∷ []) s, text_eq_iff v s)

-- The merged scopes are those of either list.
contains-merge_scopes :
    (a b : List Text) (s : Text) → contains (merge_scopes a b) s ≡ (contains a s || contains b s)
unfolding merge_scopes contains
contains-merge_scopes a [] s = ground arith
contains-merge_scopes a (v ∷ b) s =
    ground (arith, contains-merge_scopes (add_scope a v) b s, contains-add_scope a v s)

contains_all-contains :
    (allowed requested : List Text) (s : Text)
    → contains_all allowed requested ≡ true
    → contains requested s ≡ true
    → contains allowed s ≡ true
unfolding contains_all contains
contains_all-contains allowed [] s h m = cc
contains_all-contains allowed (v ∷ r) s h m =
    ground (arith, text_eq_iff v s, contains_all-contains allowed r s)

contains_all_intro :
    (allowed requested : List Text)
    → ((s : Text) → contains requested s ≡ true → contains allowed s ≡ true)
    → contains_all allowed requested ≡ true
unfolding contains_all contains
contains_all_intro allowed [] h = refl
contains_all_intro allowed (v ∷ r) h =
    ground (arith, h v, text_eq_refl v, contains_all_intro allowed r (λ s m. h s (ground arith)))

-- `containsAll(allowed, requested)` holds exactly when every requested scope is an allowed one.
contains_all_iff :
    (allowed requested : List Text)
    → (contains_all allowed requested ≡ true)
      ↔ ((s : Text) → contains requested s ≡ true → contains allowed s ≡ true)
contains_all_iff allowed requested = (
  (λ h s m. contains_all-contains allowed requested s h m),
  (λ h. contains_all_intro allowed requested h),
)

-- After a consent, the merged scopes cover what was requested and what was granted before.
merge_scopes_covers :
    (granted requested : List Text)
    → (contains_all (merge_scopes granted requested) requested ≡ true)
      × (contains_all (merge_scopes granted requested) granted ≡ true)
merge_scopes_covers granted requested = (
  contains_all_intro _ requested
      (λ s m. rw (contains-merge_scopes granted requested s, m) (ground arith)),
  contains_all_intro _ granted
      (λ s m. rw (contains-merge_scopes granted requested s, m) (ground arith)),
)
