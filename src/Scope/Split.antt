-- ===== src/Scope/Split.antt =====
-- What `splitScope` accepts, and that normalising a scope again changes nothing.
use mathlib.Core.List.{append_assoc, append-nil}
use mathlib.Core.Path.{subst}
use open_sso.Prelude.{
  Text, is_empty, fields, join_words, exists, All, ◌≡◌, ◌↔◌, refl, ap, ◌∙◌, Bool, true, false, not,
  ◌&&◌, ◌||◌, List, [], ◌∷◌, ◌++◌, Result, ok, err, arith, Bool-cases, inl, inr,
}
use open_sso.Scope.Defs.{
  ScopeError, invalid_scope, scope_required, contains, add_scope, scope_chars, split_loop,
  split_scope, normalize_requested_scope,
}
use open_sso.Scope.Words.{is_word, fields-All, fields-join_words}
use open_sso.Scope.Sets.{contains-add_scope}

-- Each scope of a list differs from those before it and from those of `out`.
abbrev Fresh : List Text → List Text → Type 0
Fresh out [] = Unit
Fresh out (s ∷ ss) = (contains out s ≡ false) × Fresh (out ++ (s ∷ [])) ss

abbrev IsDistinct : List Text → Type 0
IsDistinct = Fresh []

Fresh-append :
    (acc out : List Text) (s : Text)
    → Fresh acc out
    → contains (acc ++ out) s ≡ false
    → Fresh acc (out ++ (s ∷ []))
Fresh-append acc [] s f h = (rw (append-nil acc) at h, tt)
Fresh-append acc (x ∷ out) s f h =
    (f.0, Fresh-append (acc ++ (x ∷ [])) out s f.1 (rw append_assoc h))

add_scope-IsDistinct : (out : List Text) (s : Text) → IsDistinct out → IsDistinct (add_scope out s)
add_scope-IsDistinct out s d = elim (Bool-cases (contains out s)) [
  | inl old ↦ rw old d
  | inr new ↦ rw new (Fresh-append [] out s d new)
]

-- What a word of an accepted scope is made of.
abbrev IsScope : Text → Type 0
IsScope s = (is_word s ≡ true) × (scope_chars s ≡ true)

All-append_one :
    (P : Text → Type 0) (xs : List Text) (x : Text) → All P xs → P x → All P (xs ++ (x ∷ []))
All-append_one P [] x a p = (p, tt)
All-append_one P (y ∷ xs) x a p = (a.0, All-append_one P xs x a.1 p)

add_scope-All :
    (out : List Text) (s : Text) → All IsScope out → IsScope s → All IsScope (add_scope out s)
add_scope-All out s a h = elim (Bool-cases (contains out s)) [
  | inl old ↦ rw old a
  | inr new ↦ rw new (All-append_one IsScope out s a h)
]

-- What the loop of `splitScope` has kept, from what it began with.
record Kept (fs out res : List Text) : Type 0 where
  distinct : IsDistinct res
  valid : All IsScope res
  same : (s : Text) → contains res s ≡ (contains out s || contains fs s)
  some_scope : is_empty res ≡ false

split_loop_inv :
    (f : Text) (fs out : List Text) {res : List Text}
    → split_loop (f ∷ fs) out ≡ ok res
    → (scope_chars f ≡ true) × (split_loop fs (add_scope out f) ≡ ok res)
unfolding split_loop
split_loop_inv f fs out e = ground arith

split_loop_step :
    (f : Text) (fs out : List Text) {res : List Text}
    → split_loop (f ∷ fs) out ≡ ok res
    → Kept fs (add_scope out f) res
    → Kept (f ∷ fs) out res
unfolding contains
split_loop_step f fs out e k = record {
  distinct = k.distinct;
  valid = k.valid;
  same = λ s. ground (arith, k.same s, contains-add_scope out f s);
  some_scope = k.some_scope;
}

split_loop-Kept :
    (fs out : List Text) {res : List Text}
    → All (λ w. is_word w ≡ true) fs
    → IsDistinct out
    → All IsScope out
    → split_loop fs out ≡ ok res
    → Kept fs out res
unfolding split_loop contains
split_loop-Kept [] [] w d v e = cc
split_loop-Kept [] (x ∷ out) {res} w d v e =
    let same : x ∷ out ≡ res = cc e in
    subst (Kept [] (x ∷ out)) same
      (record { distinct = d; valid = v; same = λ s. ground arith; some_scope = refl })
split_loop-Kept (f ∷ fs) out w d v e = split_loop_step f fs out e (
    split_loop-Kept fs (add_scope out f) w.1 (add_scope-IsDistinct out f d)
      (add_scope-All out f v (w.0, (split_loop_inv f fs out e).0)) (split_loop_inv f fs out e).1)

-- The scopes that splitScope returns are distinct, well formed and not none, and are those among
-- the fields of the text.
split_scope_sound :
    (raw : Text) (scopes : List Text)
    → split_scope raw ≡ ok scopes
    → IsDistinct scopes
      × All IsScope scopes
      × (is_empty scopes ≡ false)
      × ((s : Text) → contains scopes s ≡ contains (fields raw) s)
unfolding split_scope contains
split_scope_sound raw scopes e =
    let k = split_loop-Kept (fields raw) [] (fields-All raw) tt tt e in
    (k.distinct, k.valid, k.some_scope, λ s. ground (arith, k.same s))

-- On distinct scopes the loop keeps all.
split_loop-Fresh :
    (fs out : List Text)
    → Fresh out fs
    → All IsScope fs
    → is_empty (out ++ fs) ≡ false
    → split_loop fs out ≡ ok (out ++ fs)
unfolding split_loop
split_loop-Fresh [] out f v h = ground (arith, append-nil out)
split_loop-Fresh (x ∷ fs) out f v h =
    let assoc = append_assoc out (x ∷ []) fs in
    ground (arith, assoc, split_loop-Fresh fs (out ++ (x ∷ [])) f.1 v.1 (rw assoc h))

All-word : (ws : List Text) → All IsScope ws → All (λ w. is_word w ≡ true) ws
All-word [] a = tt
All-word (w ∷ ws) a = (a.0.0, All-word ws a.1)

normalize_inv :
    (raw text : Text) (scopes : List Text)
    → normalize_requested_scope raw ≡ ok (text, scopes)
    → (split_scope raw ≡ ok scopes) × (join_words scopes ≡ text)
unfolding normalize_requested_scope
normalize_inv raw text scopes e = ground arith

split_scope-join_words :
    (raw : Text) (scopes : List Text)
    → split_scope raw ≡ ok scopes
    → split_scope (join_words scopes) ≡ ok scopes
split_scope-join_words raw scopes e =
    let s = split_scope_sound raw scopes e in
    unfold split_scope in
    ap (λ ws. split_loop ws []) (fields-join_words scopes (All-word scopes s.1))
    ∙ split_loop-Fresh scopes [] s.0 s.1 s.2

-- Splitting the text of normalizeRequestedScope gives the scopes that it returned beside the
-- text.
pub split_scope-normalize :
    (raw text : Text) (scopes : List Text)
    → normalize_requested_scope raw ≡ ok (text, scopes)
    → split_scope text ≡ ok scopes
split_scope-normalize raw text scopes e =
    let (split, joined) = normalize_inv raw text scopes e in
    rw joined at (split_scope-join_words raw scopes split)

add_scope-nonempty : (out : List Text) (s : Text) → is_empty (add_scope out s) ≡ false
unfolding contains
add_scope-nonempty [] s = refl
add_scope-nonempty (x ∷ out) s = ground arith

abbrev bad_word : Text → Bool
bad_word w = not (scope_chars w)

-- The three ways in which the loop ends.
data Ends (fs out : List Text) (r : Result ScopeError (List Text)) : Type 0 where
  refused : exists bad_word fs ≡ true → r ≡ err invalid_scope → Ends fs out r
  nothing : fs ≡ [] → out ≡ [] → r ≡ err scope_required → Ends fs out r
  accepted :
      exists bad_word fs ≡ false
      → (is_empty fs && is_empty out) ≡ false
      → (res : List Text) → r ≡ ok res
      → Ends fs out r

Ends-cons :
    (f : Text) (fs out : List Text)
    → is_word f ≡ true
    → Ends fs (add_scope out f) (split_loop fs (add_scope out f))
    → Ends (f ∷ fs) out (split_loop (f ∷ fs) out)
Ends-cons f fs out w (refused b e) =
    refused (unfold exists in ground arith) (unfold split_loop in ground arith)
Ends-cons f fs out w (nothing _ b e) = ground (arith, add_scope-nonempty out f)
Ends-cons f fs out w (accepted b n res e) = elim (Bool-cases (scope_chars f)) [
  | inl good ↦ accepted (unfold exists in ground arith) refl res (unfold split_loop in ground arith)
  | inr bad ↦ refused (unfold exists in ground arith) (unfold split_loop in ground arith)
]

split_loop-Ends :
    (fs out : List Text) → All (λ w. is_word w ≡ true) fs → Ends fs out (split_loop fs out)
split_loop-Ends [] [] w = unfold split_loop in nothing refl refl refl
split_loop-Ends [] (x ∷ out) w = unfold split_loop exists in accepted refl refl (x ∷ out) refl
split_loop-Ends (f ∷ fs) out w = Ends-cons f fs out w.0 (split_loop-Ends fs (add_scope out f) w.1)

Ends-iff :
    (fs : List Text) (r : Result ScopeError (List Text))
    → Ends fs [] r
    → ((r ≡ err scope_required) ↔ (fs ≡ []))
      × ((r ≡ err invalid_scope) ↔ (exists bad_word fs ≡ true))
unfolding exists
Ends-iff fs r (refused b e) =
    (((λ h. ground arith), (λ h. ground arith)), ((λ h. ground arith), (λ h. ground arith)))
Ends-iff fs r (nothing n _ e) =
    (((λ h. ground arith), (λ h. ground arith)), ((λ h. ground arith), (λ h. ground arith)))
Ends-iff fs r (accepted b n res e) =
    (((λ h. ground arith), (λ h. ground arith)), ((λ h. ground arith), (λ h. ground arith)))

-- SplitScope fails for want of a scope exactly on a text without fields, and as invalid exactly
-- when a field has a refused character.
split_scope_errors :
    (raw : Text)
    → ((split_scope raw ≡ err scope_required) ↔ (fields raw ≡ []))
      × ((split_scope raw ≡ err invalid_scope)
          ↔ (exists (λ w. not (scope_chars w)) (fields raw) ≡ true))
unfolding split_scope
split_scope_errors raw = Ends-iff _ _ (split_loop-Ends (fields raw) [] (fields-All raw))
