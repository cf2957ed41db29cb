-- ===== src/Scope/Words.antt =====
-- `strings.Fields` and `strings.Join`: joining words with spaces and splitting again gives them back.
use mathlib.Core.List.{append-nil}
use open_sso.Prelude.{
  Text, is_space, is_empty, push_word, split_words, fields, join_words, All, ◌≡◌, refl, ap, ◌∙◌,
  Bool, true, not, ◌&&◌, List, [], ◌∷◌, ◌++◌, arith,
}

-- A word: not empty, and no space in it.
pub no_space : Text → Bool
no_space [] = true
no_space (c ∷ s) = not (is_space c) && no_space s

abbrev pub is_word : Text → Bool
is_word w = not (is_empty w) && no_space w

push_word-All :
    (w : Text) (ws : List Text)
    → no_space w ≡ true
    → All (λ v. is_word v ≡ true) ws
    → All (λ v. is_word v ≡ true) (push_word w ws)
push_word-All [] ws h a = a
push_word-All (c ∷ w) ws h a = (h, a)

split_words-All :
    (s : Text) → (no_space (split_words s).0 ≡ true) × All (λ v. is_word v ≡ true) (split_words s).1
unfolding split_words no_space
split_words-All [] = (refl, tt)
split_words-All (c ∷ s) =
    let ih = split_words-All s in
    ground (arith, ih, push_word-All (split_words s).0 (split_words s).1 ih.0 ih.1)

-- `strings.Fields` gives words.
pub fields-All : (s : Text) → All (λ v. is_word v ≡ true) (fields s)
unfolding fields
fields-All s = push_word-All _ _ (split_words-All s).0 (split_words-All s).1

split_words-append :
    (w s : Text)
    → no_space w ≡ true
    → split_words (w ++ s) ≡ (w ++ (split_words s).0, (split_words s).1)
unfolding split_words no_space
split_words-append [] s h = refl
split_words-append (c ∷ w) s h = ground (arith, split_words-append w s)

split_words-word : (w : Text) → no_space w ≡ true → split_words w ≡ (w, [])
unfolding split_words no_space
split_words-word [] h = refl
split_words-word (c ∷ w) h = ground (arith, split_words-word w)

split_words-space : (w s : Text) → no_space w ≡ true → split_words (w ++ (0x20 ∷ s)) ≡ (w, fields s)
unfolding split_words fields is_space
split_words-space w s h =
    split_words-append w (0x20 ∷ s) h ∙ ap (λ (v : Text). (v, fields s)) (append-nil w)

fields_lem : (s w : Text) (ws : List Text) → split_words s ≡ (w, ws) → fields s ≡ push_word w ws
unfolding fields
fields_lem s w ws e = ap (λ (r : Text × List Text). push_word r.0 r.1) e

-- Splitting what `strings.Join` made of words gives the words back.
pub fields-join_words :
    (ws : List Text) → All (λ v. is_word v ≡ true) ws → fields (join_words ws) ≡ ws
unfolding join_words
fields-join_words [] a = unfold fields split_words in refl
fields-join_words ([] ∷ ws) a = cc (a.0)
fields-join_words ((c ∷ w) ∷ []) a = fields_lem _ _ _ (split_words-word (c ∷ w) a.0)
fields-join_words ((c ∷ w) ∷ v ∷ ws) a =
    fields_lem _ _ _ (split_words-space (c ∷ w) (join_words (v ∷ ws)) a.0)
    ∙ ap (λ (r : List Text). (c ∷ w) ∷ r) (fields-join_words (v ∷ ws) a.1)
