-- ===== src/OAuth/Deliver/Outcomes.antt =====
-- The two ends of `issue_and_deliver`: committed with the tokens, or refused with nothing kept.
use open_sso.Prelude.{ℕ, Text, ◌≡◌, Option, none, some, coalesce, arith, refl, inl, inr, Bool-cases}
use open_sso.Store.{Db}
use open_sso.Web.{◌>>=◌, Env, World, Response, respond, tokens, TokenResponse, attempt}
use open_sso.Web.Rules.{Post, Post-bind, Attempted, attempt-Post}
use open_sso.OAuth.Client.{OauthClient}
use open_sso.OAuth.Issue.{issue_user_tokens}
use open_sso.OAuth.Issue.Frame.{Issued, issue_user_tokens-Issued}
use open_sso.OAuth.Deliver.{deliver, issue_and_deliver}

-- Refused: the status is 500, and a rollback leads back to `db`.
abbrev pub Refused : Db → Response → World → Type 0
Refused db r w' = (r.status ≡ 500) × (coalesce w'.saved w'.db ≡ db)

module _ (client : OauthClient) (user_id : ℕ) (scope nonce family_id : Text) (parent_id : Option ℕ)
    (e : Env) where
  abbrev IssuedHere : World → TokenResponse → World → Type 0
  IssuedHere = Issued client user_id scope nonce family_id parent_id e

  -- Delivered: the tokens are in the answer, and what was stored with them is committed.
  abbrev pub Delivered : World → Response → World → Type 0
  Delivered w r w' =
      (t : TokenResponse) × (v : World) × IssuedHere w t v
      × (r ≡ respond 200 (tokens t))
      × (w'.db ≡ v.db)
      × (w'.saved ≡ none)

  deliver-Post :
      (db : Db) (w v : World) (issued : Option TokenResponse)
      → w.saved ≡ some db
      → Attempted (IssuedHere w) (λ u. u.saved ≡ w.saved) issued v
      → Post (Delivered w) (Refused db) (deliver issued e v)
  unfolding deliver
  deliver-Post db w v none s h = ground arith
  deliver-Post db w v (some t) s at_v = elim (Bool-cases (e.fault v.calls)) [
    | inl f ↦ rw (f, ◌>>=◌) (refl, ground arith)
    | inr f ↦ rw (f, ◌>>=◌) (t, v, at_v, refl, ground arith, ground arith)
  ]

  pub issue_and_deliver-Post :
      (db : Db) (w : World)
      → w.saved ≡ some db
      → Post
          (Delivered w)
          (Refused db)
          (issue_and_deliver client user_id scope nonce family_id parent_id e w)
  unfolding issue_and_deliver
  issue_and_deliver-Post db w s =
      Post-bind (Attempted (IssuedHere w) (λ u. u.saved ≡ w.saved)) (Delivered w) (Refused db)
        (attempt (issue_user_tokens client user_id scope nonce family_id parent_id)) deliver e w
        (attempt-Post (IssuedHere w) (λ u. u.saved ≡ w.saved) (Refused db)
          (issue_user_tokens client user_id scope nonce family_id parent_id) e w
          (issue_user_tokens-Issued client user_id scope nonce family_id parent_id e w))
        (λ issued v h. deliver-Post db w v issued s h)
