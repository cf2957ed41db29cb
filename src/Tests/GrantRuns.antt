-- ===== src/Tests/GrantRuns.antt =====
-- The grants, revocation and introspection on the server of `Setup`.
use open_sso.Prelude.{◌≡◌, ◌≢◌, ◌⊎◌, refl, codes, some, none}
use open_sso.Web.{run, next}
use open_sso.Web.Rules.{Ends}
use open_sso.Tests.Setup.{env, world, form, client, refresh}
use open_sso.OAuth.Client.{
  TokenForm, authenticate_oauth_client, load_oauth_client, select_client, accepts_secret,
}
use open_sso.OAuth.Code.{
  authorization_code_grant, find_code, code_accepted, consume_code, redeem_code,
}
use open_sso.OAuth.Code.Redeem.{Exchanged, authorization_code_grant_cases}
use open_sso.OAuth.Code.Laws.{AcceptedOnce, authorization_code_grant_sound}
use open_sso.OAuth.Refresh.{
  refresh_token_grant, find_refresh, consume_refresh, redeem_refresh, rotate_refresh,
}
use open_sso.OAuth.Refresh.Rotation.{Served, refresh_token_grant_cases}
use open_sso.OAuth.Refresh.Laws.{
  Succeeded, refresh_token_grant_sound, FamilyRevoked, refresh_reuse_revokes_family,
}
use open_sso.OAuth.Endpoints.{client_credentials_grant}
use open_sso.OAuth.Endpoints.Laws.{ForItself, client_credentials_grant_cases}
use open_sso.OAuth.Revocation.Agreement.{
  Inactive, revoke_presented-introspect_presented, Told, introspect_token-grant,
}
use open_sso.OAuth.Issue.{
  issue_access_token, issue_user_tokens, access_claims, access_row, access_token_by, id_claims,
  id_token_by, insert_access_token, insert_refresh_token, maybe_id_token, refresh_row,
  sign_id_token, store_refresh, groups_of, user_groups,
}
use open_sso.Keys.{active}
use open_sso.Keys.{active_row, decrypt_private_key, use_row}
use open_sso.OAuth.Deliver.{deliver, issue_and_deliver}
use open_sso.Prelude.{
  find, exists, select, update_where, text_eq, byte_len, utf8_len, fields, split_words, is_space,
}
use open_sso.Scope.{
  valid_pkce_verifier, verifier_chars, verifier_char, verify_pkce, contains, scopes_of, split_scope,
  split_loop, scope_char, scope_chars,
}

pub redeems : (run (authorization_code_grant client form) env world).0.status ≡ 200
unfolding authorization_code_grant redeem_code issue_and_deliver issue_user_tokens
    issue_access_token active find_code code_accepted consume_code deliver access_claims access_row
    access_token_by id_claims id_token_by insert_access_token insert_refresh_token maybe_id_token
    refresh_row sign_id_token store_refresh groups_of user_groups active_row decrypt_private_key
    use_row find exists select update_where text_eq byte_len utf8_len fields split_words is_space
    valid_pkce_verifier verifier_chars verifier_char verify_pkce contains scopes_of split_scope
    split_loop scope_char scope_chars
redeems = refl

refreshes : (run (refresh_token_grant client form) env world).0.status ≡ 200
unfolding refresh_token_grant redeem_refresh rotate_refresh issue_and_deliver issue_user_tokens
    issue_access_token active find_refresh consume_refresh deliver access_claims access_row
    access_token_by id_claims id_token_by insert_access_token insert_refresh_token maybe_id_token
    refresh_row sign_id_token store_refresh groups_of user_groups active_row decrypt_private_key
    use_row find exists select update_where text_eq fields split_words is_space contains scopes_of
    split_scope split_loop scope_char scope_chars
refreshes = refl

abbrev wrong : TokenForm
wrong = record form { redirect_uri = codes "https://evil.example" }

refuses : (run (authorization_code_grant client wrong) env world).0.status ≡ 400
unfolding authorization_code_grant redeem_code find_code code_accepted find text_eq byte_len
    utf8_len valid_pkce_verifier verifier_chars verifier_char
refuses = refl

abbrev stale : TokenForm
stale = record form { refresh_token = codes "spent" }

authorization_code_grant_sound_example : AcceptedOnce client form env world
authorization_code_grant_sound_example =
    authorization_code_grant_sound client form env world redeems

authorization_code_grant_cases_example :
    Ends
      (Exchanged client form env world.db)
      (λ r. r.status ≢ 200)
      world.db
      (run (authorization_code_grant client form) env world)
authorization_code_grant_cases_example = authorization_code_grant_cases client form env world

refresh_token_grant_sound_example : Succeeded client form env world
refresh_token_grant_sound_example = refresh_token_grant_sound client form env world refreshes

refresh_reuse_revokes_family_example :
    FamilyRevoked client stale env world (refresh (codes "spent") 31 (some 4_000))
unfolding find_refresh find text_eq
refresh_reuse_revokes_family_example =
    refresh_reuse_revokes_family client stale env world (refresh (codes "spent") 31 (some 4_000))
      refl refl refl (λ n. refl)

refresh_token_grant_cases_example :
    Ends
      (Served client stale env world.db)
      (λ r. r.status ≢ 200)
      world.db
      (run (refresh_token_grant client stale) env world)
refresh_token_grant_cases_example = refresh_token_grant_cases client stale env world

client_credentials_grant_cases_example :
    ForItself client form env world
      (run (client_credentials_grant client form) env world).0
      (run (client_credentials_grant client form) env world).1.db
    ⊎ (((run (client_credentials_grant client form) env world).1.db ≡ world.db)
        × ((run (client_credentials_grant client form) env world).0.status ≢ 200))
client_credentials_grant_cases_example = client_credentials_grant_cases client form env world

revoke_presented-introspect_presented_example :
    Inactive client
      (codes "fresh")
      (codes "spent")
      (refresh (codes "fresh") 30 none)
      (refresh (codes "spent") 31 (some 4_000))
      env
      world
unfolding find_refresh find text_eq
revoke_presented-introspect_presented_example =
    revoke_presented-introspect_presented client (codes "fresh") (codes "spent")
      (refresh (codes "fresh") 30 none) (refresh (codes "spent") 31 (some 4_000)) env world
      (λ n. refl) refl refl refl

authenticates : (authenticate_oauth_client form env world).0 ≡ next client
unfolding authenticate_oauth_client load_oauth_client select_client accepts_secret find text_eq
authenticates = refl

introspect_token-grant_example : Told client form form env world
introspect_token-grant_example =
    introspect_token-grant client form form env world (λ n. refl) refreshes refl authenticates refl
      refl
