-- ===== src/History/Webauthn.antt =====
-- What the handlers of security keys keep.
use open_sso.Prelude.{ℕ, Text, Bool, true, false, Option, refl}
use open_sso.Web.{Row, failed, no_rows, row, Ceremony, Env}
use open_sso.Store.{WebauthnUser}
use open_sso.Mfa.Owner.{
  consume_ceremony, handle_of, insert_handle, load_user, make_handle, store_ceremony, store_value,
  take_value,
}
use open_sso.Mfa.Webauthn.{
  begin_login, begin_registration, begin_with, delete_key, finish_login, finish_registration,
  insert_key_row, keep_key, list_keys, use_key,
}
use open_sso.History.Keeps.{Keeps, quiet}
use open_sso.History.Shared.{keeping}
use open_sso.History.Factors.{factor_steps}

pub store_value-Keeps : (c : Ceremony) → Keeps (store_value c)
unfolding store_value
store_value-Keeps c = quiet (λ e w. (refl, refl))

pub take_value-Keeps : (hash : Text) → Keeps (take_value hash)
unfolding take_value
take_value-Keeps hash = quiet (λ e w. (refl, refl))

pub store_ceremony-Keeps :
    (user_id : ℕ) (kind session : Text) → Keeps (store_ceremony user_id kind session)
unfolding store_ceremony
store_ceremony-Keeps user_id kind session =
    search (keeping, store_value-Keeps, factor_steps) depth 40

pub consume_ceremony-Keeps : (token : Text) → Keeps (consume_ceremony token)
unfolding consume_ceremony
consume_ceremony-Keeps token = search (keeping, take_value-Keeps, factor_steps) depth 40

pub make_handle-Keeps : (user_id : ℕ) → Keeps (make_handle user_id)
unfolding make_handle insert_handle
make_handle-Keeps user_id = search (keeping, factor_steps) depth 40

pub handle_of-Keeps :
    (user_id : ℕ) (ensure : Bool) (r : Row WebauthnUser) → Keeps (handle_of user_id ensure r)
handle_of-Keeps user_id ensure failed = search keeping
handle_of-Keeps user_id ensure no_rows = search (keeping, make_handle-Keeps, factor_steps) depth 40
handle_of-Keeps user_id ensure (row h) = search keeping

pub load_user-Keeps : (user_id : ℕ) (ensure : Bool) → Keeps (load_user user_id ensure)
unfolding load_user
load_user-Keeps user_id ensure = search (keeping, handle_of-Keeps, factor_steps) depth 40

pub begin_with-Keeps : (f : ℕ → Env → Option (Text × Text)) → Keeps (begin_with f)
begin_with-Keeps f = quiet (λ e w. (refl, refl))

pub begin_registration-Keeps : (user_id : ℕ) (kind : Text) → Keeps (begin_registration user_id kind)
unfolding begin_registration
begin_registration-Keeps user_id kind =
    search (keeping, store_ceremony-Keeps, load_user-Keeps, begin_with-Keeps, factor_steps) depth 40

pub finish_registration-Keeps :
    (user_id : ℕ) (token display_name request : Text)
    → Keeps (finish_registration user_id token display_name request)
unfolding finish_registration insert_key_row
finish_registration-Keeps user_id token display_name request =
    search (keeping, consume_ceremony-Keeps, load_user-Keeps, factor_steps) depth 40

pub begin_login-Keeps : (user_id : ℕ) → Keeps (begin_login user_id)
unfolding begin_login
begin_login-Keeps user_id =
    search (keeping, store_ceremony-Keeps, load_user-Keeps, begin_with-Keeps, factor_steps) depth 40

pub finish_login-Keeps :
    (user_id : ℕ) (token request : Text) → Keeps (finish_login user_id token request)
unfolding finish_login use_key
finish_login-Keeps user_id token request =
    search (keeping, consume_ceremony-Keeps, load_user-Keeps, factor_steps) depth 40

pub list_keys-Keeps : {R : Type 0} (user_id : ℕ) → Keeps {E = R} (list_keys user_id)
unfolding list_keys
list_keys-Keeps user_id = search (keeping, factor_steps) depth 40

pub keep_key-Keeps : (user_id : ℕ) (needed : Bool) → Keeps (keep_key user_id needed)
unfolding keep_key
keep_key-Keeps user_id true = search keeping depth 20
keep_key-Keeps user_id false = search keeping depth 20

pub delete_key-Keeps : (user_id id : ℕ) → Keeps (delete_key user_id id)
unfolding delete_key
delete_key-Keeps user_id id = search (keeping, keep_key-Keeps, factor_steps) depth 40

pub ruleset key_steps = (
  store_value-Keeps, take_value-Keeps, store_ceremony-Keeps, consume_ceremony-Keeps,
  make_handle-Keeps, handle_of-Keeps, load_user-Keeps, begin_with-Keeps, begin_registration-Keeps,
  finish_registration-Keeps, begin_login-Keeps, finish_login-Keeps, list_keys-Keeps, keep_key-Keeps,
  delete_key-Keeps,
)
