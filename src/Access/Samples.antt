-- ===== src/Access/Samples.antt =====
-- Requests on the concrete tables of users and sessions.
use bond_trading.Prelude.{◌≡◌, refl, true, false, none, some, any}
use bond_trading.Prelude.Texts.{codes}
use bond_trading.Prelude.Results.{ok, err}
use bond_trading.Database.{user, admin}
use bond_trading.Auth.{
  AuthTables, open_session, new_session, find_session, find_user, is_unusable, resolve, verify_csrf,
  set_active,
}
use bond_trading.Auth.Concrete.{plain, account, tables, logged_in}
use bond_trading.Auth.Admins.{is_active_admin}
use bond_trading.Access.{
  Request, http_exception, raised_as, translated, changes_state, bearer_token, session_token, admit,
  get_authenticated_session, require_admin, get_current_web_auth, to_login, logout, update_user,
}
use bond_trading.Access.Admitted.{IsAdmitted, get_authenticated_session-IsAdmitted}
use bond_trading.Access.Refused.{IsRefused, get_authenticated_session-IsRefused}
use bond_trading.Access.Handled.{update_user-keeps_admin, logout-get_authenticated_session}

abbrev by_form : Request
by_form = record {
  method = codes "POST";
  path = codes "/lots";
  authorization = some (codes "Basic x");
  session_cookie = some (codes "t");
  csrf_header = some (codes "c");
}

abbrev forged : Request
forged = record by_form { csrf_header = none }

abbrev by_script : Request
by_script = record forged { authorization = some (codes "bearer t") }

-- The second administrator is logged in.
abbrev of_admin : AuthTables
of_admin = open_session plain (account 102 admin) (codes "t") (codes "c") none 60 10 tables

admitted :
    get_authenticated_session plain by_form 20 logged_in
    ≡ ok (record {
      account = record (account 103 user) { last_login_at = some 10 };
      session = new_session plain 200 103 (codes "t") (codes "c") none 60 10;
      via_bearer = false;
    })
unfolding get_authenticated_session session_token bearer_token admit resolve find_session find_user
    is_unusable open_session verify_csrf translated changes_state
admitted = refl

get_authenticated_session-IsAdmitted_example : IsAdmitted plain by_form 20 logged_in (record {
  account = record (account 103 user) { last_login_at = some 10 };
  session = new_session plain 200 103 (codes "t") (codes "c") none 60 10;
  via_bearer = false;
})
get_authenticated_session-IsAdmitted_example =
    get_authenticated_session-IsAdmitted plain by_form 20 logged_in _ admitted

-- A page of another site can send the cookie, not the header.
refused : get_authenticated_session plain forged 20 logged_in ≡ err (http_exception 403 none)
unfolding get_authenticated_session session_token bearer_token admit resolve find_session find_user
    is_unusable open_session verify_csrf translated changes_state raised_as
refused = refl

get_authenticated_session-IsRefused_example :
    IsRefused plain forged 20 logged_in (http_exception 403 none)
get_authenticated_session-IsRefused_example =
    get_authenticated_session-IsRefused plain forged 20 logged_in _ refused

web_redirects :
    get_current_web_auth plain by_form 70 logged_in
    ≡ err (http_exception 303 (some (codes "/login")))
unfolding get_current_web_auth resolve find_session find_user is_unusable open_session translated
    to_login
web_redirects = refl

logged_out : (after : AuthTables) × (logout plain by_script 20 logged_in ≡ ok after)
unfolding logout get_authenticated_session session_token bearer_token admit resolve find_session
    find_user is_unusable open_session translated changes_state
logged_out = (_, refl)

logout-get_authenticated_session_example :
    get_authenticated_session plain by_form 30 logged_out.0 ≡ err (http_exception 401 none)
unfolding session_token bearer_token
logout-get_authenticated_session_example =
    logout-get_authenticated_session plain by_script by_form 20 30 logged_in logged_out.0
      logged_out.1 refl

disabled : (after : AuthTables) × (update_user plain by_script 101 false 20 of_admin ≡ ok after)
unfolding update_user require_admin get_authenticated_session session_token bearer_token admit
    resolve find_session find_user is_unusable open_session translated changes_state set_active
disabled = (_, refl)

update_user-keeps_admin_example : any is_active_admin disabled.0.users ≡ true
unfolding open_session
update_user-keeps_admin_example =
    update_user-keeps_admin plain by_script 101 false 20 of_admin disabled.0
      (refl, (refl, (refl, tt))) disabled.1

not_oneself : update_user plain by_script 102 false 20 of_admin ≡ err (http_exception 422 none)
unfolding update_user require_admin get_authenticated_session session_token bearer_token admit
    resolve find_session find_user is_unusable open_session translated changes_state set_active
not_oneself = refl
