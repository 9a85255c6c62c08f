-- ===== src/Auth/Samples.antt =====
-- Logins, changed passwords and disabled accounts on the concrete tables.
use bond_trading.Prelude.{◌≡◌, refl, true, false, [], ◌∷◌, none, some, arith}
use bond_trading.Prelude.Texts.{codes, strip}
use bond_trading.Prelude.Results.{ok}
use bond_trading.Database.{user, admin}
use bond_trading.Auth.Concrete.{plain, account, tables, logged_in}
use bond_trading.Auth.{
  AuthTables, authenticate, resolve, change_password, set_active, open_session, new_session,
  find_login, validate_password, revoke_user_sessions,
}
use bond_trading.Auth.Sessions.{
  NoSession, change_password-NoSession, set_active-NoSession, authenticate-resolves,
}

login_works :
    authenticate plain (103 ∷ []) (codes "long password") none (codes "t") (codes "c") 60 10 tables
    ≡ ok (
      record {
        account = record (account 103 user) { last_login_at = some 10 };
        session = new_session plain 200 103 (codes "t") (codes "c") none 60 10;
        token = codes "t";
        csrf_token = codes "c";
      },
      logged_in,
    )
unfolding authenticate find_login strip
login_works = refl

authenticate-resolves_example :
    resolve plain (codes "t") true 69 logged_in
    ≡ ok (record {
      account = record (account 103 user) { last_login_at = some 10 };
      session = new_session plain 200 103 (codes "t") (codes "c") none 60 10;
      via_bearer = true;
    })
authenticate-resolves_example =
    authenticate-resolves plain (103 ∷ []) (codes "long password") none (codes "t") (codes "c") 60
      true 10 69 tables _ logged_in (refl, (refl, (refl, tt))) refl login_works (omega arith)

change_password-NoSession_example : NoSession plain 103 (
    revoke_user_sessions 103 20 (record logged_in {
      users =
          account 101 admin
          ∷ account 102 admin
          ∷ record (account 103 user) {
            password_hash = codes "longer password";
            last_login_at = some 10;
          }
          ∷ [];
    }))
unfolding change_password validate_password open_session
change_password-NoSession_example =
    change_password-NoSession plain (account 103 user) (codes "long password")
      (codes "longer password") 20 logged_in _ refl

disabled : (after : AuthTables) × (set_active (account 103 user) false 20 logged_in ≡ ok after)
unfolding set_active
disabled = (_, refl)

enabled : (again : AuthTables) × (set_active (account 103 user) true 30 disabled.0 ≡ ok again)
unfolding set_active
enabled = (_, refl)

set_active-NoSession_example : NoSession plain 103 disabled.0 × NoSession plain 103 enabled.0
set_active-NoSession_example =
    set_active-NoSession plain (account 103 user) (account 103 user) 20 30 logged_in disabled.0
      enabled.0 disabled.1 enabled.1
