-- ===== src/Auth.antt =====
-- application/services/auth.py: users, their sessions and passwords.
--
-- The two tables are lists of rows in the order of insertion; a service object that the source
-- mutates is the row with its id. A call that raises leaves the tables as they were: nothing is
-- committed. `now` is the clock, ids come from a counter, and the random tokens are arguments.
pub mod Library
pub mod Sessions
pub mod Admins
pub mod Concrete
mod Samples
use bond_trading.Prelude.{
  ℕ, ◌+◌, Bool, true, false, not, ◌&&◌, ◌||◌, List, [], ◌∷◌, ◌++◌, Option, none, some, find, any,
  all, update_where, leb, ltb, ◌==◌, if◌then◌else◌, is_some, length, take,
}
use bond_trading.Prelude.Texts.{Text, text_eq, strip, nonempty}
use bond_trading.Prelude.Results.{Result, ok, err, ◌>>=◌, ◌>>◌, raise_if}
use bond_trading.Errors.{DomainError, domain_error, authentication_failed, authorization_failed}
use bond_trading.Database.{Uuid, Time, UserModel, AuthSessionModel, UserRole, user, admin}
use bond_trading.Auth.Library.{AuthLibrary}

pub record AuthTables : Type 0 where
  pub users : List UserModel
  pub sessions : List AuthSessionModel
  pub next_id : Uuid

-- Credentials as `authenticate` returns them; `resolve` returns the first two.
pub record SessionCredentials : Type 0 where
  pub account : UserModel
  pub session : AuthSessionModel
  pub token : Text
  pub csrf_token : Text

pub record AuthenticatedSession : Type 0 where
  pub account : UserModel
  pub session : AuthSessionModel
  pub via_bearer : Bool

abbrev pub is_admin : UserModel → Bool
is_admin u = elim u.role [ admin ↦ true | user ↦ false ]

abbrev pub Outcome : Type 0 → Type 0
Outcome A = Result DomainError A

-- `_validate_password`
unfoldable pub validate_password : Text → Outcome (Unit {0})
validate_password password = raise_if (ltb (length password) 12) domain_error

-- `update(AuthSessionModel).where(user_id == id, revoked_at is null).values(revoked_at=now)`
unfoldable pub revoke_user_sessions : Uuid → Time → AuthTables → AuthTables
revoke_user_sessions id now db = record db {
  sessions =
      update_where (λ s. s.user_id == id && not (is_some s.revoked_at))
        (λ s. record s { revoked_at = some now }) db.sessions;
}

-- `_aware(expires_at) <= now`, a session that was revoked, or a user who was disabled
unfoldable pub is_unusable : Time → AuthSessionModel → UserModel → Bool
is_unusable now s u = is_some s.revoked_at || leb s.expires_at now || not u.is_active

-- `user_agent or ""`, cut to 512 characters, or None
unfoldable pub agent_text : Option Text → Option Text
agent_text none = none
agent_text (some a) = if nonempty (take 512 a) then some (take 512 a) else none

module _ (lib : AuthLibrary) where
  open lib use {lower, is_alnum, hash_password, verify_password, token_hash}

  -- `_normalize_username`
  unfoldable pub normalize_username : Text → Outcome Text
  normalize_username username =
      let value = lower (strip username) in
      raise_if
        (not (nonempty value)
          || ltb 64 (length value)
          || not (all (λ c. is_alnum c || c == b'-' || c == b'_' || c == b'.') value))
        domain_error
      >> ok value

  abbrev pub new_user : Uuid → Text → Text → Text → UserRole → Bool → Time → UserModel
  new_user id username email password role must_change now = record {
    id = id;
    created_at = now;
    username = username;
    email = email;
    password_hash = hash_password password;
    role = role;
    is_active = true;
    must_change_password = must_change;
    last_login_at = none;
  }

  -- `create_user`
  unfoldable pub create_user :
      Text → Text → Text → UserRole → Bool → Time → AuthTables → Outcome AuthTables
  create_user username email password role must_change now db = do
    normalized_username ← normalize_username username
    let normalized_email = lower (strip email)
    validate_password password
    raise_if
        (any (λ u. text_eq u.username normalized_username || text_eq u.email normalized_email)
          db.users)
        domain_error
    ok (record db {
      users =
          db.users
          ++ new_user db.next_id normalized_username normalized_email password role must_change now
            ∷ [];
      next_id = db.next_id + 1;
    })

  -- `verify` raises on a hash that it cannot read, and the service takes that for a failure.
  abbrev pub password_matches : Text → UserModel → Bool
  password_matches password u = elim (verify_password password u.password_hash) [
    | none ↦ false
    | some b ↦ b
  ]

  -- An account of `ensure_bootstrap_users`.
  pub record BootstrapAccount : Type 0 where
    pub username : Text
    pub email : Text
    pub password : Text
    pub role : UserRole
    pub sync_password : Bool

  -- One round of the loop of `ensure_bootstrap_users`, after the password is validated.
  unfoldable pub bootstrap_account :
      BootstrapAccount → Text → Option UserModel → Time → AuthTables → AuthTables
  bootstrap_account b username none now db = record db {
    users =
        db.users
        ++ new_user db.next_id username (lower (strip b.email)) b.password b.role true now ∷ [];
    next_id = db.next_id + 1;
  }
  bootstrap_account b username (some u) now db =
      if b.sync_password && not (password_matches b.password u)
      then revoke_user_sessions u.id now (record db {
        users =
            update_where (λ x. x.id == u.id)
              (λ x. record x {
                password_hash = hash_password b.password;
                must_change_password = false;
              })
              db.users;
      })
      else db

  -- `ensure_bootstrap_users` over its accounts: the administrator's password is synchronized.
  unfoldable pub ensure_bootstrap_users :
      List BootstrapAccount → Time → AuthTables → Outcome AuthTables
  ensure_bootstrap_users [] now db = ok db
  ensure_bootstrap_users (b ∷ bs) now db =
      validate_password b.password
      >> (normalize_username b.username >>= λ username.
          ensure_bootstrap_users bs now (
            bootstrap_account b username (find (λ u. text_eq u.username username) db.users) now db))

  unfoldable pub find_login : Text → AuthTables → Option UserModel
  find_login login db =
      find (λ u. text_eq u.username (lower (strip login)) || text_eq u.email (lower (strip login)))
        db.users

  abbrev pub new_session : Uuid → Uuid → Text → Text → Option Text → ℕ → Time → AuthSessionModel
  new_session id user_id token csrf_token user_agent ttl now = record {
    id = id;
    user_id = user_id;
    token_hash = token_hash token;
    csrf_token_hash = token_hash csrf_token;
    created_at = now;
    expires_at = now + ttl;
    last_seen_at = now;
    revoked_at = none;
    user_agent = agent_text user_agent;
  }

  unfoldable pub open_session :
      UserModel → Text → Text → Option Text → ℕ → Time → AuthTables → AuthTables
  open_session u token csrf_token user_agent ttl now db = record db {
    users = update_where (λ x. x.id == u.id) (λ x. record x { last_login_at = some now }) db.users;
    sessions = db.sessions ++ new_session db.next_id u.id token csrf_token user_agent ttl now ∷ [];
    next_id = db.next_id + 1;
  }

  -- `authenticate`: the credentials and the tables with the new session.
  unfoldable pub authenticate :
      Text
      → Text
      → Option Text
      → Text
      → Text
      → ℕ
      → Time
      → AuthTables
      → Outcome (SessionCredentials × AuthTables)
  authenticate login password user_agent token csrf_token ttl now db = elim (find_login login db) [
    | none ↦ err authentication_failed
    | some u ↦
        raise_if (not u.is_active) authentication_failed
        >> (raise_if (not (password_matches password u)) authentication_failed
            >> ok (
              record {
                account = record u { last_login_at = some now };
                session = new_session db.next_id u.id token csrf_token user_agent ttl now;
                token = token;
                csrf_token = csrf_token;
              },
              open_session u token csrf_token user_agent ttl now db,
            ))
  ]

  -- The session with the token's hash, and its user by the foreign key.
  unfoldable pub find_session : Text → AuthTables → Option AuthSessionModel
  find_session token db = find (λ s. text_eq s.token_hash (token_hash token)) db.sessions

  unfoldable pub find_user : Uuid → AuthTables → Option UserModel
  find_user id db = find (λ u. u.id == id) db.users

  -- `resolve`. The foreign key makes sure that the user is there.
  unfoldable pub resolve : Text → Bool → Time → AuthTables → Outcome AuthenticatedSession
  resolve token via_bearer now db = elim (find_session token db) [
    | none ↦ err authentication_failed
    | some s ↦ elim (find_user s.user_id db) [
      | none ↦ err authentication_failed
      | some u ↦
          raise_if (is_unusable now s u) authentication_failed
          >> ok (record { account = u; session = s; via_bearer = via_bearer })
    ]
  ]

  -- `revoke`
  unfoldable pub revoke : AuthSessionModel → Time → AuthTables → AuthTables
  revoke s now db = record db {
    sessions =
        update_where (λ x. x.id == s.id) (λ x. record x { revoked_at = some now }) db.sessions;
  }

  -- `verify_csrf`
  unfoldable pub verify_csrf : AuthSessionModel → Option Text → Outcome (Unit {0})
  verify_csrf s none = err authorization_failed
  verify_csrf s (some csrf_token) =
      raise_if
        (not (nonempty csrf_token) || not (text_eq s.csrf_token_hash (token_hash csrf_token)))
        authorization_failed

  -- `change_password`; none where `verify` raises, which no handler catches here.
  unfoldable pub change_password :
      UserModel → Text → Text → Time → AuthTables → Option (Outcome AuthTables)
  change_password u current_password new_password now db =
      elim (verify_password current_password u.password_hash) [
        | none ↦ none
        | some matches ↦ some (
            raise_if (not matches) authentication_failed
            >> (validate_password new_password
                >> ok (
                    revoke_user_sessions u.id now (record db {
                      users =
                          update_where (λ x. x.id == u.id)
                            (λ x. record x {
                              password_hash = hash_password new_password;
                              must_change_password = false;
                            })
                            db.users;
                    }))))
      ]

-- `set_active`
unfoldable pub set_active : UserModel → Bool → Time → AuthTables → Outcome AuthTables
set_active u active now db =
    raise_if
      (is_admin u
        && not active
        && not (any (λ x. is_admin x && x.is_active && not (x.id == u.id)) db.users))
      domain_error
    >> (let changed : AuthTables = record db {
      users = update_where (λ x. x.id == u.id) (λ x. record x { is_active = active }) db.users;
    } in
        ok (if active then changed else revoke_user_sessions u.id now changed))
