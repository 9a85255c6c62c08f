-- ===== src/Access.antt =====
-- api/auth_dependencies.py, the guards in front of the handlers, and the handlers of
-- api/v1/routers/auth.py and api/v1/routers/admin.py that change sessions and users.
--
-- A guard takes the parts of the request that it reads: the method, the headers, the cookie and the
-- path. What a message of an HTTPException says is not modelled, and the cookies that a response
-- sets or deletes are not either.
pub mod Admitted
pub mod Refused
pub mod Handled
mod Samples
use bond_trading.Prelude.{
  ℕ, Bool, true, false, not, ◌&&◌, ◌||◌, List, [], ◌∷◌, ◌++◌, Option, none, some, ◌==◌,
  if◌then◌else◌,
}
use bond_trading.Prelude.Texts.{Text, codes, text_eq, nonempty}
use bond_trading.Prelude.Results.{Result, ok, err, ◌>>=◌, ◌>>◌, raise_if}
use bond_trading.Errors.{DomainError, authentication_failed, authorization_failed}
use bond_trading.Database.{Uuid, Time, UserModel}
use bond_trading.Auth.Library.{AuthLibrary}
use bond_trading.Auth.{
  AuthTables, AuthenticatedSession, Outcome, is_admin, resolve, verify_csrf, find_user, revoke,
  set_active,
}

-- What leaves a handler that raises: an HTTPException with its status and its Location, or an
-- exception that the handler does not catch.
pub data Raised : Type 0 where
  http_exception : ℕ → Option Text → Raised
  uncaught : DomainError → Raised

abbrev pub Response : Type 0 → Type 0
Response A = Result Raised A

-- The two `except` clauses of `get_authenticated_session`.
unfoldable pub raised_as : DomainError → Raised
raised_as authentication_failed = http_exception 401 none
raised_as authorization_failed = http_exception 403 none
raised_as other = uncaught other

unfoldable pub translated : {A : Type 0} → (DomainError → Raised) → Outcome A → Response A
translated f (err e) = err (f e)
translated f (ok a) = ok a

-- `text.partition(" ")` without the separator.
abbrev pub partition_space : Text → Text × Text
partition_space [] = ([], [])
partition_space (c ∷ cs) =
    if c == b' ' then ([], cs) else (c ∷ (partition_space cs).0, (partition_space cs).1)

-- `method not in {"GET", "HEAD", "OPTIONS"}`
unfoldable pub changes_state : Text → Bool
changes_state method = not (
    text_eq method (codes "GET")
    || text_eq method (codes "HEAD")
    || text_eq method (codes "OPTIONS"))

pub record Request : Type 0 where
  pub method : Text
  pub path : Text
  pub authorization : Option Text
  pub session_cookie : Option Text
  pub csrf_header : Option Text

module _ (lib : AuthLibrary) where
  -- The credentials of a bearer header.
  unfoldable pub bearer_token : Option Text → Option Text
  bearer_token none = none
  bearer_token (some authorization) =
      let (scheme, credentials) = partition_space authorization in
      if nonempty authorization
        && (text_eq (lib.lower scheme) (codes "bearer") && nonempty credentials)
      then some credentials
      else none

  -- The token, which may be empty, and `via_bearer`.
  unfoldable pub session_token : Request → Option Text × Bool
  session_token request = elim (bearer_token request.authorization) [
    | some credentials ↦ (some credentials, true)
    | none ↦ (request.session_cookie, false)
  ]

  -- The body of the `try` of `get_authenticated_session`.
  unfoldable pub admit : Request → Text → Bool → Time → AuthTables → Outcome AuthenticatedSession
  admit request token via_bearer now db = resolve lib token via_bearer now db >>= λ authenticated.
      (if changes_state request.method && not via_bearer
        then verify_csrf lib authenticated.session request.csrf_header
        else ok tt)
      >> ok authenticated

  unfoldable pub get_authenticated_session :
      Request → Time → AuthTables → Response AuthenticatedSession
  get_authenticated_session request now db = elim ((session_token request).0) [
    | none ↦ err (http_exception 401 none)
    | some token ↦
        raise_if (not (nonempty token)) (http_exception 401 none)
        >> translated raised_as (admit request token (session_token request).1 now db)
  ]

  -- `require_admin`, with the guard that it depends on.
  unfoldable pub require_admin : Request → Time → AuthTables → Response UserModel
  require_admin request now db = get_authenticated_session request now db >>= λ auth.
      raise_if (not (is_admin auth.account)) (http_exception 403 none) >> ok auth.account

  -- `except AuthenticationError` of `get_current_web_auth`.
  unfoldable pub to_login : DomainError → Raised
  to_login authentication_failed = http_exception 303 (some (codes "/login"))
  to_login other = uncaught other

  unfoldable pub get_current_web_auth : Request → Time → AuthTables → Response AuthenticatedSession
  get_current_web_auth request now db = elim request.session_cookie [
    | none ↦ err (http_exception 303 (some (codes "/login?next=" ++ request.path)))
    | some cookie ↦
        raise_if (not (nonempty cookie))
          (http_exception 303 (some (codes "/login?next=" ++ request.path)))
        >> translated to_login (resolve lib cookie false now db)
  ]

  -- `logout`
  unfoldable pub logout : Request → Time → AuthTables → Response AuthTables
  logout request now db =
      get_authenticated_session request now db >>= λ auth. ok (revoke lib auth.session now db)

  -- `update_user` of the administrator's router
  unfoldable pub update_user : Request → Uuid → Bool → Time → AuthTables → Response AuthTables
  update_user request user_id is_active now db = require_admin request now db >>= λ admin.
      elim (find_user lib user_id db) [
        | none ↦ err (http_exception 404 none)
        | some user ↦
            raise_if (user.id == admin.id && not is_active) (http_exception 422 none)
            >> translated (λ e. http_exception 422 none) (set_active user is_active now db)
      ]
