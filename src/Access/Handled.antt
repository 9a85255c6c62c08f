-- ===== src/Access/Handled.antt =====
-- What the handlers behind the guards do to sessions and users.
use bond_trading.Prelude.{
  ◌≡◌, refl, ap, ◌∙◌, subst, inl, inr, Bool, true, not, List, none, some, any, ◌==◌, arith,
  Bool-cases, Option-cases,
}
use bond_trading.Prelude.Rows.{In, Distinct, find-In, find-update, any-In-false}
use bond_trading.Prelude.Texts.{Text, nonempty}
use bond_trading.Prelude.Results.{
  ok, err, raise_if, >>=-eq-ok, >>-eq-ok, raise_if-eq-ok, ok_injective,
}
use bond_trading.Errors.{authentication_failed}
use bond_trading.Database.{Uuid, Time, UserModel, AuthSessionModel}
use bond_trading.Auth.Library.{AuthLibrary}
use bond_trading.Auth.{
  AuthTables, AuthenticatedSession, is_admin, is_unusable, find_session, find_user, resolve, revoke,
}
use bond_trading.Auth.Sessions.{user_key}
use bond_trading.Auth.Admins.{is_active_admin, set_active-keeps_admin}
use bond_trading.Access.{
  http_exception, Request, session_token, get_authenticated_session, require_admin, logout,
  update_user, raised_as, translated, admit,
}
use bond_trading.Access.Admitted.{get_authenticated_session-IsAdmitted, translated-eq-ok}

In-true :
    (p : UserModel → Bool) (u : UserModel) (us : List UserModel)
    → In u us
    → p u ≡ true
    → any p us ≡ true
In-true p u us m h = elim (Bool-cases (any p us)) [
  | inl holds ↦ holds
  | inr fails ↦ absurd (cc (h, any-In-false p u us fails m))
]

module _ (lib : AuthLibrary) where
  -- The administrator whom the guard lets pass is a row of the table, active and administrator.
  require_admin-active :
      (request : Request) (now : Time) (db : AuthTables) (u : UserModel)
      → require_admin lib request now db ≡ ok u
      → In u db.users × (is_active_admin u ≡ true)
  unfolding require_admin
  require_admin-active request now db u h =
      let (auth, passed, rest) = >>=-eq-ok (get_authenticated_session lib request now db) _ h in
      let (checked, same) = >>-eq-ok _ (ok auth.account) rest in
      let live = (get_authenticated_session-IsAdmitted lib request now db auth passed).live in
      let is_admin_row : is_admin auth.account ≡ true =
        ground (arith, raise_if-eq-ok _ _ checked) in
      subst (λ x. In x db.users × (is_active_admin x ≡ true)) (ok_injective same)
        (live.of_user.0, ground (arith, live.active))

  -- Where ids are distinct, an administrator's request to enable or disable a user that succeeds
  -- leaves an active administrator. No hypothesis says that there was one before: the guard finds
  -- one.
  pub update_user-keeps_admin :
      (request : Request) (id : Uuid) (active : Bool) (now : Time) (db after : AuthTables)
      → Distinct user_key db.users
      → update_user lib request id active now db ≡ ok after
      → any is_active_admin after.users ≡ true
  unfolding update_user find_user
  update_user-keeps_admin request id active now db after d h =
      let (administrator, passed, rest) = >>=-eq-ok (require_admin lib request now db) _ h in
      let (row, is_active) = require_admin-active request now db administrator passed in
      elim (Option-cases (find_user lib id db)) [
        | inl missing ↦ absurd (cc (rw missing at rest))
        | inr (u, found) ↦
            let (_, set) = >>-eq-ok _ _ (rw found at rest) in
            set_active-keeps_admin u active now db after d (find-In _ db.users found).0
              (In-true is_active_admin administrator db.users row is_active)
              (translated-eq-ok _ _ set)
      ]

  resolve-find_session :
      (token : Text) (b : Bool) (now : Time) (db : AuthTables) (r : AuthenticatedSession)
      → resolve lib token b now db ≡ ok r
      → find_session lib token db ≡ some r.session
  unfolding resolve
  resolve-find_session token b now db r h = elim (Option-cases (find_session lib token db)) [
    | inl gone ↦ absurd (cc (rw (gone, resolve) at h))
    | inr (s, f) ↦ elim (Option-cases (find_user lib s.user_id db)) [
      | inl orphan ↦ absurd (cc (rw orphan at (rw (f, resolve) at h)))
      | inr (u, g) ↦
          let (p, q) =
            >>-eq-ok (raise_if (is_unusable now s u) authentication_failed) _
              (rw g at (rw (f, resolve) at h)) in
          f ∙ ap (λ x. some x.session) (ok_injective q)
    ]
  ]

  -- The session that a token finds is not found good once it is revoked.
  revoke-resolve :
      (token : Text) (b : Bool) (now later : Time) (db : AuthTables) (s : AuthSessionModel)
      → find_session lib token db ≡ some s
      → resolve lib token b later (revoke lib s now db) ≡ err authentication_failed
  unfolding resolve revoke find_session is_unusable
  revoke-resolve token b now later db s f =
      let revoked = λ (x : AuthSessionModel). record x { revoked_at = some now } in
      let found : find_session lib token (revoke lib s now db) ≡ some (revoked s) =
        find-update _ (λ x. x.id == s.id) revoked db.sessions (λ x. refl) f (ground arith) in
      elim (Option-cases (find_user lib s.user_id (revoke lib s now db))) [
        | inl orphan ↦ rw (found, resolve) (rw orphan refl)
        | inr (u, g) ↦ rw (found, resolve) (rw g refl)
      ]

  -- A request that passes has a token, and the token finds the session.
  passed-find_session :
      (request : Request) (now : Time) (db : AuthTables) (r : AuthenticatedSession)
      → get_authenticated_session lib request now db ≡ ok r
      → (token : Text) × ((session_token lib request).0 ≡ some token)
        × (nonempty token ≡ true)
        × (find_session lib token db ≡ some r.session)
  unfolding get_authenticated_session admit
  passed-find_session request now db r h = elim (Option-cases (session_token lib request).0) [
    | inl none_given ↦ absurd (cc (rw (none_given, get_authenticated_session) at h))
    | inr (token, given) ↦
        let (full, rest) =
          >>-eq-ok (raise_if (not (nonempty token)) _) _
            (rw (given, get_authenticated_session) at h) in
        let (found, resolved, checked) =
          >>=-eq-ok (resolve lib token (session_token lib request).1 now db) _
            (translated-eq-ok raised_as _ rest) in
        let (_, same) = >>-eq-ok _ (ok found) checked in
        let finds =
          resolve-find_session token (session_token lib request).1 now db found resolved in
        (
          token,
          given,
          ground (arith, raise_if-eq-ok _ _ full),
          finds ∙ ap (λ x. some x.session) (ok_injective same),
        )
  ]

  -- After a logout every request with the token that the request had is turned away with 401, at
  -- any time, whether the token stands in the header or in the cookie.
  pub logout-get_authenticated_session :
      (request other : Request) (now later : Time) (db after : AuthTables)
      → logout lib request now db ≡ ok after
      → (session_token lib other).0 ≡ (session_token lib request).0
      → get_authenticated_session lib other later after ≡ err (http_exception 401 none)
  unfolding logout get_authenticated_session admit translated raised_as
  logout-get_authenticated_session request other now later db after h same =
      let (r, passed, done) = >>=-eq-ok (get_authenticated_session lib request now db) _ h in
      let (token, given, full, finds) = passed-find_session request now db r passed in
      let gone = revoke-resolve token (session_token lib other).1 now later db r.session finds in
      subst (λ d. get_authenticated_session lib other later d ≡ err (http_exception 401 none))
        (ok_injective done)
        (rw (same ∙ given, get_authenticated_session) (rw (full, gone, admit) refl))
