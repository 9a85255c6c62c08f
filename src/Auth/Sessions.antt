-- ===== src/Auth/Sessions.antt =====
-- Who holds a session: logins open one, and a changed password or a disabled account ends them.
use bond_trading.Prelude.{
  ℕ, ◌+◌, ◌<◌, ◌≡◌, ◌≢◌, refl, subst, inl, inr, Bool, true, false, not, ◌&&◌, [], ◌∷◌, ◌++◌, Option,
  some, find, any, All, update_where, ◌==◌, leb, if◌then◌else◌, is_some, arith, Bool-cases,
  Option-cases, some_injective,
}
use bond_trading.Prelude.Rows.{
  In, Distinct, find-In, All-In, find-key, find-snoc, In-update, Distinct-update, All-update_where,
}
use bond_trading.Prelude.Texts.{Text, text_eq, text_eq_refl, text_eq_sound}
use bond_trading.Prelude.Results.{ok, raise_if, >>-eq-ok, raise_if-eq-ok, ok_injective}
use bond_trading.Errors.{domain_error, authentication_failed}
use bond_trading.Database.{Uuid, Time, UserModel, AuthSessionModel}
use bond_trading.Auth.Library.{AuthLibrary}
use bond_trading.Auth.{
  AuthTables, SessionCredentials, AuthenticatedSession, revoke_user_sessions, is_unusable,
  find_login, find_session, find_user, open_session, new_session, authenticate, resolve,
  validate_password, change_password, set_active, password_matches,
}

abbrev pub user_key : UserModel → ℕ
user_key u = u.id

-- The user's sessions are revoked.
abbrev IsShutOut : Uuid → AuthSessionModel → Type 0
IsShutOut id s = s.user_id ≡ id → is_some s.revoked_at ≡ true

revoke-IsShutOut :
    (id : Uuid) (now : Time) (db : AuthTables)
    → All (IsShutOut id) (revoke_user_sessions id now db).sessions
unfolding revoke_user_sessions
revoke-IsShutOut id now db =
    All-update_where (IsShutOut id) (λ s. s.user_id == id && not (is_some s.revoked_at))
      (λ s. record s { revoked_at = some now }) db.sessions (revoked_row id now)
  where
    revoked_row :
        (id : Uuid) (now : Time) (s : AuthSessionModel)
        → IsShutOut id (
            if s.user_id == id && not (is_some s.revoked_at)
            then record s { revoked_at = some now }
            else s)
    revoked_row id now s = elim (Bool-cases (s.user_id == id && not (is_some s.revoked_at))) [
      | inl hit ↦ rw hit (λ _. refl)
      | inr miss ↦ rw miss (λ e. ground arith)
    ]

module _ (lib : AuthLibrary) where
  open lib use {token_hash}

  -- What a resolved session is.
  pub record IsLive (token : Text) (now : Time) (db : AuthTables) (r : AuthenticatedSession)
      : Type 0 where
    pub stored : In r.session db.sessions
    pub token_matches : r.session.token_hash ≡ token_hash token
    pub not_revoked : is_some r.session.revoked_at ≡ false
    pub not_expired : now < r.session.expires_at
    pub active : r.account.is_active ≡ true
    pub of_user : In r.account db.users × (r.account.id ≡ r.session.user_id)

  IsLive-session :
      (token : Text) (b : Bool) (now : Time) (db : AuthTables) (s : AuthSessionModel)
      (u : UserModel)
      → find_session lib token db ≡ some s
      → find_user lib s.user_id db ≡ some u
      → is_unusable now s u ≡ false
      → IsLive token now db (record { account = u; session = s; via_bearer = b })
  unfolding find_session find_user is_unusable
  IsLive-session token b now db s u f g h =
      let m = find-In (λ s. text_eq s.token_hash (token_hash token)) db.sessions f in
      let n = find-In (λ x. x.id == s.user_id) db.users g in
      record {
        stored = m.0;
        token_matches = text_eq_sound _ _ m.1;
        not_revoked = ground arith;
        not_expired = ground arith;
        active = ground arith;
        of_user = (n.0, ground (arith, n.1));
      }

  -- `resolve` returns only a stored session with the token's hash that is not revoked and not
  -- expired, with its user, who is active.
  pub resolve-IsLive :
      (token : Text) (b : Bool) (now : Time) (db : AuthTables) (r : AuthenticatedSession)
      → resolve lib token b now db ≡ ok r
      → IsLive token now db r
  unfolding resolve
  resolve-IsLive token b now db r h = elim (Option-cases (find_session lib token db)) [
    | inl gone ↦ absurd (cc (rw (gone, resolve) at h))
    | inr (s, f) ↦ elim (Option-cases (find_user lib s.user_id db)) [
      | inl orphan ↦ absurd (cc (rw orphan at (rw (f, resolve) at h)))
      | inr (u, g) ↦
          let (p, q) =
            >>-eq-ok (raise_if (is_unusable now s u) authentication_failed) _
              (rw g at (rw (f, resolve) at h)) in
          subst (IsLive token now db) (ok_injective q)
            (IsLive-session token b now db s u f g (raise_if-eq-ok _ _ p))
    ]
  ]

  -- No token resolves to a session of the user.
  abbrev pub NoSession : Uuid → AuthTables → Type 0
  NoSession id db =
      (token : Text) (b : Bool) (now : Time) (r : AuthenticatedSession)
      → resolve lib token b now db ≡ ok r
      → r.session.user_id ≢ id

  closed-NoSession :
      (id : Uuid) (db : AuthTables) → All (IsShutOut id) db.sessions → NoSession id db
  closed-NoSession id db closed token b now r h e =
      let live = resolve-IsLive token b now db r h in
      let shut = All-In (IsShutOut id) r.session db.sessions closed live.stored in
      ground (arith, shut e, live.not_revoked)

  revoke-NoSession :
      (id : Uuid) (t : Time) (db : AuthTables) → NoSession id (revoke_user_sessions id t db)
  revoke-NoSession id t db =
      closed-NoSession id (revoke_user_sessions id t db) (revoke-IsShutOut id t db)

  -- After a changed password no session of the user is good any more, the current one included.
  pub change_password-NoSession :
      (u : UserModel) (current new : Text) (t : Time) (db after : AuthTables)
      → change_password lib u current new t db ≡ some (ok after)
      → NoSession u.id after
  unfolding change_password
  change_password-NoSession u current new t db after h =
      elim (Option-cases (lib.verify_password current u.password_hash)) [
        | inl unreadable ↦ absurd (cc (rw (unreadable, change_password) at h))
        | inr (matches, v) ↦
            let p = some_injective (rw (v, change_password) at h) in
            let (_, q) = >>-eq-ok (raise_if (not matches) authentication_failed) _ p in
            let (_, r) = >>-eq-ok (validate_password new) _ q in
            subst (NoSession u.id) (ok_injective r) (revoke-NoSession u.id t _)
      ]

  -- A user who was disabled has no session that is good, and has none either when that user or
  -- another one is enabled again.
  pub set_active-NoSession :
      (u v : UserModel) (t later : Time) (db after again : AuthTables)
      → set_active u false t db ≡ ok after
      → set_active v true later after ≡ ok again
      → NoSession u.id after × NoSession u.id again
  unfolding set_active
  set_active-NoSession u v t later db after again h k =
      let (_, r) = >>-eq-ok (raise_if _ domain_error) _ h in
      let (_, s) = >>-eq-ok (raise_if _ domain_error) _ k in
      let closed : All (IsShutOut u.id) after.sessions =
        subst (λ d. All (IsShutOut u.id) d.sessions) (ok_injective r) (revoke-IsShutOut u.id t _) in
      (
        closed-NoSession u.id after closed,
        closed-NoSession u.id again
            (subst (λ d. All (IsShutOut u.id) d.sessions) (ok_injective s) closed),
      )

  open_session-resolves :
      (u : UserModel) (token csrf : Text) (agent : Option Text) (ttl : ℕ) (b : Bool)
      (now later : Time) (db : AuthTables)
      → Distinct user_key db.users
      → In u db.users
      → u.is_active ≡ true
      → any (λ s. text_eq s.token_hash (token_hash token)) db.sessions ≡ false
      → later < now + ttl
      → resolve lib token b later (open_session lib u token csrf agent ttl now db)
        ≡ ok (record {
          account = record u { last_login_at = some now };
          session = new_session lib db.next_id u.id token csrf agent ttl now;
          via_bearer = b;
        })
  unfolding resolve find_session find_user open_session is_unusable
  open_session-resolves u token csrf agent ttl b now later db d m active fresh time =
      let s = new_session lib db.next_id u.id token csrf agent ttl now in
      let seen = λ (x : UserModel). record x { last_login_at = some now } in
      let f : find (λ x. text_eq x.token_hash (token_hash token)) (db.sessions ++ s ∷ []) ≡ some s =
        find-snoc _ s db.sessions fresh (text_eq_refl (token_hash token)) in
      let g : find (λ x. x.id == u.id) (update_where (λ x. x.id == u.id) seen db.users)
          ≡ some (seen u) =
        find-key user_key (seen u) _ (Distinct-update user_key u.id seen db.users (λ _. refl) d)
          (In-update user_key seen u db.users m) in
      let t : leb (now + ttl) later ≡ false = ground arith in
      rw (f, resolve, find_session) (rw (g, find_user) (rw (t, is_unusable) (rw active)))

  -- A login with a token whose hash no session has opens a session: until it expires, the token
  -- resolves to that session and to the user who logged in.
  pub authenticate-resolves :
      (login password : Text) (agent : Option Text) (token csrf : Text) (ttl : ℕ) (b : Bool)
      (now later : Time) (db : AuthTables) (c : SessionCredentials) (after : AuthTables)
      → Distinct user_key db.users
      → any (λ s. text_eq s.token_hash (token_hash token)) db.sessions ≡ false
      → authenticate lib login password agent token csrf ttl now db ≡ ok (c, after)
      → later < now + ttl
      → resolve lib token b later after
        ≡ ok (record { account = c.account; session = c.session; via_bearer = b })
  unfolding authenticate find_login
  authenticate-resolves login password agent token csrf ttl b now later db c after d fresh h time =
      elim (Option-cases (find_login lib login db)) [
        | inl unknown ↦ absurd (cc (rw (unknown, authenticate) at h))
        | inr (u, f) ↦
            let (p, q) =
              >>-eq-ok (raise_if (not u.is_active) authentication_failed) _
                (rw (f, authenticate) at h) in
            let (_, r) =
              >>-eq-ok (raise_if (not (password_matches lib password u)) authentication_failed) _
                q in
            let active : u.is_active ≡ true = is_true u.is_active (raise_if-eq-ok _ _ p) in
            let m = (find-In _ db.users f).0 in
            subst
              (λ x.
                resolve lib token b later x.1
                ≡ ok (record { account = x.0.account; session = x.0.session; via_bearer = b }))
              (ok_injective r)
              (open_session-resolves u token csrf agent ttl b now later db d m active fresh time)
      ]
    where
      is_true : (b : Bool) → not b ≡ false → b ≡ true
      is_true b h = ground arith
