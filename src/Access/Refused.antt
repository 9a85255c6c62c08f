-- ===== src/Access/Refused.antt =====
-- Whom the guard `get_authenticated_session` of api/auth_dependencies.py turns away, and how.
use bond_trading.Prelude.{
  ◌≡◌, ◌≢◌, sym, ◌∙◌, inl, inr, Bool, true, false, not, ◌&&◌, none, some, if◌then◌else◌, arith,
  Bool-cases, Option-cases, some_injective,
}
use bond_trading.Prelude.Texts.{Text, nonempty}
use bond_trading.Prelude.Results.{ok, err, Result-cases, >>-eq-err, err_injective}
use bond_trading.Errors.{DomainError, authentication_failed, authorization_failed}
use bond_trading.Database.{Time, AuthSessionModel}
use bond_trading.Auth.Library.{AuthLibrary}
use bond_trading.Auth.{
  AuthTables, AuthenticatedSession, Outcome, is_unusable, find_session, find_user, resolve,
  verify_csrf,
}
use bond_trading.Access.{
  Raised, http_exception, raised_as, translated, changes_state, Request, session_token, admit,
  get_authenticated_session,
}
use bond_trading.Access.Admitted.{LacksCsrf, Presents, verify_csrf-cases, session_token-Presents}

module _ (lib : AuthLibrary) where
  resolve-eq-err :
      (token : Text) (b : Bool) (now : Time) (db : AuthTables) (e : DomainError)
      → resolve lib token b now db ≡ err e
      → e ≡ authentication_failed
  unfolding resolve
  resolve-eq-err token b now db e h = elim (Option-cases (find_session lib token db)) [
    | inl gone ↦ cc (rw (gone, resolve) at h)
    | inr (s, f) ↦ elim (Option-cases (find_user lib s.user_id db)) [
      | inl orphan ↦ cc (rw orphan at (rw (f, resolve) at h))
      | inr (u, g) ↦ elim (Bool-cases (is_unusable now s u)) [
        | inl bad ↦ cc (rw bad at (rw g at (rw (f, resolve) at h)))
        | inr good ↦ absurd (cc (rw good at (rw g at (rw (f, resolve) at h))))
      ]
    ]
  ]

  -- A request that is turned away.
  pub data IsRefused (request : Request) (now : Time) (db : AuthTables) : Raised → Type 0 where
    no_session :
        ((token : Text) (r : AuthenticatedSession)
          → (session_token lib request).0 ≡ some token
          → nonempty token ≡ true
          → resolve lib token (session_token lib request).1 now db ≢ ok r)
        → IsRefused request now db (http_exception 401 none)
    no_csrf :
        (token : Text) (r : AuthenticatedSession)
        → Presents lib request token false
        → resolve lib token false now db ≡ ok r
        → changes_state request.method ≡ true
        → LacksCsrf lib r.session request.csrf_header
        → IsRefused request now db (http_exception 403 none)

  -- The method is checked only with a cookie, and only the check of the CSRF token refuses it.
  guard-eq-err :
      (request : Request) (b : Bool) (s : AuthSessionModel) (e : DomainError)
      → ◌≡◌ {A = Outcome (Unit {0})}
          (if changes_state request.method && not b
            then verify_csrf lib s request.csrf_header
            else ok tt)
          (err e)
      → (e ≡ authorization_failed)
        × (b ≡ false)
        × (changes_state request.method ≡ true)
        × LacksCsrf lib s request.csrf_header
  guard-eq-err request b s e h = elim (Bool-cases (changes_state request.method && not b)) [
    | inr safe ↦ absurd (cc (rw safe at h))
    | inl unsafe ↦ elim (verify_csrf-cases lib s request.csrf_header) [
      | inl (passed, csrf) ↦ absurd (cc (rw (unsafe, passed) at h))
      | inr (failed, lacks) ↦
          let same : e ≡ authorization_failed = cc (rw (unsafe, failed) at h) in
          (same, ground arith, ground arith, lacks)
    ]
  ]

  unresolved-IsRefused :
      (request : Request) (token : Text) (now : Time) (db : AuthTables) (e : DomainError)
      → (session_token lib request).0 ≡ some token
      → resolve lib token (session_token lib request).1 now db ≡ err e
      → IsRefused request now db (http_exception 401 none)
  unresolved-IsRefused request token now db e given failed =
      no_session (λ other r given_other full resolved.
        let same : token ≡ other = some_injective (sym given ∙ given_other) in
        absurd (cc (rw (← same, failed) at resolved)))

  admit-IsRefused :
      (request : Request) (token : Text) (now : Time) (db : AuthTables) (e : DomainError)
      → (session_token lib request).0 ≡ some token
      → admit lib request token (session_token lib request).1 now db ≡ err e
      → IsRefused request now db (raised_as e)
  unfolding admit raised_as
  admit-IsRefused request token now db e given h =
      let b = (session_token lib request).1 in
      elim (Result-cases (resolve lib token b now db)) [
        | inl (error, failed) ↦
            let why = resolve-eq-err token b now db error failed in
            let same : e ≡ authentication_failed = cc (why, rw (failed, admit) at h) in
            rw same (unresolved-IsRefused request token now db error given failed)
        | inr (r, resolved) ↦
            let presented = session_token-Presents lib request token given in
            let checked = >>-eq-err _ r (rw (resolved, admit) at h) in
            let (same, no_bearer, changes, lacks) = guard-eq-err request b r.session e checked in
            rw same
              (no_csrf token r (rw no_bearer at presented) (rw no_bearer at resolved) changes lacks)
      ]

  -- Whatever the request, what the guard raises is an HTTPException: 401 where the request has no
  -- token or its token resolves to no session, and 403 where it resolves and the request stands on
  -- a cookie, changes state and lacks the session's CSRF token.
  pub get_authenticated_session-IsRefused :
      (request : Request) (now : Time) (db : AuthTables) (e : Raised)
      → get_authenticated_session lib request now db ≡ err e
      → IsRefused request now db e
  unfolding get_authenticated_session translated
  get_authenticated_session-IsRefused request now db e h =
      elim (Option-cases (session_token lib request).0) [
        | inl none_given ↦
            let same : http_exception 401 none ≡ e =
              err_injective (rw (none_given, get_authenticated_session) at h) in
            rw (← same) (no_session (λ token r given. absurd (cc (none_given, given))))
        | inr (token, given) ↦ elim (Bool-cases (nonempty token)) [
          | inr empty ↦
              let same : http_exception 401 none ≡ e =
                err_injective (rw (given, empty, get_authenticated_session) at h) in
              rw (← same) (
                no_session (λ other r given_other full.
                  let is_token : token ≡ other = some_injective (sym given ∙ given_other) in
                  absurd (cc (rw (← is_token, empty) at full))))
          | inl full ↦
              elim (Result-cases (admit lib request token (session_token lib request).1 now db)) [
                | inr (r, admitted) ↦
                    absurd (cc (rw (given, full, admitted, get_authenticated_session) at h))
                | inl (error, refused) ↦
                    let same : raised_as error ≡ e =
                      err_injective (rw (given, full, refused, get_authenticated_session) at h) in
                    rw (← same) (admit-IsRefused request token now db error given refused)
              ]
        ]
      ]
