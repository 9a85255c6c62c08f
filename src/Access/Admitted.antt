-- ===== src/Access/Admitted.antt =====
-- Who passes the guard `get_authenticated_session` of api/auth_dependencies.py.
use bond_trading.Prelude.{
  ◌≡◌, ◌≢◌, ◌⊎◌, refl, ap, ◌∙◌, subst, inl, inr, Bool, true, false, not, ◌&&◌, [], ◌∷◌, ◌++◌,
  Option, none, some, ◌==◌, if◌then◌else◌, arith, Bool-cases, Option-cases, some_injective,
}
use bond_trading.Prelude.Texts.{Text, codes, text_eq, text_eq_sound, text_eq_refl, nonempty}
use bond_trading.Prelude.Results.{
  ok, err, raise_if, >>=-eq-ok, >>-eq-ok, raise_if-eq-ok, ok_injective,
}
use bond_trading.Errors.{DomainError, authentication_failed, authorization_failed}
use bond_trading.Database.{Time, AuthSessionModel}
use bond_trading.Auth.Library.{AuthLibrary}
use bond_trading.Auth.{
  AuthTables, AuthenticatedSession, Outcome, is_unusable, find_session, find_user, resolve,
  verify_csrf,
}
use bond_trading.Auth.Sessions.{IsLive, resolve-IsLive}
use bond_trading.Access.{
  Raised, raised_as, translated, partition_space, changes_state, Request, bearer_token,
  session_token, admit, get_authenticated_session,
}

partition_space-joined :
    (t : Text)
    → nonempty (partition_space t).1 ≡ true
    → t ≡ (partition_space t).0 ++ b' ' ∷ (partition_space t).1
partition_space-joined [] h = absurd (cc)
partition_space-joined (c ∷ cs) h = elim (Bool-cases (c == b' ')) [
  | inl space ↦ rw space (ground arith)
  | inr other ↦
      let rest = partition_space-joined cs (rw other at h) in rw other (ap (λ x. c ∷ x) rest)
]

pub translated-eq-ok :
    {A : Type 0} (f : DomainError → Raised) (o : Outcome A) {a : A}
    → translated f o ≡ ok a
    → o ≡ ok a
unfolding translated
translated-eq-ok f (err e) h = absurd (cc)
translated-eq-ok f (ok b) h = cc

module _ (lib : AuthLibrary) where
  open lib use {token_hash, lower}

  resolve-via_bearer :
      (token : Text) (b : Bool) (now : Time) (db : AuthTables) (r : AuthenticatedSession)
      → resolve lib token b now db ≡ ok r
      → r.via_bearer ≡ b
  unfolding resolve
  resolve-via_bearer token b now db r h = elim (Option-cases (find_session lib token db)) [
    | inl gone ↦ absurd (cc (rw (gone, resolve) at h))
    | inr (s, f) ↦ elim (Option-cases (find_user lib s.user_id db)) [
      | inl orphan ↦ absurd (cc (rw orphan at (rw (f, resolve) at h)))
      | inr (u, g) ↦
          let (p, q) =
            >>-eq-ok (raise_if (is_unusable now s u) authentication_failed) _
              (rw g at (rw (f, resolve) at h)) in
          subst (λ x. x.via_bearer ≡ b) (ok_injective q) refl
    ]
  ]

  -- The header that `verify_csrf` wants.
  abbrev pub MatchesCsrf : AuthSessionModel → Option Text → Type 0
  MatchesCsrf s header =
      (csrf : Text) × (header ≡ some csrf)
      × (nonempty csrf ≡ true)
      × (s.csrf_token_hash ≡ token_hash csrf)

  -- No header, an empty one, or one with another hash.
  abbrev pub LacksCsrf : AuthSessionModel → Option Text → Type 0
  LacksCsrf s header =
      (csrf : Text)
      → header ≡ some csrf
      → nonempty csrf ≡ true
      → s.csrf_token_hash ≢ token_hash csrf

  pub verify_csrf-cases :
      (s : AuthSessionModel) (header : Option Text)
      → (verify_csrf lib s header ≡ ok tt) × MatchesCsrf s header
        ⊎ (verify_csrf lib s header ≡ err authorization_failed) × LacksCsrf s header
  unfolding verify_csrf
  verify_csrf-cases s none = inr (refl, λ csrf e n h. cc)
  verify_csrf-cases s (some csrf) = elim (Bool-cases (nonempty csrf)) [
    | inr empty ↦
        inr
          (rw empty refl, λ c e n h. let same = some_injective e in absurd (cc (rw (← same) at n)))
    | inl full ↦ elim (Bool-cases (text_eq s.csrf_token_hash (token_hash csrf))) [
      | inl same ↦ inl (rw (full, same) refl, (csrf, refl, full, text_eq_sound _ _ same))
      | inr other ↦ inr (
        rw (full, other) refl,
        λ c e n h.
            let same = some_injective e in
            absurd (cc (rw (h, ← same, text_eq_refl (token_hash csrf)) at other)),
      )
    ]
  ]

  -- The token of a request and where it is from: a bearer header, or else the cookie.
  pub data Presents (request : Request) : Text → Bool → Type 0 where
    by_bearer :
        (scheme token : Text)
        → request.authorization ≡ some (scheme ++ b' ' ∷ token)
        → lower scheme ≡ codes "bearer"
        → Presents request token true
    by_cookie :
        (token : Text)
        → bearer_token lib request.authorization ≡ none
        → request.session_cookie ≡ some token
        → Presents request token false

  -- A bearer token stands behind the first space of its header.
  bearer_token-joined :
      (header : Option Text) (token : Text)
      → bearer_token lib header ≡ some token
      → (scheme : Text) × (header ≡ some (scheme ++ b' ' ∷ token)) × (lower scheme ≡ codes "bearer")
  unfolding bearer_token
  bearer_token-joined none token h = absurd (cc)
  bearer_token-joined (some a) token h =
      let scheme = (partition_space a).0 in
      let credentials = (partition_space a).1 in
      elim (Bool-cases
        (nonempty a && (text_eq (lower scheme) (codes "bearer") && nonempty credentials))) [
          | inr other ↦ absurd (cc (rw other at h))
          | inl bearer ↦
              let same : credentials ≡ token = some_injective (rw bearer at h) in
              let joined = partition_space-joined a (ground arith) in
              (
                scheme,
                rw (← same) (ap some joined),
                text_eq_sound (lower scheme) (codes "bearer") (ground arith),
              )
        ]

  pub session_token-Presents :
      (request : Request) (token : Text)
      → (session_token lib request).0 ≡ some token
      → Presents request token (session_token lib request).1
  unfolding session_token
  session_token-Presents request token h =
      elim (Option-cases (bearer_token lib request.authorization)) [
        | inl no_bearer ↦
            rw (no_bearer, session_token)
              (by_cookie token no_bearer (rw (no_bearer, session_token) at h))
        | inr (credentials, bearer) ↦
            let same : credentials ≡ token = some_injective (rw (bearer, session_token) at h) in
            let (scheme, joined, is_bearer) =
              bearer_token-joined request.authorization token (bearer ∙ ap some same) in
            rw (bearer, session_token) (by_bearer scheme token joined is_bearer)
      ]

  -- A request that passes: its token is of a live session, and a request that changes state and
  -- stands on a cookie carries the session's CSRF token.
  pub record IsAdmitted (request : Request) (now : Time) (db : AuthTables)
      (r : AuthenticatedSession) : Type 0 where
    pub token : Text
    pub presented : Presents request token r.via_bearer
    pub not_empty : nonempty token ≡ true
    pub live : IsLive lib token now db r
    pub guarded :
        changes_state request.method ≡ true
        → r.via_bearer ≡ false
        → MatchesCsrf r.session request.csrf_header

  admit-guarded :
      (request : Request) (b : Bool) (s : AuthSessionModel)
      → ◌≡◌ {A = Outcome (Unit {0})}
          (if changes_state request.method && not b
            then verify_csrf lib s request.csrf_header
            else ok tt)
          (ok tt)
      → changes_state request.method ≡ true
      → b ≡ false
      → MatchesCsrf s request.csrf_header
  admit-guarded request b s h c n = elim (verify_csrf-cases s request.csrf_header) [
    | inl (passed, csrf) ↦ csrf
    | inr (failed, lacks) ↦ absurd (cc (rw (c, n, failed) at h))
  ]

  admit-IsAdmitted :
      (request : Request) (token : Text) (b : Bool) (now : Time) (db : AuthTables)
      (r : AuthenticatedSession)
      → Presents request token b
      → nonempty token ≡ true
      → admit lib request token b now db ≡ ok r
      → IsAdmitted request now db r
  unfolding admit
  admit-IsAdmitted request token b now db r presented full h =
      let (found, resolved, rest) = >>=-eq-ok (resolve lib token b now db) _ h in
      let (checked, same) = >>-eq-ok _ (ok found) rest in
      let via = resolve-via_bearer token b now db found resolved in
      subst (IsAdmitted request now db) (ok_injective same) (record {
        token = token;
        presented = rw via presented;
        not_empty = full;
        live = resolve-IsLive lib token b now db found resolved;
        guarded = λ c n. admit-guarded request b found.session checked c (rw via at n);
      })

  -- The guard lets a request pass only with a bearer token or, without one, a cookie, that is the
  -- token of a stored session that is not revoked and not expired, whose user is active; a request
  -- whose method is not GET, HEAD or OPTIONS and that comes with the cookie has to carry the
  -- session's CSRF token.
  pub get_authenticated_session-IsAdmitted :
      (request : Request) (now : Time) (db : AuthTables) (r : AuthenticatedSession)
      → get_authenticated_session lib request now db ≡ ok r
      → IsAdmitted request now db r
  unfolding get_authenticated_session
  get_authenticated_session-IsAdmitted request now db r h =
      elim (Option-cases (session_token lib request).0) [
        | inl none_given ↦ absurd (cc (rw (none_given, get_authenticated_session) at h))
        | inr (token, given) ↦
            let (full, rest) =
              >>-eq-ok (raise_if (not (nonempty token)) _) _
                (rw (given, get_authenticated_session) at h) in
            let is_full : nonempty token ≡ true = ground (arith, raise_if-eq-ok _ _ full) in
            admit-IsAdmitted request token (session_token lib request).1 now db r
              (session_token-Presents request token given) is_full
              (translated-eq-ok raised_as _ rest)
      ]
