-- ===== src/Auth/Admins.antt =====
-- Disabling accounts never removes the last active administrator.
use bond_trading.Prelude.{
  ◌≡◌, sym, subst, inl, inr, Bool, true, false, not, ◌&&◌, List, [], ◌∷◌, any, update_where, ◌==◌,
  arith, Bool-cases,
}
use bond_trading.Prelude.Rows.{In, Distinct, In-any}
use bond_trading.Prelude.Results.{ok}
use bond_trading.Database.{Uuid, Time, UserModel}
use bond_trading.Auth.{AuthTables, is_admin, revoke_user_sessions, set_active}
use bond_trading.Auth.Sessions.{user_key}

abbrev pub is_active_admin : UserModel → Bool
is_active_admin u = is_admin u && u.is_active

abbrev activated : Bool → UserModel → UserModel
activated active x = record x { is_active = active }

-- Another active administrator stays one.
other_stays :
    (id : Uuid) (active : Bool) (us : List UserModel)
    → any (λ x. is_admin x && x.is_active && not (x.id == id)) us ≡ true
    → any is_active_admin (update_where (λ x. x.id == id) (activated active) us) ≡ true
other_stays id active [] h = absurd (cc)
other_stays id active (x ∷ us) h = ground (arith, other_stays id active us)

-- Enabling disables nobody.
enabled_stays :
    (id : Uuid) (us : List UserModel)
    → any is_active_admin us ≡ true
    → any is_active_admin (update_where (λ x. x.id == id) (activated true) us) ≡ true
enabled_stays id [] h = absurd (cc)
enabled_stays id (x ∷ us) h = ground (arith, enabled_stays id us)

no_row_stays :
    (k : Uuid) (us : List UserModel)
    → any (λ x. user_key x == k) us ≡ false
    → any is_active_admin us ≡ true
    → any (λ x. is_admin x && x.is_active && not (x.id == k)) us ≡ true
no_row_stays k [] n h = absurd (cc)
no_row_stays k (x ∷ us) n h = ground (arith, no_row_stays k us)

-- The only row with the id is no administrator's.
ordinary_stays :
    (u : UserModel) (us : List UserModel)
    → Distinct user_key us
    → In u us
    → is_admin u ≡ false
    → any is_active_admin us ≡ true
    → any (λ x. is_admin x && x.is_active && not (x.id == u.id)) us ≡ true
ordinary_stays u [] d m o h = absurd m
ordinary_stays u (x ∷ us) d (inl e) o h =
    let not_admin : is_admin x ≡ false = rw (← e) o in
    let rest : any is_active_admin us ≡ true = ground arith in
    let absent : any (λ y. user_key y == u.id) us ≡ false = rw e d.0 in
    ground (arith, no_row_stays u.id us absent rest)
ordinary_stays u (x ∷ us) d (inr m) o h =
    let other : (x.id == u.id) ≡ false = other_key x u us d.0 m in
    ground (arith, ordinary_stays u us d.1 m o)
  where
    other_key :
        (x u : UserModel) (us : List UserModel)
        → any (λ y. user_key y == user_key x) us ≡ false
        → In u us
        → (x.id == u.id) ≡ false
    other_key x u us n m = elim (Bool-cases (x.id == u.id)) [
      | inl hit ↦
          let same : x.id ≡ u.id = ground arith in
          let found : any (λ y. user_key y == user_key x) us ≡ true =
            subst (λ k. any (λ y. user_key y == k) us ≡ true) (sym same) (In-any user_key u us m) in
          ground arith
      | inr miss ↦ miss
    ]

users-set_active :
    (u : UserModel) (active : Bool) (now : Time) (db after : AuthTables)
    → set_active u active now db ≡ ok after
    → after.users ≡ update_where (λ x. x.id == u.id) (activated active) db.users
unfolding set_active revoke_user_sessions
users-set_active u true now db after e = ground arith
users-set_active u false now db after e = ground arith

guarded :
    (u : UserModel) (now : Time) (db after : AuthTables)
    → set_active u false now db ≡ ok after
    → is_admin u ≡ true
    → any (λ x. is_admin x && x.is_active && not (x.id == u.id)) db.users ≡ true
unfolding set_active
guarded u now db after e h = ground arith

-- While some administrator is active, no call of `set_active` on a user of the table that succeeds
-- leaves none.
pub set_active-keeps_admin :
    (u : UserModel) (active : Bool) (now : Time) (db after : AuthTables)
    → Distinct user_key db.users
    → In u db.users
    → any is_active_admin db.users ≡ true
    → set_active u active now db ≡ ok after
    → any is_active_admin after.users ≡ true
set_active-keeps_admin u true now db after d m h e =
    rw (users-set_active u true now db after e) (enabled_stays u.id db.users h)
set_active-keeps_admin u false now db after d m h e = rw (users-set_active u false now db after e) (
    other_stays u.id false db.users (elim (Bool-cases (is_admin u)) [
      | inl chief ↦ guarded u now db after e chief
      | inr ordinary ↦ ordinary_stays u db.users d m ordinary h
    ]))
