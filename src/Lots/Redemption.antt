-- ===== src/Lots/Redemption.antt =====
-- Where the redemption of a planned yield comes from.
use bond_trading.Prelude.{
  ◌≡◌, refl, true, find, if◌then◌else◌, List, [], ◌∷◌, none, some, ◌&&◌, ◌==◌, Option-cases,
  Bool-cases, inl, inr, ◌⊎◌, arith, some_injective,
}
use bond_trading.Prelude.Results.{ok, ok_injective}
use bond_trading.Prelude.Rows.{In, find-In}
use bond_trading.Prelude.Texts.{text_eq, codes}
use bond_trading.Decimal.{Decimal}
use bond_trading.Calculations.Models.{Date, ActionType, maturity, offer, same_action}
use bond_trading.Database.{BondLotModel, BondInstrumentModel, CorporateActionModel}
use bond_trading.Lots.{Portfolio}
use bond_trading.Lots.Valuation.{
  announced_redemption, target_redemption, or_else, wanted_type, is_maturity_lot, lot_face_value,
}

-- The action has the wanted kind, the day and the amount.
abbrev pub Announces : ActionType → Date → Decimal → CorporateActionModel → Type 0
Announces wanted day amount a =
    (same_action a.action_type wanted ≡ true)
    × (a.event_date ≡ day)
    × (a.amount_rub_per_bond ≡ some amount)

announced-In :
    (wanted : ActionType) (day : Date) (actions : List CorporateActionModel) (r : Decimal)
    → announced_redemption wanted day actions ≡ some r
    → (a : CorporateActionModel) × In a actions × Announces wanted day r a
unfolding announced_redemption
announced-In wanted day [] r h = absurd (cc)
announced-In wanted day (a ∷ rest) r h =
    let later : announced_redemption wanted day rest ≡ some r
        → (b : CorporateActionModel) × In b (a ∷ rest) × Announces wanted day r b =
      λ e. let (b, m, p) = announced-In wanted day rest r e in (b, inr m, p) in
    elim (Bool-cases (same_action a.action_type wanted && a.event_date == day)) [
      | inl hit ↦ elim (Option-cases a.amount_rub_per_bond) [
        | inl e ↦ later (rw (e, announced_redemption) at (rw (hit, announced_redemption) at h))
        | inr (amount, e) ↦
            let same =
              some_injective
                (rw (e, announced_redemption) at (rw (hit, announced_redemption) at h)) in
            (a, inl refl, (ground (arith, hit), ground (arith, hit), rw e (cc (same))))
      ]
      | inr miss ↦ later (rw (miss, announced_redemption) at h)
    ]

-- Where no redemption is announced, no action has the kind, the day and any amount.
announced-none :
    (wanted : ActionType) (day : Date) (actions : List CorporateActionModel)
    → announced_redemption wanted day actions ≡ none
    → (a : CorporateActionModel) (amount : Decimal) → In a actions
    → Announces wanted day amount a
    → ⊥
unfolding announced_redemption
announced-none wanted day [] h a amount m p = absurd m
announced-none wanted day (x ∷ rest) h a amount m p =
    elim (Bool-cases (same_action x.action_type wanted && x.event_date == day)) [
      | inr miss ↦ elim m [
        | inl e ↦
            let kind : same_action x.action_type wanted ≡ true = rw e at p.0 in
            let date : x.event_date ≡ day = rw e at p.1 in absurd (ground arith)
        | inr n ↦ announced-none wanted day rest (rw (miss, announced_redemption) at h) a amount n p
      ]
      | inl hit ↦ elim (Option-cases x.amount_rub_per_bond) [
        | inr (found, e) ↦
            absurd (cc (rw (e, announced_redemption) at (rw (hit, announced_redemption) at h)))
        | inl e ↦ elim m [
          | inl same ↦ absurd (cc (rw (same, e) at p.2))
          | inr n ↦
              announced-none wanted day rest
                (rw (e, announced_redemption) at (rw (hit, announced_redemption) at h)) a amount n p
        ]
      ]
    ]

-- The instrument of the lot has the face value.
abbrev pub HasFaceValue : BondLotModel → Decimal → Portfolio → Type 0
HasFaceValue lot r db =
    (i : BondInstrumentModel) × In i db.instruments
    × (i.id ≡ lot.instrument_id)
    × (i.current_face_value ≡ some r)

lot_face_value-HasFaceValue :
    (lot : BondLotModel) (r : Decimal) (db : Portfolio)
    → lot_face_value lot db ≡ some r
    → HasFaceValue lot r db
unfolding lot_face_value
lot_face_value-HasFaceValue lot r db h =
    elim (Option-cases
      (find (λ (i : BondInstrumentModel). i.id == lot.instrument_id) db.instruments)) [
        | inl e ↦ absurd (cc (rw (e, lot_face_value) at h))
        | inr (i, e) ↦
            let (m, own) = find-In _ db.instruments e in
            (i, m, ground (arith, own), rw (e, lot_face_value) at h)
      ]

-- The kind of action that a lot waits for.
abbrev pub awaited : BondLotModel → ActionType
awaited lot = if text_eq lot.target_event_type (codes "maturity") then maturity else offer

-- The redemption is the lot's manual price; without one it is the amount of an action of the wanted
-- kind on the lot's target date; and where no action of that kind and date has an amount, it is the
-- current face value of the instrument, for a lot that is held to maturity.
pub target_redemption-source :
    (lot : BondLotModel) (actions : List CorporateActionModel) (db : Portfolio) (r : Decimal)
    → target_redemption lot actions db ≡ ok r
    → (lot.target_redemption_price_rub_per_bond ≡ some r)
      ⊎ ((lot.target_redemption_price_rub_per_bond ≡ none)
          × (a : CorporateActionModel) × In a actions
          × Announces (awaited lot) lot.target_event_date r a)
      ⊎ ((lot.target_redemption_price_rub_per_bond ≡ none)
          × ((a : CorporateActionModel) (amount : Decimal)
              → In a actions
              → Announces (awaited lot) lot.target_event_date amount a
              → ⊥)
          × (text_eq lot.target_event_type (codes "maturity") ≡ true)
          × HasFaceValue lot r db)
unfolding target_redemption or_else lot_face_value
target_redemption-source lot actions db r h =
    elim (Option-cases lot.target_redemption_price_rub_per_bond) [
      | inr (price, e) ↦ inl (rw e (cc (ok_injective (rw (e, or_else, target_redemption) at h))))
      | inl e ↦
          elim (Option-cases
            (announced_redemption (wanted_type lot) lot.target_event_date actions)) [
              | inr (amount, f) ↦
                  let g = ok_injective (
                    rw (f, or_else, target_redemption) at
                      (rw (e, or_else, target_redemption) at h)) in
                  let (a, m, p) =
                    announced-In (wanted_type lot) lot.target_event_date actions r
                      (rw f (cc (g))) in
                  inr (inl (e, a, m, p))
              | inl f ↦
                  let g =
                    rw (f, or_else, target_redemption) at
                      (rw (e, or_else, target_redemption) at h) in
                  elim (Bool-cases (is_maturity_lot lot)) [
                    | inl m ↦ elim (Option-cases (lot_face_value lot db)) [
                      | inl n ↦ absurd (
                          cc (
                            rw (n, or_else, target_redemption) at
                              (rw (m, or_else, target_redemption) at g)))
                      | inr (x, n) ↦
                          let q = ok_injective (
                            rw (n, or_else, target_redemption) at
                              (rw (m, or_else, target_redemption) at g)) in
                          inr (
                            inr (
                              e,
                              announced-none _ _ actions f,
                              m,
                              lot_face_value-HasFaceValue lot r db (rw n (cc (q))),
                            ))
                    ]
                    | inr m ↦ absurd (cc (rw (m, or_else, target_redemption) at g))
                  ]
            ]
    ]
