-- ===== src/Instruments/Rows.antt =====
-- The fields of the rows that a refresh stores, and the rows of an answer's actions.
use bond_trading.Prelude.{
  Bool, true, ◌≡◌, refl, subst, ◌∙◌, ◌⊎◌, inl, inr, List, [], ◌∷◌, none, some, any, Bool-cases, All,
  arith,
}
use bond_trading.Prelude.Rows.{In, In-append, In-append_right}
use bond_trading.Prelude.Texts.{codes, text_eq_sound}
use bond_trading.Database.{
  Uuid, Time, BondInstrumentModel, CorporateActionModel, MarketSnapshotModel, Numerics, nullable,
}
use bond_trading.Lots.{Portfolio}
use bond_trading.Moex.{MoexInstrumentData, MoexCorporateActionData, MoexMarketData}
use bond_trading.Instruments.{has_hash, new_action, add_action, add_actions}

-- The instrument's fields are the answer's, numbers as their columns keep them.
pub record HasData (q : Numerics) (d : MoexInstrumentData) (i : BondInstrumentModel) : Type 0 where
  pub secid : i.secid ≡ d.secid
  pub short_name : i.short_name ≡ d.short_name
  pub full_name : i.full_name ≡ d.full_name
  pub primary_board_id : i.primary_board_id ≡ d.primary_board_id
  pub currency : i.currency ≡ d.currency
  pub maturity_date : i.maturity_date ≡ d.maturity_date
  pub offer_date : i.offer_date ≡ d.offer_date
  pub coupon_period_days : i.coupon_period_days ≡ d.coupon_period_days
  pub is_amortizing : i.is_amortizing ≡ d.is_amortizing
  pub is_floating_coupon : i.is_floating_coupon ≡ d.is_floating_coupon
  pub is_active : i.is_active ≡ d.is_active
  pub initial_face_value : i.initial_face_value ≡ nullable (q 8) d.initial_face_value
  pub current_face_value : i.current_face_value ≡ nullable (q 8) d.current_face_value
  pub source_updated_at : i.source_updated_at ≡ some d.source_updated_at

-- The row's fields are the action's.
pub record HasAction (q : Numerics) (now : Time) (a : MoexCorporateActionData)
    (x : CorporateActionModel) : Type 0 where
  pub action_type : x.action_type ≡ a.action_type
  pub event_date : x.event_date ≡ a.event_date
  pub record_date : x.record_date ≡ a.record_date
  pub amount : x.amount_rub_per_bond ≡ nullable (q 8) a.amount_rub_per_bond
  pub percent : x.percent ≡ nullable (q 10) a.percent
  pub source : x.source ≡ codes "MOEX ISS"
  pub source_updated_at : x.source_updated_at ≡ now

-- The snapshot's fields are those of the market.
pub record HasMarket (q : Numerics) (d : MoexMarketData) (m : MarketSnapshotModel) : Type 0 where
  pub board_id : m.board_id ≡ d.board_id
  pub received_at : m.received_at ≡ d.received_at
  pub market_timestamp : m.market_timestamp ≡ d.market_timestamp
  pub status : m.status ≡ d.status
  pub delayed_status : m.delayed_status ≡ d.delayed_status
  pub raw_payload : m.raw_payload ≡ d.raw_payload
  pub bid_rub_per_bond : m.bid_rub_per_bond ≡ nullable (q 8) d.bid_rub_per_bond
  pub bid_depth_lots : m.bid_depth_lots ≡ nullable (q 8) d.bid_depth_lots
  pub offer_rub_per_bond : m.offer_rub_per_bond ≡ nullable (q 8) d.offer_rub_per_bond
  pub offer_depth_lots : m.offer_depth_lots ≡ nullable (q 8) d.offer_depth_lots
  pub current_face_value : m.current_face_value ≡ nullable (q 8) d.current_face_value
  pub accrued_interest_rub_per_bond :
      m.accrued_interest_rub_per_bond ≡ nullable (q 8) d.accrued_interest_rub_per_bond
  pub bid_percent : m.bid_percent ≡ nullable (q 10) d.bid_percent
  pub offer_percent : m.offer_percent ≡ nullable (q 10) d.offer_percent
  pub last_price_percent : m.last_price_percent ≡ nullable (q 10) d.last_price_percent
  pub lot_size : m.lot_size ≡ q 8 d.lot_size
  pub error_message : m.error_message ≡ none

-- The action has a row of the instrument with its hash, which was there before or has its fields.
abbrev pub HasRow :
    Uuid
    → Time
    → Numerics
    → List CorporateActionModel
    → List CorporateActionModel
    → MoexCorporateActionData
    → Type 0
HasRow instrument now q before after a =
    (x : CorporateActionModel) × In x after
    × (x.instrument_id ≡ instrument)
    × (x.source_payload_hash ≡ a.source_payload_hash)
    × (In x before ⊎ HasAction q now a x)

any-In :
    (p : CorporateActionModel → Bool) (xs : List CorporateActionModel)
    → any p xs ≡ true
    → (x : CorporateActionModel) × In x xs × (p x ≡ true)
any-In p [] h = absurd (cc)
any-In p (x ∷ xs) h = elim (Bool-cases (p x)) [
  | inl hit ↦ (x, inl refl, hit)
  | inr miss ↦ let (y, m, e) = any-In p xs (ground arith) in (y, inr m, e)
]

In-add_action :
    (x : CorporateActionModel) (known : List CorporateActionModel) (id : Uuid) (now : Time)
    (a : MoexCorporateActionData) (db : Portfolio)
    → In x db.actions
    → In x (add_action known id now a db).actions
unfolding add_action
In-add_action x known id now a db m =
    elim (Bool-cases (any (has_hash id a.source_payload_hash) known)) [
      | inl old ↦ rw (old, add_action) m
      | inr new ↦ rw (new, add_action) (In-append x db.actions _ m)
    ]

pub In-add_actions :
    (x : CorporateActionModel) (known : List CorporateActionModel) (id : Uuid) (now : Time)
    (actions : List MoexCorporateActionData) (db : Portfolio)
    → In x db.actions
    → In x (add_actions known id now actions db).actions
unfolding add_actions
In-add_actions x known id now [] db m = m
In-add_actions x known id now (a ∷ actions) db m =
    In-add_actions x known id now actions _ (In-add_action x known id now a db m)

add_action-HasRow :
    (known : List CorporateActionModel) (id : Uuid) (now : Time) (a : MoexCorporateActionData)
    (db : Portfolio)
    → ((x : CorporateActionModel) → In x known → In x db.actions)
    → HasRow id now db.numerics known (add_action known id now a db).actions a
unfolding add_action
add_action-HasRow known id now a db h =
    elim (Bool-cases (any (has_hash id a.source_payload_hash) known)) [
      | inl old ↦
          let (x, m, e) = any-In (has_hash id a.source_payload_hash) known old in
          rw (old, add_action)
            (
              x,
              h x m,
              ground (arith, e),
              text_eq_sound x.source_payload_hash a.source_payload_hash (ground (arith, e)),
              inl m,
            )
      | inr new ↦
          rw (new, add_action)
            (
              new_action db.numerics db.next_id id now a,
              In-append_right _ db.actions _ (inl refl),
              refl,
              refl,
              inr (record {
                action_type = refl;
                event_date = refl;
                record_date = refl;
                amount = refl;
                percent = refl;
                source = refl;
                source_updated_at = refl;
              }),
            )
    ]

add_action-numerics :
    (known : List CorporateActionModel) (id : Uuid) (now : Time) (a : MoexCorporateActionData)
    (db : Portfolio)
    → (add_action known id now a db).numerics ≡ db.numerics
unfolding add_action
add_action-numerics known id now a db =
    elim (Bool-cases (any (has_hash id a.source_payload_hash) known)) [
      | inl old ↦ rw (old, add_action) refl
      | inr new ↦ rw (new, add_action) refl
    ]

pub add_actions-HasRow :
    (q : Numerics) (known : List CorporateActionModel) (id : Uuid) (now : Time)
    (actions : List MoexCorporateActionData) (db : Portfolio)
    → db.numerics ≡ q
    → ((x : CorporateActionModel) → In x known → In x db.actions)
    → All (HasRow id now q known (add_actions known id now actions db).actions) actions
unfolding add_actions
add_actions-HasRow q known id now [] db e h = tt
add_actions-HasRow q known id now (a ∷ actions) db e h =
    let first = add_action known id now a db in
    let (x, m, own, same, fields) = add_action-HasRow known id now a db h in
    (
      (
        x,
        In-add_actions x known id now actions first m,
        own,
        same,
        subst (λ n. In x known ⊎ HasAction n now a x) e fields,
      ),
      add_actions-HasRow q known id now actions first (add_action-numerics known id now a db ∙ e)
          (λ y k. In-add_action y known id now a db (h y k)),
    )
