-- ===== src/Lots.antt =====
-- The lots of an owner: application/services/lots.py.
--
-- The tables are lists of rows in the order of insertion; a row that the source mutates is the one
-- with its id. A call that raises leaves the tables as they were. `now` is the clock, ids come from
-- a counter. `Lots.Valuation` holds `calculate`.
pub mod Ownership
pub mod Creation
pub mod Valuation
pub mod Calculated
pub mod Redemption
mod Samples
use bond_trading.Prelude.{
  ◌+◌, true, false, not, ◌&&◌, ◌||◌, List, [], ◌∷◌, ◌++◌, Option, none, some, find, keep, sort,
  update_where, leb, ltb, ◌==◌, if◌then◌else◌,
}
use bond_trading.Prelude.Texts.{Text, codes, text_eq, nonempty}
use bond_trading.Prelude.Results.{Result, ok, err, ◌>>=◌, ◌>>◌, raise_if}
use bond_trading.Errors.{DomainError, domain_error}
use bond_trading.Decimal.{Decimal, le_zero}
use bond_trading.Database.{
  Uuid, Time, BondInstrumentModel, BondLotModel, CorporateActionModel, MarketSnapshotModel,
  YieldSnapshotModel, AppSettingModel, Numerics, stored_lot, lot_created, lot_updated, lot_deleted,
}
use bond_trading.Isin.{normalize_isin}
use bond_trading.Requests.{LotCreate, LotPatch, Given}
use bond_trading.Jobs.{SheetTables, enqueue_sheet_sync}

pub record Portfolio : Type 0 where
  pub instruments : List BondInstrumentModel
  pub lots : List BondLotModel
  pub actions : List CorporateActionModel
  pub markets : List MarketSnapshotModel
  pub snapshots : List YieldSnapshotModel
  pub settings : List AppSettingModel
  pub sheets : SheetTables
  pub next_id : Uuid
  -- how the database rounds a number to its column
  pub numerics : Numerics

-- A domain error, or the database's refusal: of a null in a column that takes none, and of a
-- quantity that is not positive.
pub data LotError : Type 0 where
  refused : DomainError → LotError
  integrity_error : LotError

abbrev pub Outcome : Type 0 → Type 0
Outcome A = Result LotError A

unfoldable pub from_domain : {A : Type 0} → Result DomainError A → Outcome A
from_domain (ok a) = ok a
from_domain (err e) = err (refused e)

-- `setattr` of a column that may be null.
abbrev pub assign : {A : Type 0} → Given A → Option A → Option A
assign none old = old
assign (some new) old = new

-- `setattr` of a column that may not.
unfoldable pub assign_required : {A : Type 0} → Given A → A → Outcome A
assign_required none old = ok old
assign_required (some none) old = err integrity_error
assign_required (some (some new)) old = ok new

-- The columns of the manual redemption override as `update` completes the change.
pub record Override : Type 0 where
  pub reason : Given Text
  pub updated_at : Given Time

unfoldable pub override_columns : Time → Given Decimal → Given Text → Override
override_columns now (some none) reason = record { reason = some none; updated_at = some none }
override_columns now (some (some price)) reason = record {
  reason = reason;
  updated_at = some (some now);
}
override_columns now none (some reason) = record {
  reason = some reason;
  updated_at = some (some now);
}
override_columns now none none = record { reason = none; updated_at = none }

abbrev pub new_instrument : Uuid → Text → Option Text → Time → BondInstrumentModel
new_instrument id isin source_name now = record {
  id = id;
  created_at = now;
  isin = isin;
  secid = isin;
  short_name = elim source_name [ none ↦ isin | some s ↦ if nonempty s then s else isin ];
  full_name = none;
  primary_board_id = none;
  currency = codes "RUB";
  initial_face_value = none;
  current_face_value = none;
  maturity_date = none;
  offer_date = none;
  coupon_period_days = none;
  is_amortizing = false;
  is_floating_coupon = false;
  is_active = true;
  source_updated_at = none;
}

abbrev pub new_lot : Uuid → Uuid → Uuid → LotCreate → Time → BondLotModel
new_lot id owner instrument v now = record {
  id = id;
  created_at = now;
  owner_id = owner;
  instrument_id = instrument;
  purchase_date = v.purchase_date;
  quantity = v.quantity;
  purchase_clean_price_rub_per_bond = v.purchase_clean_price_rub_per_bond;
  purchase_accrued_interest_rub_per_bond = v.purchase_accrued_interest_rub_per_bond;
  purchase_commission_rub_per_bond = v.purchase_commission_rub_per_bond;
  target_event_type = v.target_event_type;
  target_event_date = v.target_event_date;
  target_redemption_price_rub_per_bond = v.target_redemption_price_rub_per_bond;
  target_redemption_override_reason = v.target_redemption_override_reason;
  target_redemption_override_updated_at = elim v.target_redemption_price_rub_per_bond [
    | none ↦ none
    | some _ ↦ some now
  ];
  sale_commission_rub_per_bond = v.sale_commission_rub_per_bond;
  planned_yield_manual_reference = v.planned_yield_manual_reference;
  source_row_number = v.source_row_number;
  source_sheet_name = v.source_sheet_name;
  notes = v.notes;
  import_batch_id = none;
}

-- The instrument with the ISIN, or a new one.
unfoldable pub ensure_instrument : Text → Option Text → Time → Portfolio → Uuid × Portfolio
ensure_instrument isin source_name now db =
    elim (find (λ (i : BondInstrumentModel). text_eq i.isin isin) db.instruments) [
      | some i ↦ (i.id, db)
      | none ↦ (
        db.next_id,
        record db {
          instruments = db.instruments ++ new_instrument db.next_id isin source_name now ∷ [];
          next_id = db.next_id + 1;
        },
      )
    ]

module _ (owner : Uuid) where
  -- `get`
  unfoldable pub get : Uuid → Portfolio → Option BondLotModel
  get lot_id db = find (λ l. l.id == lot_id && l.owner_id == owner) db.lots

  -- `list_all`: by the date of purchase, and of one date in the order of creation
  unfoldable pub list_all : Portfolio → List BondLotModel
  list_all db =
      sort
        (λ a b.
          ltb a.purchase_date b.purchase_date
          || a.purchase_date == b.purchase_date && leb a.created_at b.created_at)
        (keep (λ l. l.owner_id == owner) db.lots)

  -- `_required`
  unfoldable pub required : Uuid → Portfolio → Outcome BondLotModel
  required lot_id db = elim (get lot_id db) [ none ↦ err (refused domain_error) | some l ↦ ok l ]

  unfoldable pub add_lot : LotCreate → Time → Uuid × Portfolio → Portfolio
  add_lot v now (instrument, db) = record db {
    lots = db.lots ++ stored_lot db.numerics (new_lot db.next_id owner instrument v now) ∷ [];
    sheets = enqueue_sheet_sync owner lot_created now db.sheets;
    next_id = db.next_id + 1;
  }

  -- `CheckConstraint("quantity > 0")` on a row.
  unfoldable pub check_quantity : BondLotModel → Outcome (Unit {0})
  check_quantity l = raise_if (le_zero l.quantity) integrity_error

  -- `create`: the new lot and the tables. The lot is then read back; the session has the object
  -- still, so that what it returns has the numbers of the request, and the row has them rounded.
  unfoldable pub create : LotCreate → Time → Portfolio → Outcome (BondLotModel × Portfolio)
  create v now db = do
    isin ← from_domain (normalize_isin v.isin)
    let placed = ensure_instrument isin v.source_name now db
    let lot = new_lot placed.1.next_id owner placed.0 v now
    let after = add_lot v now placed
    check_quantity (stored_lot placed.1.numerics lot)
    stored ← required placed.1.next_id after
    ok (lot, after)

  -- The row with the fields of a change.
  unfoldable pub patch_lot : LotPatch → Time → BondLotModel → Outcome BondLotModel
  patch_lot p now l = do
    let override =
        override_columns now p.target_redemption_price_rub_per_bond
          p.target_redemption_override_reason
    bought ← assign_required p.purchase_date l.purchase_date
    quantity ← assign_required p.quantity l.quantity
    clean ← assign_required p.purchase_clean_price_rub_per_bond l.purchase_clean_price_rub_per_bond
    accrued ←
        assign_required p.purchase_accrued_interest_rub_per_bond
          l.purchase_accrued_interest_rub_per_bond
    commission ←
        assign_required p.purchase_commission_rub_per_bond l.purchase_commission_rub_per_bond
    event_type ← assign_required p.target_event_type l.target_event_type
    event_date ← assign_required p.target_event_date l.target_event_date
    sale ← assign_required p.sale_commission_rub_per_bond l.sale_commission_rub_per_bond
    ok (record l {
      purchase_date = bought;
      quantity = quantity;
      purchase_clean_price_rub_per_bond = clean;
      purchase_accrued_interest_rub_per_bond = accrued;
      purchase_commission_rub_per_bond = commission;
      target_event_type = event_type;
      target_event_date = event_date;
      target_redemption_price_rub_per_bond =
          assign p.target_redemption_price_rub_per_bond l.target_redemption_price_rub_per_bond;
      target_redemption_override_reason =
          assign override.reason l.target_redemption_override_reason;
      target_redemption_override_updated_at =
          assign override.updated_at l.target_redemption_override_updated_at;
      sale_commission_rub_per_bond = sale;
      planned_yield_manual_reference =
          assign p.planned_yield_manual_reference l.planned_yield_manual_reference;
      notes = assign p.notes l.notes;
    })

  -- `update`; what it returns is the session's object, whose numbers are not rounded yet.
  unfoldable pub update : Uuid → LotPatch → Time → Portfolio → Outcome (BondLotModel × Portfolio)
  update lot_id p now db = do
    lot ← required lot_id db
    patched ← patch_lot p now lot
    let after : Portfolio = record db {
      lots = update_where (λ l. l.id == lot.id) (λ l. stored_lot db.numerics patched) db.lots;
      sheets = enqueue_sheet_sync owner lot_updated now db.sheets;
    }
    check_quantity (stored_lot db.numerics patched)
    stored ← required lot_id after
    ok (patched, after)

  -- `delete`, with the yield snapshots that the foreign key deletes with the lot
  unfoldable pub delete : Uuid → Time → Portfolio → Outcome Portfolio
  delete lot_id now db = do
    lot ← required lot_id db
    ok (record db {
      lots = keep (λ l. not (l.id == lot.id)) db.lots;
      snapshots = keep (λ s. not (s.lot_id == lot.id)) db.snapshots;
      sheets = enqueue_sheet_sync owner lot_deleted now db.sheets;
    })

  -- `history`, the newest first
  unfoldable pub history : Uuid → Portfolio → Outcome (List YieldSnapshotModel)
  history lot_id db = required lot_id db >>= λ lot.
      ok (sort (λ a b. leb b.created_at a.created_at) (keep (λ s. s.lot_id == lot_id) db.snapshots))
