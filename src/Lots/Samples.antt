-- ===== src/Lots/Samples.antt =====
-- A lot of each of two owners, and a library of one zone.
use bond_trading.Prelude.{
  ℕ, ◌≡◌, refl, true, false, [], ◌∷◌, Option, none, some, arith, any, ◌⊎◌, ◌==◌,
}
use bond_trading.Prelude.Int.{pos}
use bond_trading.Prelude.Texts.{codes, text_eq, upper, strip, upper_char}
use bond_trading.Prelude.Results.{ok}
use bond_trading.Prelude.Rows.{In}
use bond_trading.Decimal.{Decimal, of_int}
use bond_trading.Calculations.Models.{offer}
use bond_trading.Database.{BondLotModel, CorporateActionModel, MarketSnapshotModel, stored_lot}
use bond_trading.Isin.{isin_runs}
use bond_trading.Database.Concrete.{rounded_half_up}
use bond_trading.Lots.{
  Portfolio, get, required, check_quantity, patch_lot, update, delete, create, add_lot,
  ensure_instrument, from_domain, assign_required, override_columns, new_instrument,
}
use bond_trading.Requests.{LotPatch, LotCreate}
use bond_trading.Lots.Ownership.{lot_key, others, update-keeps_others, delete-keeps_others}
use bond_trading.Lots.Creation.{IsCreated, create-IsCreated}
use bond_trading.Lots.Valuation.{
  ValuationLibrary, announced_redemption, lot_face_value, or_else, target_redemption,
}
use bond_trading.Lots.Redemption.{Announces, HasFaceValue, target_redemption-source}

abbrev price : ℕ → Decimal
price n = of_int (pos n)

abbrev lot_of : ℕ → ℕ → BondLotModel
lot_of id owner = record {
  id = id;
  created_at = 0;
  owner_id = owner;
  instrument_id = 50;
  purchase_date = 1000;
  quantity = price 10;
  purchase_clean_price_rub_per_bond = price 950;
  purchase_accrued_interest_rub_per_bond = price 5;
  purchase_commission_rub_per_bond = price 0;
  target_event_type = codes "offer";
  target_event_date = 1365;
  target_redemption_price_rub_per_bond = none;
  target_redemption_override_reason = none;
  target_redemption_override_updated_at = none;
  sale_commission_rub_per_bond = price 0;
  planned_yield_manual_reference = none;
  source_row_number = none;
  source_sheet_name = codes "manual";
  notes = none;
  import_batch_id = none;
}

abbrev announced : CorporateActionModel
announced = record {
  id = 60;
  created_at = 0;
  instrument_id = 50;
  action_type = offer;
  event_date = 1365;
  record_date = none;
  amount_rub_per_bond = some (price 1000);
  percent = none;
  source = codes "MOEX ISS";
  source_payload_hash = [];
  source_updated_at = 0;
}

abbrev quoted : MarketSnapshotModel
quoted = record {
  id = 70;
  instrument_id = 50;
  board_id = none;
  received_at = 5;
  market_timestamp = some 1200;
  bid_percent = some (price 90);
  bid_rub_per_bond = some (price 900);
  bid_depth_lots = none;
  offer_percent = none;
  offer_rub_per_bond = none;
  offer_depth_lots = none;
  lot_size = price 1;
  current_face_value = some (price 1000);
  accrued_interest_rub_per_bond = some (price 3);
  last_price_percent = none;
  status = codes "ok";
  delayed_status = codes "unknown";
  error_message = none;
  raw_payload = [];
}

abbrev portfolio : Portfolio
portfolio = record {
  instruments = new_instrument 50 (codes "RU000A0JX0J2") none 0 ∷ [];
  lots = lot_of 7 1 ∷ lot_of 8 2 ∷ [];
  actions = announced ∷ [];
  markets = quoted ∷ [];
  snapshots = [];
  settings = [];
  sheets = record { connections = []; jobs = []; next_id = 0 };
  next_id = 100;
  numerics = rounded_half_up;
}

abbrev note_only : LotPatch
note_only = record {
  purchase_date = none;
  quantity = none;
  purchase_clean_price_rub_per_bond = none;
  purchase_accrued_interest_rub_per_bond = none;
  purchase_commission_rub_per_bond = none;
  target_event_type = none;
  target_event_date = none;
  target_redemption_price_rub_per_bond = none;
  target_redemption_override_reason = none;
  sale_commission_rub_per_bond = none;
  planned_yield_manual_reference = none;
  notes = some (some (codes "sold"));
}

abbrev request : LotCreate
request = record {
  isin = codes " ru000a0jx0j2";
  source_name = none;
  purchase_date = 1100;
  quantity = price 3;
  purchase_clean_price_rub_per_bond = price 900;
  purchase_accrued_interest_rub_per_bond = price 0;
  purchase_commission_rub_per_bond = price 0;
  target_event_type = codes "maturity";
  target_event_date = 2000;
  target_redemption_price_rub_per_bond = none;
  target_redemption_override_reason = none;
  sale_commission_rub_per_bond = price 0;
  planned_yield_manual_reference = none;
  source_row_number = none;
  source_sheet_name = codes "manual";
  notes = none;
}

updated : (r : BondLotModel × Portfolio) × (update 1 7 note_only 20 portfolio ≡ ok r)
unfolding update check_quantity stored_lot required get patch_lot assign_required override_columns
updated = (_, refl)

update-keeps_others_example :
    (others 1 updated.0.1.lots ≡ others 1 portfolio.lots)
    × In (stored_lot rounded_half_up updated.0.0) updated.0.1.lots
    × (updated.0.0.id ≡ 7)
    × (updated.0.0.owner_id ≡ 1)
update-keeps_others_example =
    update-keeps_others 1 7 note_only 20 portfolio _ _ (refl, (refl, tt)) updated.1

deleted : (after : Portfolio) × (delete 1 7 20 portfolio ≡ ok after)
unfolding delete required get
deleted = (_, refl)

delete-keeps_others_example :
    (others 1 deleted.0.lots ≡ others 1 portfolio.lots)
    × (any (λ x. lot_key x == 7) deleted.0.lots ≡ false)
delete-keeps_others_example = delete-keeps_others 1 7 20 portfolio _ (refl, (refl, tt)) deleted.1

created : (r : BondLotModel × Portfolio) × (create 1 request 20 portfolio ≡ ok r)
unfolding create check_quantity stored_lot from_domain ensure_instrument add_lot required get
    isin_runs upper strip upper_char
created = (_, refl)

create-IsCreated_example : IsCreated 1 request 20 portfolio created.0.1 created.0.0
create-IsCreated_example =
    create-IsCreated 1 request 20 portfolio _ _ (omega arith, (omega arith, tt)) created.1

-- The zone in which a time is its own date.
abbrev library : ValuationLibrary
library = record { local_date = λ t. t; encode_details = λ mode rate planned current. [] }

target_redemption-source_example :
    (◌≡◌ {A = Option Decimal} none (some (price 1000)))
    ⊎ ((◌≡◌ {A = Option Decimal} none none)
        × (a : CorporateActionModel) × In a (announced ∷ [])
        × Announces offer 1365 (price 1000) a)
    ⊎ ((◌≡◌ {A = Option Decimal} none none)
        × ((a : CorporateActionModel) (amount : Decimal)
            → In a (announced ∷ [])
            → Announces offer 1365 amount a
            → ⊥)
        × (text_eq (codes "offer") (codes "maturity") ≡ true)
        × HasFaceValue (lot_of 7 1) (price 1000) portfolio)
unfolding announced_redemption lot_face_value or_else target_redemption
target_redemption-source_example =
    target_redemption-source (lot_of 7 1) (announced ∷ []) portfolio (price 1000) refl
