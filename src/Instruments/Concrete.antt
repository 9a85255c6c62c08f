-- ===== src/Instruments/Concrete.antt =====
-- An answer of the exchange for the tests: one offer, and a best offer of 950 rubles.
use bond_trading.Prelude.{true, false, [], ◌∷◌, none, some}
use bond_trading.Prelude.Int.{pos}
use bond_trading.Prelude.Texts.{Text, codes}
use bond_trading.Decimal.{of_int}
use bond_trading.Calculations.Models.{offer}
use bond_trading.Moex.{
  MoexInstrumentData, MoexCorporateActionData, MoexMarketData, MoexRefreshResult,
}

abbrev pub isin : Text
isin = codes "RU000A0JX0J2"

abbrev pub data_of : MoexInstrumentData
data_of = record {
  isin = isin;
  secid = isin;
  short_name = codes "Bond";
  full_name = none;
  primary_board_id = none;
  currency = codes "RUB";
  initial_face_value = none;
  current_face_value = some (of_int (pos 1000));
  maturity_date = none;
  offer_date = none;
  coupon_period_days = some (pos 182);
  coupon_value = none;
  is_amortizing = false;
  is_floating_coupon = false;
  is_active = true;
  source_updated_at = 9;
}

abbrev pub action : MoexCorporateActionData
action = record {
  action_type = offer;
  event_date = 740361;
  record_date = none;
  amount_rub_per_bond = some (of_int (pos 1000));
  percent = none;
  source_payload_hash = codes "a1";
}

abbrev pub market : MoexMarketData
market = record {
  board_id = none;
  received_at = 9;
  market_timestamp = some 740000;
  bid_percent = none;
  bid_rub_per_bond = none;
  bid_depth_lots = none;
  offer_percent = some (of_int (pos 95));
  offer_rub_per_bond = some (of_int (pos 950));
  offer_depth_lots = none;
  lot_size = of_int (pos 1);
  current_face_value = some (of_int (pos 1000));
  accrued_interest_rub_per_bond = some (of_int (pos 7));
  last_price_percent = none;
  status = codes "no_bid";
  delayed_status = codes "unknown";
  raw_payload = [];
}

abbrev pub answer : MoexRefreshResult
answer = record { instrument = data_of; actions = action ∷ []; market = market }
