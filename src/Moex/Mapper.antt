-- ===== src/Moex/Mapper.antt =====
-- infrastructure/moex/mapper.py: from four payloads to what the program keeps of an instrument.
use bond_trading.Prelude.{
  Bool, true, false, not, ◌&&◌, ◌||◌, List, [], ◌∷◌, ◌++◌, Option, none, some, keep, sort, ltb, leb,
  ◌==◌, if◌then◌else◌,
}
use bond_trading.Prelude.Int.{pos}
use bond_trading.Prelude.Texts.{Text, codes, text_eq, nonempty, strip, upper}
use bond_trading.Prelude.Results.{ok, err, ◌>>=◌, ◌>>◌, raise_if}
use bond_trading.Decimal.{Decimal, of_int}
use bond_trading.Calculations.Models.{
  Date, ActionType, coupon, amortization, maturity, offer, percent_of_face,
}
use bond_trading.Calculations.Engine.{bid_to_rubles}
use bond_trading.Database.{Time}
use bond_trading.Isin.{normalize_isin}
use bond_trading.Quotes.{action_rank}
use bond_trading.Values.{Value, text, PythonLibrary, truthy, shown, shown_or_empty}
use bond_trading.Moex.{
  moex_not_found, moex_data, moex_domain, Answer, MoexInstrumentData, MoexCorporateActionData,
  MoexMarketData, MoexRefreshResult, Payload, Row, zip_cells, rows_of, table_of, field, table_rows,
  first_row,
}
use bond_trading.Moex.Fields.{
  MoexLibrary, or_value, or_amount, equals_one, contains, truncated, is_no_date, moex_decimal,
  moex_integer, moex_date, first_date, market_datetime, currency_of, optional_string,
}

unfoldable pub moex_isin : Text → Answer Text
moex_isin isin = elim (normalize_isin isin) [ ok n ↦ ok n | err e ↦ err (moex_domain e) ]

unfoldable pub row_or_empty : Option Row → Row
row_or_empty none = []
row_or_empty (some row) = row

unfoldable pub first_match : List Row → List Row → Answer Row
first_match [] [] = err moex_not_found
first_match [] (row ∷ matches) = ok row
first_match (row ∷ traded) matches = ok row

-- The price of a quote in percent of the face value, where both are known.
unfoldable pub quote_in_rubles : Option Decimal → Option Decimal → Answer (Option Decimal)
quote_in_rubles (some quote) (some face) = elim (bid_to_rubles quote face percent_of_face) [
  | ok price ↦ ok (some price)
  | err e ↦ err (moex_domain e)
]
quote_in_rubles (some quote) none = ok none
quote_in_rubles none face = ok none

abbrev pub is_row : Row → Bool
is_row [] = false
is_row (cell ∷ row) = true

abbrev pub is_given : {A : Type 0} → Option A → Bool
is_given none = false
is_given (some a) = true

unfoldable pub market_status : Option Decimal → Row → Row → Text
market_status bid security_row market_row =
    if not (is_row security_row) && not (is_row market_row)
    then codes "no_market_data"
    else if is_given bid
    then codes "ok"
    else codes "no_bid"

-- The order of `sorted`.
abbrev pub action_not_after : MoexCorporateActionData → MoexCorporateActionData → Bool
action_not_after a b =
    ltb a.event_date b.event_date
    || a.event_date == b.event_date && leb (action_rank a.action_type) (action_rank b.action_type)

module _ (lib : PythonLibrary) (moex : MoexLibrary) where
  abbrev pub has_isin : Text → Row → Bool
  has_isin isin row = text_eq (upper (strip (shown_or_empty lib (field (codes "isin") row)))) isin

  -- `find_exact_security`
  unfoldable pub find_exact_security : Payload → Text → Answer Row
  unfolding first_match
  find_exact_security payload isin = do
    normalized ← moex_isin isin
    rows ← table_rows payload (codes "securities")
    let matches = keep (has_isin normalized) rows
    first_match (keep (λ row. equals_one (field (codes "is_traded") row)) matches) matches

  -- `_action`, with the cell of its record date
  unfoldable pub action_of : ActionType → Date → Row → Value → Answer MoexCorporateActionData
  action_of action_type event_date row record_date = do
    rubles ← moex_decimal lib (field (codes "value_rub") row)
    amount ← (elim rubles [
      | some d ↦ ok (some d)
      | none ↦ moex_decimal lib (field (codes "value") row)
    ])
    recorded ← moex_date lib record_date
    percent ← moex_decimal lib (field (codes "valueprc") row)
    ok (record {
      action_type = action_type;
      event_date = event_date;
      record_date = recorded;
      amount_rub_per_bond = amount;
      percent = percent;
      source_payload_hash = moex.row_hash row;
    })

  -- One of the three loops of `_map_actions`: rows without a date are left out.
  unfoldable pub actions_from :
      Text → (Row → ActionType) → (Row → Value) → List Row → Answer (List MoexCorporateActionData)
  unfolding action_of
  actions_from date_field kind record_date [] = ok []
  actions_from date_field kind record_date (row ∷ rows) = do
    day ← moex_date lib (field date_field row)
    found ← (elim day [
      | none ↦ ok []
      | some d ↦ action_of (kind row) d row (record_date row) >>= λ a. ok (a ∷ [])
    ])
    rest ← actions_from date_field kind record_date rows
    ok (found ++ rest)

  abbrev pub amortization_kind : Row → ActionType
  amortization_kind row =
      if text_eq (lib.lower (shown_or_empty lib (field (codes "data_source") row)))
        (codes "maturity")
      then maturity
      else amortization

  -- `_map_actions`
  unfoldable pub map_actions : Payload → Answer (List MoexCorporateActionData)
  unfolding actions_from
  map_actions payload = do
    coupons ← table_rows payload (codes "coupons")
    paid ←
        actions_from (codes "coupondate") (λ row. coupon) (λ row. field (codes "recorddate") row)
          coupons
    amortizations ← table_rows payload (codes "amortizations")
    repaid ← actions_from (codes "amortdate") amortization_kind (λ row. text []) amortizations
    offers ← table_rows payload (codes "offers")
    offered ← actions_from (codes "offerdate") (λ row. offer) (λ row. text []) offers
    ok (sort action_not_after (paid ++ (repaid ++ offered)))

  unfoldable pub described : List Row → Row
  described [] = []
  described (row ∷ rows) =
      let rest = described rows in
      let name = field (codes "name") row in
      if truthy name then (text (shown lib name), field (codes "value") row) ∷ rest else rest

  -- `_description_values`
  unfoldable pub description_values : Payload → Answer Row
  unfolding described
  description_values payload =
      table_rows payload (codes "description") >>= λ (rows : List Row). ok (described rows)

  unfoldable pub first_face_value : List Row → Answer (Option Decimal)
  first_face_value [] = ok none
  first_face_value (row ∷ rows) =
      moex_decimal lib (field (codes "initialfacevalue") row) >>= λ (found : Option Decimal).
      elim found [ some d ↦ ok (some d) | none ↦ first_face_value rows ]

  -- `_initial_face_value`
  unfoldable pub initial_face_value : Payload → Answer (Option Decimal)
  unfolding first_face_value
  initial_face_value payload = do
    coupons ← table_rows payload (codes "coupons")
    found ← first_face_value coupons
    elim found [
      | some d ↦ ok (some d)
      | none ↦ table_rows payload (codes "amortizations") >>= λ rows. first_face_value rows
    ]

  -- The instrument's part of `map_refresh_result`.
  unfoldable pub map_instrument :
      Text → Row → Row → Row → Row → Option Decimal → Payload → Time → Answer MoexInstrumentData
  map_instrument isin search_row security_row market_row descriptions current_face bondization now =
      let at = λ (name : Text). field name security_row in
      let told = λ (name : Text). field name descriptions in
      let secid =
        shown_or_empty lib (or_value (field (codes "secid") search_row) (told (codes "SECID"))) in
      let named =
        or_value (field (codes "name") search_row)
          (or_value (at (codes "SECNAME")) (told (codes "NAME"))) in
      let bond_type =
        shown_or_empty lib (at (codes "BONDTYPE"))
        ++ codes " "
        ++ shown_or_empty lib (at (codes "BONDSUBTYPE")) in
      do
        initial ← initial_face_value bondization
        maturity_date ← moex_date lib (or_value (at (codes "MATDATE")) (told (codes "MATDATE")))
        offer_date ←
            first_date lib
              (at (codes "OFFERDATE") ∷ at (codes "PUTOPTIONDATE") ∷ at (codes "BUYBACKDATE") ∷ [])
        updated ← market_datetime lib moex (field (codes "SYSTIME") market_row)
        normalized ← moex_isin isin
        period ← moex_integer lib (at (codes "COUPONPERIOD"))
        coupon_value ← moex_decimal lib (at (codes "COUPONVALUE"))
        ok (record {
          isin = normalized;
          secid = secid;
          short_name = strip (
              shown lib (
                or_value (field (codes "shortname") search_row)
                  (or_value (at (codes "SHORTNAME")) (text secid))));
          full_name = if truthy named then some (strip (shown lib named)) else none;
          primary_board_id =
              optional_string lib
                (or_value (field (codes "primary_boardid") search_row) (at (codes "BOARDID")));
          currency = currency_of lib (or_value (at (codes "FACEUNIT")) (told (codes "FACEUNIT")));
          initial_face_value = or_amount initial current_face;
          current_face_value = current_face;
          maturity_date = maturity_date;
          offer_date = offer_date;
          coupon_period_days = period;
          coupon_value = coupon_value;
          is_amortizing = contains (codes "Амортиз") bond_type;
          is_floating_coupon = contains (codes "Флоатер") bond_type;
          is_active = equals_one (field (codes "is_traded") search_row);
          source_updated_at = elim updated [ some t ↦ t | none ↦ now ];
        })

  -- The market's part.
  unfoldable pub map_market :
      Row → Row → Row → Option Decimal → Payload → Time → Answer MoexMarketData
  map_market search_row security_row market_row current_face payload now = do
    bid ← moex_decimal lib (field (codes "BID") market_row)
    bid_rub ← quote_in_rubles bid current_face
    offered ← moex_decimal lib (field (codes "OFFER") market_row)
    offer_rub ← quote_in_rubles offered current_face
    timestamp ← market_datetime lib moex (field (codes "SYSTIME") market_row)
    bid_depth ← moex_decimal lib (field (codes "BIDDEPTH") market_row)
    offer_depth ← moex_decimal lib (field (codes "OFFERDEPTH") market_row)
    lot_size ← moex_decimal lib (field (codes "LOTSIZE") security_row)
    accrued ← moex_decimal lib (field (codes "ACCRUEDINT") security_row)
    last ← moex_decimal lib (field (codes "LAST") market_row)
    ok (record {
      board_id = optional_string lib (
          or_value (field (codes "BOARDID") security_row)
            (field (codes "primary_boardid") search_row));
      received_at = now;
      market_timestamp = timestamp;
      bid_percent = bid;
      bid_rub_per_bond = bid_rub;
      bid_depth_lots = bid_depth;
      offer_percent = offered;
      offer_rub_per_bond = offer_rub;
      offer_depth_lots = offer_depth;
      lot_size = elim (or_amount lot_size none) [ some d ↦ d | none ↦ of_int (pos 1) ];
      current_face_value = current_face;
      accrued_interest_rub_per_bond = accrued;
      last_price_percent = last;
      status = market_status bid security_row market_row;
      delayed_status = codes "unknown";
      raw_payload = moex.payload_text payload;
    })

  -- The face value: the market's, or the description's.
  unfoldable pub current_face_value : Row → Row → Answer (Option Decimal)
  current_face_value security_row descriptions =
      moex_decimal lib (field (codes "FACEVALUE") security_row) >>= λ (found : Option Decimal).
      elim found [
        | some d ↦ ok (some d)
        | none ↦ moex_decimal lib (field (codes "FACEVALUE") descriptions)
      ]

  -- `map_refresh_result`, the payloads in the order of its parameters
  unfoldable pub map_refresh_result :
      Text → Payload → Payload → Payload → Payload → Time → Answer MoexRefreshResult
  map_refresh_result isin listed specification market bondization now = do
    search_row ← find_exact_security listed isin
    security ← first_row market (codes "securities")
    quotes ← first_row market (codes "marketdata")
    descriptions ← description_values specification
    actions ← map_actions bondization
    let secid = or_value (field (codes "secid") search_row) (field (codes "SECID") descriptions)
    raise_if (not (nonempty (shown_or_empty lib secid))) moex_data
    face ← current_face_value (row_or_empty security) descriptions
    instrument ←
        map_instrument isin search_row (row_or_empty security) (row_or_empty quotes) descriptions
          face bondization now
    priced ← map_market search_row (row_or_empty security) (row_or_empty quotes) face market now
    ok (record { instrument = instrument; actions = actions; market = priced })

-- Names what a mapping computes with, for the tests' `unfolding` lines.
unfoldable pub moex_runs : Unit {0}
unfolding zip_cells field rows_of table_of table_rows first_row or_value or_amount equals_one
    contains truncated moex_decimal moex_integer is_no_date moex_date first_date market_datetime
    currency_of optional_string moex_isin row_or_empty first_match quote_in_rubles market_status
    find_exact_security action_of actions_from map_actions described description_values
    first_face_value initial_face_value map_instrument map_market current_face_value
    map_refresh_result action_rank
moex_runs = tt
