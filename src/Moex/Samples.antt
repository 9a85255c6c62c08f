-- ===== src/Moex/Samples.antt =====
-- Payloads of a bond with two coupons, given in the wrong order, and a best offer of 95 percent.
use bond_trading.Prelude.{◌≡◌, refl, [], ◌∷◌, none, some, if◌then◌else◌}
use bond_trading.Prelude.Int.{pos}
use bond_trading.Prelude.Texts.{Text, codes, strip, upper, upper_char, text_eq}
use bond_trading.Prelude.Results.{ok}
use bond_trading.Decimal.{of_int, runs}
use bond_trading.Calculations.Engine.{engine_runs}
use bond_trading.Isin.{isin_runs}
use bond_trading.Values.{text, number, values_runs}
use bond_trading.Values.Concrete.{concrete_python, read_whole, read_day}
use bond_trading.Moex.{Block, no_block, table, cells, Payload, MoexRefreshResult}
use bond_trading.Moex.Fields.{MoexLibrary}
use bond_trading.Moex.Mapper.{map_refresh_result, moex_runs}
use bond_trading.Moex.Mapped.{IsMapped, map_refresh_result-IsMapped}

abbrev hashes : MoexLibrary
hashes = record {
  moment_of = λ s. none;
  row_hash = λ row. codes "a1";
  payload_text = λ payload. codes "{}";
}

abbrev nothing : Payload
nothing block = no_block

unfoldable only : Text → Block → Payload
only name found block = if text_eq block name then found else no_block

abbrev listed : Payload
listed = only (codes "securities") (
    table (some (text (codes "isin") ∷ text (codes "secid") ∷ text (codes "is_traded") ∷ [])) (
      some (
        cells (
          text (codes "RU000A0JX0J2")
          ∷ text (codes "RU000A0JX0J2")
          ∷ number (of_int (pos 1)) (codes "1")
          ∷ [])
        ∷ [])))

abbrev quoted : Payload
quoted block =
    if text_eq block (codes "securities")
    then table (some (text (codes "FACEVALUE") ∷ [])) (some (cells (text (codes "1000") ∷ []) ∷ []))
    else if text_eq block (codes "marketdata")
    then table (some (text (codes "OFFER") ∷ [])) (some (cells (text (codes "95") ∷ []) ∷ []))
    else no_block

abbrev coupons : Payload
coupons = only (codes "coupons") (
    table (some (text (codes "coupondate") ∷ text (codes "value") ∷ [])) (
      some (
        cells (text (codes "2027-01-15") ∷ text (codes "40") ∷ [])
        ∷ cells (text (codes "2026-01-15") ∷ text (codes "40") ∷ [])
        ∷ [])))

mapped :
    (r : MoexRefreshResult) × (map_refresh_result concrete_python hashes
        (codes "RU000A0JX0J2")
        listed
        nothing
        quoted
        coupons
        9
      ≡ ok r)
unfolding moex_runs values_runs read_whole read_day isin_runs engine_runs runs strip upper
    upper_char only
mapped = (_, refl)

offer_price : mapped.0.market.offer_percent ≡ some (of_int (pos 95))
unfolding mapped
offer_price = refl

map_refresh_result-IsMapped_example :
    IsMapped concrete_python hashes (codes "RU000A0JX0J2") mapped.0
map_refresh_result-IsMapped_example =
    map_refresh_result-IsMapped concrete_python hashes (codes "RU000A0JX0J2") listed nothing quoted
      coupons 9 mapped.0 mapped.1
