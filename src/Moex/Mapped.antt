-- ===== src/Moex/Mapped.antt =====
-- What `map_refresh_result` guarantees of its result.
use bond_trading.Prelude.{
  ◌≤◌, true, false, not, ◌||◌, ◌≡◌, refl, subst, ◌∙◌, ap, inl, inr, List, [], ◌∷◌, ◌++◌, Option,
  none, some, sort, insert, Bool-cases, All, arith, some_injective,
}
use bond_trading.Prelude.Texts.{Text, codes, nonempty}
use bond_trading.Prelude.Results.{
  ok, >>=-eq-ok, >>-eq-ok, raise_if, raise_if-eq-ok, ok_injective, Result-cases,
}
use bond_trading.Decimal.{Decimal, lt_zero, div}
use bond_trading.Decimal.Signs.{IsNonneg, mul-IsNonneg, lt_zero-false}
use bond_trading.Decimal.Division.{div-SameSign}
use bond_trading.Calculations.Models.{percent_of_face}
use bond_trading.Calculations.Engine.{bid_to_rubles, quote_rubles, hundred}
use bond_trading.Database.{Time}
use bond_trading.Isin.{normalize_isin}
use bond_trading.Isin.Laws.{is_isin, normalize_isin-valid}
use bond_trading.Values.{PythonLibrary, shown_or_empty}
use bond_trading.Moex.{
  moex_data, MoexInstrumentData, MoexCorporateActionData, MoexMarketData, MoexRefreshResult,
  Payload, Row, field, table_rows, first_row,
}
use bond_trading.Moex.Fields.{
  MoexLibrary, or_value, moex_decimal, moex_integer, moex_date, first_date, market_datetime,
}
use bond_trading.Moex.Mapper.{
  moex_isin, row_or_empty, quote_in_rubles, action_not_after, find_exact_security, actions_from,
  map_actions, description_values, initial_face_value, map_instrument, map_market,
  current_face_value, map_refresh_result,
}

-- Actions in the order of their dates.
abbrev pub IsOrdered : List MoexCorporateActionData → Type 0
IsOrdered [] = Unit {0}
IsOrdered (a ∷ actions) =
    All (λ (b : MoexCorporateActionData). a.event_date ≤ b.event_date) actions × IsOrdered actions

abbrev pub IsNonnegIfGiven : Option Decimal → Type 0
IsNonnegIfGiven none = Unit {0}
IsNonnegIfGiven (some d) = IsNonneg d

All-insert :
    (P : MoexCorporateActionData → Type 0) (a : MoexCorporateActionData)
    (actions : List MoexCorporateActionData)
    → P a
    → All P actions
    → All P (insert action_not_after a actions)
All-insert P a [] p all = (p, tt)
All-insert P a (b ∷ actions) p all = elim (Bool-cases (action_not_after a b)) [
  | inl before ↦ rw before (p, all)
  | inr after ↦ rw after (all.0, All-insert P a actions p all.1)
]

All-later :
    (a b : MoexCorporateActionData) (actions : List MoexCorporateActionData)
    → a.event_date ≤ b.event_date
    → All (λ (c : MoexCorporateActionData). b.event_date ≤ c.event_date) actions
    → All (λ (c : MoexCorporateActionData). a.event_date ≤ c.event_date) actions
All-later a b [] h all = tt
All-later a b (c ∷ actions) h all = (omega (arith, all.0), All-later a b actions h all.1)

insert-IsOrdered :
    (a : MoexCorporateActionData) (actions : List MoexCorporateActionData)
    → IsOrdered actions
    → IsOrdered (insert action_not_after a actions)
insert-IsOrdered a [] h = (tt, tt)
insert-IsOrdered a (b ∷ actions) h = elim (Bool-cases (action_not_after a b)) [
  | inl before ↦
      let le : a.event_date ≤ b.event_date = ground arith in
      rw before ((le, All-later a b actions le h.0), h)
  | inr after ↦
      let le : b.event_date ≤ a.event_date = ground arith in
      rw after (
        All-insert (λ (c : MoexCorporateActionData). b.event_date ≤ c.event_date) a actions le h.0,
        insert-IsOrdered a actions h.1,
      )
]

sort-IsOrdered :
    (actions : List MoexCorporateActionData) → IsOrdered (sort action_not_after actions)
sort-IsOrdered [] = tt
sort-IsOrdered (a ∷ actions) = insert-IsOrdered a _ (sort-IsOrdered actions)

bid_to_rubles-IsNonneg :
    (quote face price : Decimal)
    → bid_to_rubles quote face percent_of_face ≡ ok price
    → IsNonneg price
unfolding bid_to_rubles quote_rubles
bid_to_rubles-IsNonneg quote face price h =
    let (checked, h₁) = >>-eq-ok (raise_if (lt_zero quote || lt_zero face) _) _ h in
    let fine : (lt_zero quote || lt_zero face) ≡ false = raise_if-eq-ok _ _ checked in
    let part : IsNonneg (div quote hundred) =
      lt_zero-false (div quote hundred)
        ((div-SameSign quote hundred (omega arith)).0 ∙ ground arith) in
    subst IsNonneg (ok_injective h₁)
      (mul-IsNonneg (div quote hundred) face part (lt_zero-false face (ground arith)))

quote_in_rubles-IsNonneg :
    (quote face price : Option Decimal)
    → quote_in_rubles quote face ≡ ok price
    → IsNonnegIfGiven price
unfolding quote_in_rubles
quote_in_rubles-IsNonneg quote face none h = tt
quote_in_rubles-IsNonneg none face (some p) h = absurd (cc)
quote_in_rubles-IsNonneg (some quote) none (some p) h = absurd (cc)
quote_in_rubles-IsNonneg (some quote) (some face) (some p) h =
    elim (Result-cases (bid_to_rubles quote face percent_of_face)) [
      | inl (e, f) ↦ absurd (cc (rw (f, quote_in_rubles) at h))
      | inr (price, f) ↦
          let same : price ≡ p = some_injective (ok_injective (rw (f, quote_in_rubles) at h)) in
          subst IsNonneg same (bid_to_rubles-IsNonneg quote face price f)
    ]

module _ (lib : PythonLibrary) (moex : MoexLibrary) where
  map_actions-IsOrdered :
      (payload : Payload) (actions : List MoexCorporateActionData)
      → map_actions lib moex payload ≡ ok actions
      → IsOrdered actions
  unfolding map_actions
  map_actions-IsOrdered payload actions h =
      let (coupons, p1, h1) = >>=-eq-ok (table_rows payload (codes "coupons")) _ h in
      let (paid, p2, h2) =
        >>=-eq-ok (actions_from lib moex (codes "coupondate") _ _ coupons) _ h1 in
      let (amortizations, p3, h3) = >>=-eq-ok (table_rows payload (codes "amortizations")) _ h2 in
      let (repaid, p4, h4) =
        >>=-eq-ok (actions_from lib moex (codes "amortdate") _ _ amortizations) _ h3 in
      let (offers, p5, h5) = >>=-eq-ok (table_rows payload (codes "offers")) _ h4 in
      let (offered, p6, h6) =
        >>=-eq-ok (actions_from lib moex (codes "offerdate") _ _ offers) _ h5 in
      subst IsOrdered (ok_injective h6) (sort-IsOrdered (paid ++ (repaid ++ offered)))

  map_market-IsNonneg :
      (listed security quotes : Row) (face : Option Decimal) (payload : Payload) (now : Time)
      (m : MoexMarketData)
      → map_market lib moex listed security quotes face payload now ≡ ok m
      → IsNonnegIfGiven m.bid_rub_per_bond × IsNonnegIfGiven m.offer_rub_per_bond
  unfolding map_market
  map_market-IsNonneg listed security quotes face payload now m h =
      let at = λ (name : Text) (row : Row). moex_decimal lib (field name row) in
      let (bid, p1, h1) = >>=-eq-ok (at (codes "BID") quotes) _ h in
      let (bid_rub, p2, h2) = >>=-eq-ok (quote_in_rubles bid face) _ h1 in
      let (offered, p3, h3) = >>=-eq-ok (at (codes "OFFER") quotes) _ h2 in
      let (offer_rub, p4, h4) = >>=-eq-ok (quote_in_rubles offered face) _ h3 in
      let (stamp, p5, h5) =
        >>=-eq-ok (market_datetime lib moex (field (codes "SYSTIME") quotes)) _ h4 in
      let (a, p6, h6) = >>=-eq-ok (at (codes "BIDDEPTH") quotes) _ h5 in
      let (b, p7, h7) = >>=-eq-ok (at (codes "OFFERDEPTH") quotes) _ h6 in
      let (c, p8, h8) = >>=-eq-ok (at (codes "LOTSIZE") security) _ h7 in
      let (d, p9, h9) = >>=-eq-ok (at (codes "ACCRUEDINT") security) _ h8 in
      let (e, p10, h10) = >>=-eq-ok (at (codes "LAST") quotes) _ h9 in
      subst
        (λ (x : MoexMarketData).
          IsNonnegIfGiven x.bid_rub_per_bond × IsNonnegIfGiven x.offer_rub_per_bond)
        (ok_injective h10)
        (
          quote_in_rubles-IsNonneg bid face bid_rub p2,
          quote_in_rubles-IsNonneg offered face offer_rub p4,
        )

  moex_isin-valid :
      (isin n : Text) → moex_isin isin ≡ ok n → (normalize_isin isin ≡ ok n) × (is_isin n ≡ true)
  unfolding moex_isin
  moex_isin-valid isin n h = elim (Result-cases (normalize_isin isin)) [
    | inl (e, f) ↦ absurd (cc (rw (f, moex_isin) at h))
    | inr (found, f) ↦
        let same : found ≡ n = ok_injective (rw (f, moex_isin) at h) in
        subst (λ t. (normalize_isin isin ≡ ok t) × (is_isin t ≡ true)) same
          (f, (normalize_isin-valid isin found f).1)
  ]

  map_instrument-isin :
      (isin : Text) (listed security quotes told : Row) (face : Option Decimal)
      (bondization : Payload) (now : Time) (i : MoexInstrumentData)
      → map_instrument lib moex isin listed security quotes told face bondization now ≡ ok i
      → (normalize_isin isin ≡ ok i.isin)
        × (is_isin i.isin ≡ true)
        × (i.secid
            ≡ shown_or_empty lib
                (or_value (field (codes "secid") listed) (field (codes "SECID") told)))
  unfolding map_instrument
  map_instrument-isin isin listed security quotes told face bondization now i h =
      let at = λ (name : Text). field name security in
      let (a, p1, h1) = >>=-eq-ok (initial_face_value lib moex bondization) _ h in
      let (b, p2, h2) =
        >>=-eq-ok (moex_date lib (or_value (at (codes "MATDATE")) (field (codes "MATDATE") told))) _
          h1 in
      let (c, p3, h3) =
        >>=-eq-ok
          (first_date lib
            (at (codes "OFFERDATE") ∷ at (codes "PUTOPTIONDATE") ∷ at (codes "BUYBACKDATE") ∷ []))
          _ h2 in
      let (d, p4, h4) =
        >>=-eq-ok (market_datetime lib moex (field (codes "SYSTIME") quotes)) _ h3 in
      let (n, p5, h5) = >>=-eq-ok (moex_isin isin) _ h4 in
      let (e, p6, h6) = >>=-eq-ok (moex_integer lib (at (codes "COUPONPERIOD"))) _ h5 in
      let (f, p7, h7) = >>=-eq-ok (moex_decimal lib (at (codes "COUPONVALUE"))) _ h6 in
      let (same, valid) = moex_isin-valid isin n p5 in
      subst
        (λ (x : MoexInstrumentData).
          (normalize_isin isin ≡ ok x.isin)
          × (is_isin x.isin ≡ true)
          × (x.secid
              ≡ shown_or_empty lib
                  (or_value (field (codes "secid") listed) (field (codes "SECID") told))))
        (ok_injective h7) (same, valid, refl)

  -- What is known of a result.
  pub record IsMapped (isin : Text) (r : MoexRefreshResult) : Type 0 where
    pub requested : normalize_isin isin ≡ ok r.instrument.isin
    pub valid : is_isin r.instrument.isin ≡ true
    pub named : nonempty r.instrument.secid ≡ true
    pub ordered : IsOrdered r.actions
    pub bid : IsNonnegIfGiven r.market.bid_rub_per_bond
    pub offer : IsNonnegIfGiven r.market.offer_rub_per_bond

  -- Whatever the payloads hold, a result that is mapped is for the ISIN that was asked for, which is
  -- valid; it has a security id, its corporate actions are in the order of their dates, and its
  -- prices in rubles are not negative.
  pub map_refresh_result-IsMapped :
      (isin : Text) (listed specification market bondization : Payload) (now : Time)
      (r : MoexRefreshResult)
      → map_refresh_result lib moex isin listed specification market bondization now ≡ ok r
      → IsMapped isin r
  unfolding map_refresh_result
  map_refresh_result-IsMapped isin listed specification market bondization now r h =
      let (row, p1, h1) = >>=-eq-ok (find_exact_security lib moex listed isin) _ h in
      let (s, p2, h2) = >>=-eq-ok (first_row market (codes "securities")) _ h1 in
      let (q, p3, h3) = >>=-eq-ok (first_row market (codes "marketdata")) _ h2 in
      let (told, p4, h4) = >>=-eq-ok (description_values lib moex specification) _ h3 in
      let (actions, p5, h5) = >>=-eq-ok (map_actions lib moex bondization) _ h4 in
      let secid =
        shown_or_empty lib (or_value (field (codes "secid") row) (field (codes "SECID") told)) in
      let (p6, h6) = >>-eq-ok (raise_if (not (nonempty secid)) moex_data) _ h5 in
      let (face, p7, h7) = >>=-eq-ok (current_face_value lib moex (row_or_empty s) told) _ h6 in
      let (i, p8, h8) =
        >>=-eq-ok
          (map_instrument lib moex isin row (row_or_empty s) (row_or_empty q) told face bondization
            now)
          _ h7 in
      let (m, p9, h9) =
        >>=-eq-ok (map_market lib moex row (row_or_empty s) (row_or_empty q) face market now) _
          h8 in
      let (same, valid, e) =
        map_instrument-isin isin row (row_or_empty s) (row_or_empty q) told face bondization now i
          p8 in
      let quotes = map_market-IsNonneg row (row_or_empty s) (row_or_empty q) face market now m p9 in
      let named : nonempty secid ≡ true = ground (arith, raise_if-eq-ok _ _ p6) in
      subst (IsMapped isin) (ok_injective h9) (record {
        requested = same;
        valid = valid;
        named = ap nonempty e ∙ named;
        ordered = map_actions-IsOrdered bondization actions p5;
        bid = quotes.0;
        offer = quotes.1;
      })
