-- ===== src/Isin/Samples.antt =====
-- RU000A0JX0J2 as a user types it, and with a wrong check digit.
use bond_trading.Prelude.{◌≡◌, ◌≢◌, ◌%◌, refl, true, false, length, [], ◌∷◌, arith}
use bond_trading.Prelude.Texts.{codes, strip, upper, upper_char}
use bond_trading.Prelude.Results.{ok, err}
use bond_trading.Errors.{invalid_isin}
use bond_trading.Isin.{normalize_isin, luhn_total, doubled, isin_runs}
use bond_trading.Isin.Luhn.{luhn_detects_digit}
use bond_trading.Isin.Laws.{is_isin, normalize_isin-valid}

typed : normalize_isin (codes " ru000a0jx0j2 ") ≡ ok (codes "RU000A0JX0J2")
unfolding isin_runs strip upper upper_char
typed = refl

wrong_digit : normalize_isin (codes "RU000A0JX0J3") ≡ err invalid_isin
unfolding isin_runs strip upper upper_char
wrong_digit = refl

normalize_isin-valid_example :
    (length (codes "RU000A0JX0J2") ≡ 12)
    × (is_isin (codes "RU000A0JX0J2") ≡ true)
    × (normalize_isin (codes "RU000A0JX0J2") ≡ ok (codes "RU000A0JX0J2"))
normalize_isin-valid_example =
    normalize_isin-valid (codes " ru000a0jx0j2 ") (codes "RU000A0JX0J2") typed

-- 1 + 8 + 1 is a total of ten; a 5 for the 4 in the middle is noticed.
luhn_detects_digit_example : luhn_total false 0 (1 ∷ 5 ∷ 1 ∷ []) % 10 ≢ 0
unfolding luhn_total doubled
luhn_detects_digit_example =
    luhn_detects_digit (1 ∷ []) (1 ∷ []) 4 5 (omega arith) (omega arith) (omega arith) refl
