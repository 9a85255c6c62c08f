-- ===== src/Isin/Laws.antt =====
-- What `normalize_isin` accepts and returns.
use bond_trading.Prelude.{ℕ, ◌≡◌, refl, Bool, true, false, ◌&&◌, List, [], ◌∷◌, all, length, arith}
use bond_trading.Prelude.Texts.{Text, strip, upper, is_upper_or_digit, is_upper, is_digit}
use bond_trading.Prelude.Texts.Stripped.{strip_same, upper_same}
use bond_trading.Prelude.Results.{ok, err}
use bond_trading.Errors.{invalid_isin}
use bond_trading.Isin.{full_match, isin_pattern, valid_check_digit, validate_isin, normalize_isin}

abbrev pub is_isin : Text → Bool
is_isin value = full_match isin_pattern value && valid_check_digit value

validate_isin_cases : (value : Text) → is_isin value ≡ true → validate_isin true value ≡ ok tt
unfolding validate_isin
validate_isin_cases value h = ground arith

-- Each class of a pattern lies in the class of letters and digits.
abbrev IsAlphanumeric : List (ℕ → Bool) → Type 0
IsAlphanumeric [] = Unit {0}
IsAlphanumeric (p ∷ ps) = ((c : ℕ) → p c ≡ true → is_upper_or_digit c ≡ true) × IsAlphanumeric ps

full_match-all :
    (ps : List (ℕ → Bool)) (cs : Text)
    → IsAlphanumeric ps
    → full_match ps cs ≡ true
    → all is_upper_or_digit cs ≡ true
unfolding full_match
full_match-all [] [] k h = refl
full_match-all [] (c ∷ cs) k h = absurd (cc)
full_match-all (p ∷ ps) [] k h = absurd (cc)
full_match-all (p ∷ ps) (c ∷ cs) k h = ground (arith, k.0 c, full_match-all ps cs k.1)

full_match-length :
    (ps : List (ℕ → Bool)) (cs : Text) → full_match ps cs ≡ true → length cs ≡ length ps
unfolding full_match
full_match-length [] [] h = refl
full_match-length [] (c ∷ cs) h = absurd (cc)
full_match-length (p ∷ ps) [] h = absurd (cc)
full_match-length (p ∷ ps) (c ∷ cs) h = ground (arith, full_match-length ps cs)

letter : (c : ℕ) → is_upper c ≡ true → is_upper_or_digit c ≡ true
letter c h = ground arith

digit : (c : ℕ) → is_digit c ≡ true → is_upper_or_digit c ≡ true
digit c h = ground arith

either : (c : ℕ) → is_upper_or_digit c ≡ true → is_upper_or_digit c ≡ true
either c h = h

isin-all : (cs : Text) → full_match isin_pattern cs ≡ true → all is_upper_or_digit cs ≡ true
isin-all cs h =
    full_match-all isin_pattern cs
      (
        letter,
        (
          letter,
          (
            either,
            (
              either,
              (either, (either, (either, (either, (either, (either, (either, (digit, tt)))))))),
            ),
          ),
        ),
      )
      h

-- What `normalize_isin` returns has twelve characters, matches the pattern and has a valid check
-- digit; and it is returned unchanged when it is normalized again.
pub normalize_isin-valid :
    (value isin : Text)
    → normalize_isin value ≡ ok isin
    → (length isin ≡ 12) × (is_isin isin ≡ true) × (normalize_isin isin ≡ ok isin)
unfolding normalize_isin validate_isin
normalize_isin-valid value isin h =
    let found : is_isin (upper (strip value)) ≡ true = ground arith in
    let same : upper (strip value) ≡ isin = ground arith in
    let valid : is_isin isin ≡ true = rw (← same) found in
    let chars = isin-all isin (ground arith) in
    (
      full_match-length isin_pattern isin (ground arith),
      valid,
      rw (strip_same isin chars) (rw (upper_same isin chars) (rw (validate_isin_cases isin valid))),
    )

-- A text of which the stripped upper case is no ISIN is refused.
pub normalize_isin-invalid :
    (value : Text) → is_isin (upper (strip value)) ≡ false → normalize_isin value ≡ err invalid_isin
unfolding normalize_isin validate_isin
normalize_isin-invalid value h = ground arith

-- The stripped upper case of a text is what `normalize_isin` returns for it.
pub normalize_isin_ok :
    (value : Text)
    → is_isin (upper (strip value)) ≡ true
    → normalize_isin value ≡ ok (upper (strip value))
unfolding normalize_isin
normalize_isin_ok value h = rw (validate_isin_cases _ h)
