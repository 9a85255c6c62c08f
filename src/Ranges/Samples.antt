-- ===== src/Ranges/Samples.antt =====
-- Columns and names as the settings page takes them.
use bond_trading.Prelude.{◌≡◌, refl, true, some, ◌∷◌, ◌++◌}
use bond_trading.Prelude.Texts.{Text, codes, upper_char}
use bond_trading.Prelude.Results.{ok, err}
use bond_trading.Ranges.{
  normalize_column, extract_spreadsheet_id, quote_worksheet, ranges_runs, invalid_column,
}
use bond_trading.Ranges.RoundTrip.{quote_worksheet-readable, read_quoted}

-- A link is cut down to the id in it.
link_id :
    extract_spreadsheet_id (codes "https://docs.google.com/spreadsheets/d/abcdefghij_K/edit#gid=0")
    ≡ ok (codes "abcdefghij_K")
unfolding ranges_runs
link_id = refl

beyond_last : normalize_column true (some (codes "XFE")) ≡ err invalid_column
unfolding ranges_runs upper_char
beyond_last = refl

lower_case : normalize_column true (some (codes " ad ")) ≡ ok (some (codes "AD"))
unfolding ranges_runs upper_char
lower_case = refl

quote_worksheet-readable_example :
    (rest : Text) × (quote_worksheet (codes "it's") ++ codes "!A1" ≡ 39 ∷ rest)
    × (read_quoted rest ≡ some (codes "it's", codes "!A1"))
quote_worksheet-readable_example = quote_worksheet-readable (codes "it's") (codes "A1") b'!' refl
