-- ===== src/Spreadsheets/Samples.antt =====
-- A sheet with a title above its header, a row that is fit for a lot, one with a wrong check digit
-- and an empty one.
use bond_trading.Prelude.{suc, ◌≡◌, refl, List, [], ◌∷◌, none, some, All, length}
use bond_trading.Prelude.Texts.{Text, codes, strip, upper, upper_char}
use bond_trading.Prelude.Results.{ok}
use bond_trading.Isin.{isin_runs}
use bond_trading.Values.{Value, absent, text, day, values_runs}
use bond_trading.Values.Concrete.{concrete_python, read_whole, read_day}
use bond_trading.Spreadsheets.Preview.{IsAccepted, IsReported, preview-IsAccepted}
use bond_trading.Spreadsheets.Uploads.{
  RawSheet, SpreadsheetPackages, ImportPreview, preview, preview_runs,
}

abbrev plain : List Value → List (Value × Text)
plain [] = []
plain (v ∷ values) = (v, []) ∷ plain values

abbrev row_of : Text → List (Value × Text)
row_of isin = plain (
    text isin
    ∷ absent
    ∷ text (codes "Bond")
    ∷ text (codes " offer ")
    ∷ text (codes "2026-01-15")
    ∷ absent
    ∷ day 739996
    ∷ text (codes "10")
    ∷ text (codes "95 0")
    ∷ text (codes "5")
    ∷ absent
    ∷ text (codes "0")
    ∷ [])

abbrev sheet : RawSheet Text
sheet = record {
  title = codes "Bonds";
  rows =
      plain (text (codes "2026") ∷ [])
      ∷ plain (text (codes " isin ") ∷ [])
      ∷ row_of (codes "ru000a0jx0j2")
      ∷ row_of (codes "RU000A0JX0J3")
      ∷ plain (text (codes " ") ∷ [])
      ∷ [];
}

abbrev packages : SpreadsheetPackages
packages = record {
  open_ooxml = λ content keep_vba. some (sheet ∷ []);
  open_calamine = λ content. none;
  open_numbers = λ content. none;
  suffix = λ file_name. codes ".xlsx";
  name = λ file_name. file_name;
  sha256 = λ content. codes "5f";
}

previewed :
    (p : ImportPreview) × (preview concrete_python packages [] (codes "bonds.xlsx") (codes "Bonds")
      ≡ ok p)
unfolding preview_runs values_runs read_whole read_day isin_runs strip upper upper_char
previewed = (_, refl)

one_of_two :
    (previewed.0.rows_read ≡ 2)
    × (length previewed.0.rows ≡ 1)
    × (length previewed.0.errors ≡ 1)
    × (previewed.0.header_row_number ≡ 2)
unfolding previewed
one_of_two = (refl, refl, refl, refl)

preview-IsAccepted_example :
    All IsAccepted previewed.0.rows
    × IsReported (suc previewed.0.header_row_number) (record {
      rows_read = previewed.0.rows_read;
      rows = previewed.0.rows;
      errors = previewed.0.errors;
    })
preview-IsAccepted_example =
    preview-IsAccepted concrete_python packages [] (codes "bonds.xlsx") (codes "Bonds") previewed.0
      previewed.1
