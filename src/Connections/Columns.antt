-- ===== src/Connections/Columns.antt =====
-- What a connection that was configured holds.
use bond_trading.Prelude.{
  ◌≡◌, refl, subst, inl, inr, Bool, true, false, not, ◌&&◌, List, [], ◌∷◌, ◌++◌, Option, none, some,
  find, any, all, ◌==◌, Option-cases, arith,
}
use bond_trading.Prelude.Texts.{Text, codes, text_eq, nonempty}
use bond_trading.Prelude.Results.{
  Result, ok, err, >>=-eq-ok, >>-eq-ok, raise_if, raise_if-eq-ok, ok_injective,
}
use bond_trading.Prelude.Rows.{find-snoc, find-none-any, find-update}
use bond_trading.Ranges.{RangeError, is_column, normalize_column, extract_spreadsheet_id}
use bond_trading.Ranges.RoundTrip.{normalize_column-valid}
use bond_trading.Database.{Uuid, Time, SheetConnectionModel}
use bond_trading.Jobs.{SheetTables, get_connection}
use bond_trading.Connections.{
  SheetSettings, from_range, holds, reserved_columns, has_duplicates, present, used_columns,
  required_column_of, normalize_settings, check_settings, store_settings, configure, new_connection,
  apply_settings,
}

-- The columns in the order of the form.
abbrev pub connection_columns : SheetConnectionModel → List Text
connection_columns c =
    c.isin_column ∷ c.price_column ∷ (present c.updated_at_column ++ present c.status_column)

-- The columns of a connection are columns of a sheet, differ from each other and are none of those
-- that the calculation reads or writes.
pub record IsUsable (c : SheetConnectionModel) : Type 0 where
  pub columns : all is_column (connection_columns c) ≡ true
  pub distinct : has_duplicates (connection_columns c) ≡ false
  pub free : any (holds reserved_columns) (connection_columns c) ≡ false
  pub worksheet : nonempty c.worksheet_name ≡ true

from_range-eq-ok : {A : Type 0} (m : Result RangeError A) (a : A) → from_range m ≡ ok a → m ≡ ok a
unfolding from_range
from_range-eq-ok (ok b) a h = cc
from_range-eq-ok (err e) a h = absurd (cc)

required-is_column :
    (value column : Text) → required_column_of value ≡ ok column → is_column column ≡ true
unfolding required_column_of normalize_column
required-is_column value column h = ground arith

optional-is_column :
    (value column : Option Text)
    → normalize_column false value ≡ ok column
    → all is_column (present column) ≡ true
unfolding present
optional-is_column value none h = refl
optional-is_column value (some column) h =
    let c = (normalize_column-valid false value column h).0 in ground arith

all-append :
    (p : Text → Bool) (xs ys : List Text)
    → all p xs ≡ true
    → all p ys ≡ true
    → all p (xs ++ ys) ≡ true
all-append p [] ys hx hy = hy
all-append p (x ∷ xs) ys hx hy = ground (arith, all-append p xs ys)

normalized-is_column :
    (v n : SheetSettings) → normalize_settings v ≡ ok n → all is_column (used_columns n) ≡ true
unfolding normalize_settings used_columns
normalized-is_column v n h =
    let (a, e₁, h₁) = >>=-eq-ok (from_range (extract_spreadsheet_id v.spreadsheet_id)) _ h in
    let (b, e₂, h₂) = >>=-eq-ok (from_range (required_column_of v.isin_column)) _ h₁ in
    let (c, e₃, h₃) = >>=-eq-ok (from_range (required_column_of v.price_column)) _ h₂ in
    let (d, e₄, h₄) = >>=-eq-ok (from_range (normalize_column false v.updated_at_column)) _ h₃ in
    let (e, e₅, h₅) = >>=-eq-ok (from_range (normalize_column false v.status_column)) _ h₄ in
    let p = required-is_column _ b (from_range-eq-ok _ _ e₂) in
    let q = required-is_column _ c (from_range-eq-ok _ _ e₃) in
    let r =
      all-append is_column (present d) (present e)
        (optional-is_column _ d (from_range-eq-ok _ _ e₄))
        (optional-is_column _ e (from_range-eq-ok _ _ e₅)) in
    subst
      (λ m.
        all is_column (
          m.isin_column ∷ m.price_column ∷ (present m.updated_at_column ++ present m.status_column))
        ≡ true)
      (ok_injective h₅) (rw (p, q) r)

checked-distinct :
    (n m : SheetSettings)
    → check_settings n ≡ ok m
    → (n ≡ m)
      × (nonempty n.worksheet_name ≡ true)
      × (has_duplicates (used_columns n) ≡ false)
      × (any (holds reserved_columns) (used_columns n) ≡ false)
unfolding check_settings
checked-distinct n m h =
    let (a, h₁) = >>-eq-ok (raise_if (not (nonempty n.worksheet_name)) _) _ h in
    let (b, h₂) = >>-eq-ok (raise_if (has_duplicates (used_columns n)) _) _ h₁ in
    let (c, h₃) = >>-eq-ok (raise_if (any (holds reserved_columns) (used_columns n)) _) _ h₂ in
    (
      ok_injective h₃,
      ground (arith, raise_if-eq-ok _ _ a),
      raise_if-eq-ok _ _ b,
      raise_if-eq-ok _ _ c,
    )

stored-settings :
    (owner : Uuid) (now : Time) (v : SheetSettings) (db : SheetTables)
    → (c : SheetConnectionModel) × (get_connection owner (store_settings owner now v db)
        ≡ some (apply_settings v c))
unfolding store_settings get_connection
stored-settings owner now v db =
    let p : SheetConnectionModel → Bool =
      λ c. c.owner_id == owner && text_eq c.provider (codes "google_sheets") in
    elim (Option-cases (find p db.connections)) [
      | inl e ↦
          let c = new_connection db.next_id owner now v in
          (
            c,
            rw (e, store_settings)
                (find-snoc p c db.connections (find-none-any p db.connections e) (ground arith)),
          )
      | inr (c, e) ↦ (
        c,
        rw (e, store_settings)
            (find-update p (λ x. x.id == c.id) (apply_settings v) db.connections (λ x. refl) e
              (ground arith)),
      )
    ]

-- After `configure` succeeds the owner has a connection, and its columns are columns of a sheet,
-- differ from each other, and are none of those that the calculation reads or writes; its worksheet
-- has a name.
pub configure-IsUsable :
    (owner : Uuid) (now : Time) (v : SheetSettings) (db after : SheetTables)
    → configure owner now v db ≡ ok after
    → (c : SheetConnectionModel) × (get_connection owner after ≡ some c) × IsUsable c
unfolding configure used_columns
configure-IsUsable owner now v db after h =
    let (n, e, h₁) = >>=-eq-ok (normalize_settings v) _ h in
    let (m, f, h₂) = >>=-eq-ok (check_settings n) _ h₁ in
    let (same, worksheet, distinct, free) = checked-distinct n m f in
    let (c, stored) = stored-settings owner now m db in
    (
      apply_settings m c,
      subst (λ t. get_connection owner t ≡ some (apply_settings m c)) (ok_injective h₂) stored,
      subst (λ s. IsUsable (apply_settings s c)) same
          (record {
            columns = normalized-is_column v n e;
            distinct = distinct;
            free = free;
            worksheet = worksheet;
          }),
    )
