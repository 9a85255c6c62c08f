-- ===== src/Sync/Guarded.antt =====
-- All that a run of `execute` sends to the sheet.
use bond_trading.Prelude.{
  ◌≡◌, refl, subst, ◌⊎◌, inl, inr, true, false, List, [], ◌∷◌, ◌++◌, some, any, Bool-cases, arith,
}
use bond_trading.Prelude.Rows.{In, In-append, In-append_right, any-In-false, false-true}
use bond_trading.Prelude.Texts.{Text, codes, text_eq, text_eq_sound, text_eq_refl}
use bond_trading.Database.{SheetConnectionModel}
use bond_trading.Connections.{holds, reserved_columns, has_duplicates, present}
use bond_trading.Connections.Columns.{IsUsable}
use bond_trading.Values.{is_blank}
use bond_trading.Sync.{SheetDataRow, CellUpdate}
use bond_trading.Sync.Written.{calculation_columns}

differs : (a b : Text) → text_eq a b ≡ false → text_eq b a ≡ false
differs a b h = elim (Bool-cases (text_eq b a)) [
  | inr k ↦ k
  | inl k ↦
      let e = text_eq_sound b a k in
      absurd (false-true (subst (λ x. text_eq a x ≡ false) e h) (text_eq_refl a))
]

-- A column of a list differs from one that is not of the list.
not_held :
    (columns : List Text) (t u : Text)
    → holds columns t ≡ true
    → holds columns u ≡ false
    → text_eq t u ≡ false
not_held columns t u h k = elim (Bool-cases (text_eq t u)) [
  | inr e ↦ e
  | inl e ↦ absurd (false-true k (subst (λ x. holds columns x ≡ true) (text_eq_sound t u e) h))
]

-- What a user fills in: the ISIN, the date and the quantity, the price and the planned yield.
abbrev pub user_columns : SheetConnectionModel → List Text
user_columns c = c.isin_column ∷ codes "E" ∷ codes "H" ∷ codes "I" ∷ codes "V" ∷ []

-- The columns that no one but the connection uses.
abbrev result_columns : SheetConnectionModel → List Text
result_columns c = c.price_column ∷ (present c.updated_at_column ++ present c.status_column)

own_column-free :
    (c : SheetConnectionModel) (t : Text)
    → IsUsable c
    → In t (result_columns c)
    → (holds (user_columns c) t ≡ false)
      × (text_eq t (codes "J") ≡ false)
      × (text_eq t (codes "L") ≡ false)
unfolding has_duplicates
own_column-free c t usable m =
    let same : any (text_eq c.isin_column) (result_columns c) ≡ false =
      ground (arith, usable.distinct) in
    let free : any (holds reserved_columns) (result_columns c) ≡ false =
      ground (arith, usable.free) in
    let a =
      differs c.isin_column t (any-In-false (text_eq c.isin_column) t (result_columns c) same m) in
    let b = any-In-false (holds reserved_columns) t (result_columns c) free m in
    (ground (arith, a, b), ground (arith, b), ground (arith, b))

-- A column of the calculation, J and L are none of the user's; the last two are not of the
-- calculation.
pub reserved-free :
    (c : SheetConnectionModel) (columns : List Text) (t : Text)
    → IsUsable c
    → holds columns c.isin_column ≡ false
    → holds columns (codes "E") ≡ false
    → holds columns (codes "H") ≡ false
    → holds columns (codes "I") ≡ false
    → holds columns (codes "V") ≡ false
    → holds columns t ≡ true
    → holds (user_columns c) t ≡ false
reserved-free c columns t usable isin e h i v k =
    rw
      (
        not_held columns t _ k isin,
        not_held columns t _ k e,
        not_held columns t _ k h,
        not_held columns t _ k i,
        not_held columns t _ k v,
      )
      refl

-- An update that overwrites nothing that a user filled in: it is in none of the user's columns, and
-- where it is in J or in L, it is for a row that was read with nothing there.
abbrev pub IsHarmless : SheetConnectionModel → List SheetDataRow → CellUpdate → Type 0
IsHarmless c rows u =
    (holds (user_columns c) u.column ≡ false)
    × ((text_eq u.column (codes "J") ≡ false)
        ⊎ ((row : SheetDataRow) × In row rows
            × (u.row_number ≡ row.row_number)
            × (is_blank (row.values (codes "J")) ≡ true)))
    × ((text_eq u.column (codes "L") ≡ false)
        ⊎ ((row : SheetDataRow) × In row rows
            × (u.row_number ≡ row.row_number)
            × (is_blank (row.values (codes "L")) ≡ true)))

pub isin-free :
    (c : SheetConnectionModel)
    → IsUsable c
    → (holds calculation_columns c.isin_column ≡ false)
      × (text_eq c.isin_column (codes "J") ≡ false)
      × (text_eq c.isin_column (codes "L") ≡ false)
isin-free c usable =
    let free : holds reserved_columns c.isin_column ≡ false = ground (arith, usable.free) in
    (ground (arith, free), ground (arith, free), ground (arith, free))

pub calculation-IsHarmless :
    (c : SheetConnectionModel) (rows : List SheetDataRow) (u : CellUpdate)
    → IsUsable c
    → holds calculation_columns u.column ≡ true
    → IsHarmless c rows u
calculation-IsHarmless c rows u usable h = (
  reserved-free c calculation_columns u.column usable (isin-free c usable).0 refl refl refl refl h,
  inl (not_held calculation_columns u.column (codes "J") h refl),
  inl (not_held calculation_columns u.column (codes "L") h refl),
)

pub own-IsHarmless :
    (c : SheetConnectionModel) (rows : List SheetDataRow) (u : CellUpdate)
    → IsUsable c
    → In u.column (result_columns c)
    → IsHarmless c rows u
own-IsHarmless c rows u usable m =
    let (a, j, l) = own_column-free c u.column usable m in (a, inl j, inl l)

pub updated_In :
    (c : SheetConnectionModel) (t : Text) → c.updated_at_column ≡ some t → In t (result_columns c)
unfolding present
updated_In c t e = inr (In-append t (present c.updated_at_column) _ (rw e (inl refl)))

pub status_In :
    (c : SheetConnectionModel) (t : Text) → c.status_column ≡ some t → In t (result_columns c)
unfolding present
status_In c t e =
    inr
      (In-append_right t (present c.updated_at_column) (present c.status_column) (rw e (inl refl)))
