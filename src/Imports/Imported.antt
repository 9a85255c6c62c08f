-- ===== src/Imports/Imported.antt =====
-- The lots that the loop of `commit` adds for the rows of a preview.
use bond_trading.Prelude.{
  ℕ, Bool, true, ◌&&◌, ◌≡◌, refl, subst, ◌∙◌, ap, sym, inl, inr, List, [], ◌∷◌, ◌++◌, none, some,
  find, update_where, ◌==◌, Bool-cases, Option-cases,
}
use mathlib.Core.List.{append_assoc, append-nil}
use bond_trading.Prelude.Rows.{In, In-append, find-In}
use bond_trading.Prelude.Texts.{Text, text_eq, text_eq_sound, codes, nonempty}
use bond_trading.Decimal.{Decimal}
use bond_trading.Database.{Uuid, Time, BondInstrumentModel, BondLotModel, Numerics, stored_lot}
use bond_trading.Lots.{Portfolio, new_instrument}
use bond_trading.Lots.Creation.{In-snoc}
use bond_trading.Spreadsheets.Reader.{ImportRow}
use bond_trading.Imports.{
  Progress, named, is_named, place_instrument, imported_lot, add_imported, import_rows,
}

-- The tables have an instrument with the id and the ISIN.
abbrev pub HasInstrument : Text → Uuid → Portfolio → Type 0
HasInstrument isin id db =
    (i : BondInstrumentModel) × In i db.instruments × (i.id ≡ id) × (i.isin ≡ isin)

rename : Uuid → Text → List BondInstrumentModel → List BondInstrumentModel
rename id name is =
    update_where (λ (j : BondInstrumentModel). j.id == id) (λ j. record j { short_name = name }) is

-- A new name leaves an instrument its id and its ISIN.
renamed_In :
    (id : Uuid) (name : Text) (i : BondInstrumentModel) (is : List BondInstrumentModel)
    → In i is
    → (j : BondInstrumentModel) × In j (rename id name is) × (j.id ≡ i.id) × (j.isin ≡ i.isin)
unfolding rename
renamed_In id name i [] m = absurd m
renamed_In id name i (x ∷ is) (inl e) = elim (Bool-cases (x.id == id)) [
  | inl hit ↦ rw hit (record x { short_name = name }, inl refl, rw e refl, rw e refl)
  | inr miss ↦ rw miss (x, inl refl, rw e refl, rw e refl)
]
renamed_In id name i (x ∷ is) (inr m) =
    let (j, n, p, q) = renamed_In id name i is m in (j, inr n, p, q)

-- Every instrument is still there, under its id and its ISIN.
abbrev pub IsKept : Portfolio → Portfolio → Type 0
IsKept db after = (isin : Text) (id : Uuid) → HasInstrument isin id db → HasInstrument isin id after

-- An instrument for a row, in tables with the same lots.
abbrev IsPlaced : Text → Portfolio → Uuid × Progress → Type 0
IsPlaced isin db r =
    (r.1.0.lots ≡ db.lots)
    × (r.1.0.numerics ≡ db.numerics)
    × HasInstrument isin r.0 r.1.0
    × IsKept db r.1.0

place_instrument-IsPlaced :
    (row : ImportRow) (now : Time) (db : Portfolio) (updated : ℕ)
    → IsPlaced row.normalized_isin db (place_instrument row now (db, updated))
unfolding place_instrument rename
place_instrument-IsPlaced row now db updated =
    let same : BondInstrumentModel → Bool = λ i. text_eq i.isin row.normalized_isin in
    elim (Option-cases (find same db.instruments)) [
      | inl e ↦
          rw (e, place_instrument)
            (
              refl,
              refl,
              (
                new_instrument db.next_id row.normalized_isin row.source_name now,
                In-snoc _ db.instruments,
                refl,
                refl,
              ),
              λ isin id (i, m, p, q). (i, In-append i _ _ m, p, q),
            )
      | inr (i, e) ↦
          let (m, q) = find-In same db.instruments {a = i} e in
          let q' = text_eq_sound i.isin row.normalized_isin q in
          elim (Bool-cases (is_named row.source_name && text_eq i.short_name i.isin)) [
            | inl hit ↦
                let (j, n, p, r) = renamed_In i.id (named row.source_name) i db.instruments m in
                rw (e, place_instrument, hit)
                  (
                    refl,
                    refl,
                    (j, n, p, r ∙ q'),
                    λ isin id (k, o, u, v).
                        let (l, w, y, z) =
                          renamed_In i.id (named row.source_name) k db.instruments o in
                        (l, w, y ∙ u, z ∙ v),
                  )
            | inr miss ↦
                rw (e, place_instrument, miss)
                  (refl, refl, (i, m, refl, q'), λ isin id known. known)
          ]
    ]

-- The lot's fields are the row's, numbers as their columns keep them; a redemption price is dated and
-- has the fixed reason.
pub record HasRow (q : Numerics) (row : ImportRow) (sheet_name : Text) (now : Time)
    (l : BondLotModel) : Type 0 where
  pub purchase_date : l.purchase_date ≡ row.purchase_date
  pub quantity : l.quantity ≡ q 8 row.quantity
  pub clean_price : l.purchase_clean_price_rub_per_bond ≡ q 8 row.purchase_clean_price_rub_per_bond
  pub accrued :
      l.purchase_accrued_interest_rub_per_bond ≡ q 8 row.purchase_accrued_interest_rub_per_bond
  pub commission : l.purchase_commission_rub_per_bond ≡ q 8 row.purchase_commission_rub_per_bond
  pub event_type : l.target_event_type ≡ row.target_event_type
  pub event_date : l.target_event_date ≡ row.target_event_date
  pub unpriced :
      row.target_redemption_price_rub_per_bond ≡ none
      → (l.target_redemption_price_rub_per_bond ≡ none)
        × (l.target_redemption_override_reason ≡ none)
        × (l.target_redemption_override_updated_at ≡ none)
  pub priced :
      (price : Decimal)
      → row.target_redemption_price_rub_per_bond ≡ some price
      → (l.target_redemption_price_rub_per_bond ≡ some (q 8 price))
        × (l.target_redemption_override_reason ≡ some (codes "Imported from source column N"))
        × (l.target_redemption_override_updated_at ≡ some now)
  pub sale_commission : l.sale_commission_rub_per_bond ≡ q 8 row.sale_commission_rub_per_bond
  pub unreferenced :
      row.planned_yield_manual_reference ≡ none → l.planned_yield_manual_reference ≡ none
  pub referenced :
      (reference : Decimal)
      → row.planned_yield_manual_reference ≡ some reference
      → l.planned_yield_manual_reference ≡ some (q 10 reference)
  pub row_number : l.source_row_number ≡ some row.row_number
  pub sheet : l.source_sheet_name ≡ sheet_name
  pub unnoted : row.offer_submission_period ≡ none → l.notes ≡ none
  pub noted :
      (period : Text)
      → row.offer_submission_period ≡ some period
      → nonempty period ≡ true
      → l.notes ≡ some (codes "Offer submission period: " ++ period)

imported_lot-HasRow :
    (q : Numerics) (owner id instrument batch : Uuid) (sheet_name : Text) (now : Time)
    (row : ImportRow)
    → HasRow q row sheet_name now
        (stored_lot q (imported_lot owner id instrument batch sheet_name now row))
unfolding stored_lot
imported_lot-HasRow q owner id instrument batch sheet_name now row = record {
  purchase_date = refl;
  quantity = refl;
  clean_price = refl;
  accrued = refl;
  commission = refl;
  event_type = refl;
  event_date = refl;
  unpriced = λ e. rw e (refl, refl, refl);
  priced = λ price e. rw e (refl, refl, refl);
  sale_commission = refl;
  unreferenced = λ e. rw e refl;
  referenced = λ reference e. rw e refl;
  row_number = refl;
  sheet = refl;
  unnoted = λ e. rw e refl;
  noted = λ period e n. rw (e, n) refl;
}

module _ (owner batch : Uuid) (sheet_name : Text) (now : Time) (q : Numerics) where
  -- A lot for each row, in their order: it is the owner's and the batch's, its fields are the row's,
  -- and its instrument has the row's ISIN.
  abbrev pub Imported : Portfolio → List ImportRow → List BondLotModel → Type 0
  Imported db [] [] = Unit {0}
  Imported db [] (l ∷ lots) = ⊥
  Imported db (row ∷ rows) [] = ⊥
  Imported db (row ∷ rows) (l ∷ lots) =
      (l.owner_id ≡ owner)
      × (l.import_batch_id ≡ some batch)
      × HasRow q row sheet_name now l
      × HasInstrument row.normalized_isin l.instrument_id db
      × Imported db rows lots

  -- The rows were added to the lots that were there.
  abbrev pub IsImported : List ImportRow → Portfolio → Portfolio → Type 0
  IsImported rows db after =
      (lots : List BondLotModel) × (after.lots ≡ db.lots ++ lots) × Imported after rows lots

  pub import_rows-IsImported :
      (rows : List ImportRow) (db : Portfolio) (updated : ℕ)
      → db.numerics ≡ q
      → IsImported rows db (import_rows owner batch sheet_name now rows (db, updated)).0
        × IsKept db (import_rows owner batch sheet_name now rows (db, updated)).0
  unfolding import_rows add_imported stored_lot
  import_rows-IsImported [] db updated e =
      (([], sym (append-nil db.lots), tt), λ isin id known. known)
  import_rows-IsImported (row ∷ rows) db updated e =
      let placed = place_instrument row now (db, updated) in
      let (same, numerics, known, kept) = place_instrument-IsPlaced row now db updated in
      let made = imported_lot owner placed.1.0.next_id placed.0 batch sheet_name now row in
      let l = stored_lot placed.1.0.numerics made in
      let middle = add_imported owner batch sheet_name now row placed in
      let ((lots, grown, fit), rest) =
        import_rows-IsImported rows middle.0 middle.1 (numerics ∙ e) in
      let fields =
        subst (λ n. HasRow n row sheet_name now l) (numerics ∙ e)
          (imported_lot-HasRow placed.1.0.numerics owner placed.1.0.next_id placed.0 batch
            sheet_name now row) in
      (
        (
          l ∷ lots,
          grown ∙ append_assoc placed.1.0.lots (l ∷ []) lots ∙ ap (λ xs. xs ++ l ∷ lots) same,
          (refl, refl, fields, rest _ _ known, fit),
        ),
        λ isin id found. rest isin id (kept isin id found),
      )
