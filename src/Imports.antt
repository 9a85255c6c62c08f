-- ===== src/Imports.antt =====
-- application/services/imports.py: the cache of previews and the commit of one.
--
-- An id that `uuid4` gives is an argument of `put`; in `commit` ids come from the counter of the
-- tables. The cache's clock is `time.monotonic` in ticks, with the time to live in ticks. The
-- dictionary of instruments by ISIN is the table itself, where an ISIN is unique. Parameters are
-- the JSON column's encoder of the row errors and `str` of an id.
pub mod Cached
pub mod Imported
pub mod Committed
mod Samples
use bond_trading.Prelude.{
  ℕ, ◌+◌, Bool, true, false, not, ◌&&◌, List, [], ◌∷◌, ◌++◌, Option, none, some, find, keep, length,
  update_where, any, all, is_some, ltb, leb, ◌==◌, if◌then◌else◌,
}
use bond_trading.Prelude.Texts.{Text, codes, text_eq, nonempty}
use bond_trading.Prelude.Results.{Result, ok, err}
use bond_trading.Decimal.{Decimal, le_zero}
use bond_trading.Database.{
  Uuid, Time, BondInstrumentModel, BondLotModel, ImportBatchModel, UploadedFileModel,
  import_committed, Numerics, money_column, stored_lot,
}
use bond_trading.Jobs.{enqueue_sheet_sync}
use bond_trading.Lots.{Portfolio, new_instrument}
use bond_trading.Spreadsheets.Reader.{ImportRow, ImportRowError}
use bond_trading.Spreadsheets.Uploads.{ImportPreview}

pub record CachedPreview : Type 0 where
  pub preview : ImportPreview
  pub expires_at : Time
  pub owner_id : Option Uuid

-- The dictionary's entries.
pub record ImportPreviewCache : Type 0 where
  pub ttl_seconds : ℕ
  pub values : List (Uuid × CachedPreview)

abbrev pub without_id : Uuid → List (Uuid × CachedPreview) → List (Uuid × CachedPreview)
without_id id values = keep (λ v. not (v.0 == id)) values

-- `put`, with the id that it returns
unfoldable pub put :
    Uuid → ImportPreview → Option Uuid → Time → ImportPreviewCache → ImportPreviewCache
put preview_id preview owner now cache = record cache {
  values =
      (
        preview_id,
        record { preview = preview; expires_at = now + cache.ttl_seconds; owner_id = owner },
      )
      ∷ without_id preview_id cache.values;
}

-- `discard`
unfoldable pub discard : Uuid → ImportPreviewCache → ImportPreviewCache
discard preview_id cache = record cache { values = without_id preview_id cache.values }

abbrev pub same_owner : Option Uuid → Uuid → Bool
same_owner none reader = false
same_owner (some owner) reader = owner == reader

-- `owner_id is not None and value.owner_id != owner_id`
unfoldable pub is_foreign : Option Uuid → Option Uuid → Bool
is_foreign none owner = false
is_foreign (some reader) owner = not (same_owner owner reader)

-- `get`, with the cache that it leaves
unfoldable pub get_preview :
    Uuid → Option Uuid → Time → ImportPreviewCache → Option ImportPreview × ImportPreviewCache
unfolding is_foreign discard
get_preview preview_id reader now cache = elim (find (λ v. v.0 == preview_id) cache.values) [
  | none ↦ (none, cache)
  | some v ↦
      if is_foreign reader v.1.owner_id
      then (none, cache)
      else if leb v.1.expires_at now
      then (none, discard preview_id cache)
      else (some v.1.preview, cache)
]

pub record ImportTables : Type 0 where
  pub portfolio : Portfolio
  pub batches : List ImportBatchModel
  pub uploads : List UploadedFileModel

pub record ImportLibrary : Type 0 where
  pub encode_errors : List ImportRowError → Text
  pub shown_id : Uuid → Text

-- An upload that a commit is about gets a new state, where it is known.
unfoldable pub mark_upload :
    Option Uuid
    → Text
    → (Option Text → Option Text)
    → List UploadedFileModel
    → List UploadedFileModel
mark_upload none status parse_error uploads = uploads
mark_upload (some upload_id) status parse_error uploads =
    update_where (λ (u : UploadedFileModel). u.id == upload_id)
      (λ u. record u { status = status; parse_error = parse_error u.parse_error }) uploads

abbrev pub is_named : Option Text → Bool
is_named none = false
is_named (some name) = nonempty name

abbrev pub named : Option Text → Text
named none = []
named (some name) = name

-- What the loop of `commit` carries: the tables and `instruments_updated`.
abbrev pub Progress : Type 0
Progress = Portfolio × ℕ

-- The instrument of a row: found, found and named, or new.
unfoldable pub place_instrument : ImportRow → Time → Progress → Uuid × Progress
place_instrument row now (db, updated) =
    elim (find (λ (i : BondInstrumentModel). text_eq i.isin row.normalized_isin) db.instruments) [
      | none ↦ (
        db.next_id,
        (
          record db {
            instruments =
                db.instruments
                ++ new_instrument db.next_id row.normalized_isin row.source_name now ∷ [];
            next_id = db.next_id + 1;
          },
          updated + 1,
        ),
      )
      | some i ↦
          if is_named row.source_name && text_eq i.short_name i.isin
          then (
            i.id,
            (
              record db {
                instruments =
                    update_where (λ (j : BondInstrumentModel). j.id == i.id)
                      (λ j. record j { short_name = named row.source_name }) db.instruments;
              },
              updated + 1,
            ),
          )
          else (i.id, (db, updated))
    ]

abbrev pub when_given : {A : Type 0} → Option Decimal → A → Option A
when_given none a = none
when_given (some price) a = some a

abbrev pub period_note : Option Text → Option Text
period_note none = none
period_note (some period) =
    if nonempty period then some (codes "Offer submission period: " ++ period) else none

-- `IntegrityError`
pub data CommitError : Type 0 where
  integrity_error : CommitError

-- `UniqueConstraint("import_batch_id", "source_row_number")`: the batch is new, so that only another
-- row of the preview can have a row's number.
unfoldable pub rows_distinct : List ImportRow → Bool
rows_distinct [] = true
rows_distinct (row ∷ rows) =
    not (any (λ (r : ImportRow). r.row_number == row.row_number) rows) && rows_distinct rows

abbrev pub is_upload : Uuid → Option Uuid → Bool
is_upload upload_id none = false
is_upload upload_id (some other) = other == upload_id

-- The foreign key of `uploaded_file_id`, which is unique among the batches.
unfoldable pub upload_free : Option Uuid → ImportTables → Bool
upload_free none t = true
upload_free (some upload_id) t =
    any (λ (u : UploadedFileModel). u.id == upload_id) t.uploads
    && not (any (λ (b : ImportBatchModel). is_upload upload_id b.uploaded_file_id) t.batches)

-- The constraints of the tables on what `commit` adds, `CheckConstraint("quantity > 0")` included.
unfoldable pub is_storable : Numerics → ImportPreview → ImportTables → Bool
unfolding rows_distinct upload_free
is_storable numerics p t =
    upload_free p.upload_id t
    && (rows_distinct p.rows
        && all (λ (row : ImportRow). not (le_zero (money_column numerics row.quantity))) p.rows)

module _ (owner : Uuid) where
  abbrev pub imported_lot : Uuid → Uuid → Uuid → Text → Time → ImportRow → BondLotModel
  imported_lot id instrument batch sheet_name now row = record {
    id = id;
    created_at = now;
    owner_id = owner;
    instrument_id = instrument;
    purchase_date = row.purchase_date;
    quantity = row.quantity;
    purchase_clean_price_rub_per_bond = row.purchase_clean_price_rub_per_bond;
    purchase_accrued_interest_rub_per_bond = row.purchase_accrued_interest_rub_per_bond;
    purchase_commission_rub_per_bond = row.purchase_commission_rub_per_bond;
    target_event_type = row.target_event_type;
    target_event_date = row.target_event_date;
    target_redemption_price_rub_per_bond = row.target_redemption_price_rub_per_bond;
    target_redemption_override_reason =
        when_given row.target_redemption_price_rub_per_bond (codes "Imported from source column N");
    target_redemption_override_updated_at = when_given row.target_redemption_price_rub_per_bond now;
    sale_commission_rub_per_bond = row.sale_commission_rub_per_bond;
    planned_yield_manual_reference = row.planned_yield_manual_reference;
    source_row_number = some row.row_number;
    source_sheet_name = sheet_name;
    notes = period_note row.offer_submission_period;
    import_batch_id = some batch;
  }

  -- The rest of the loop's body: the lot.
  unfoldable pub add_imported : Uuid → Text → Time → ImportRow → Uuid × Progress → Progress
  add_imported batch sheet_name now row (instrument, (db, updated)) = (
    record db {
      lots =
          db.lots
          ++ stored_lot db.numerics (imported_lot db.next_id instrument batch sheet_name now row)
            ∷ [];
      next_id = db.next_id + 1;
    },
    updated,
  )

  -- The loop of `commit`.
  unfoldable pub import_rows : Uuid → Text → Time → List ImportRow → Progress → Progress
  unfolding add_imported place_instrument stored_lot
  import_rows batch sheet_name now [] progress = progress
  import_rows batch sheet_name now (row ∷ rows) progress =
      import_rows batch sheet_name now rows
        (add_imported batch sheet_name now row (place_instrument row now progress))

  -- The query for a batch of the same content.
  abbrev pub is_batch_of : ImportPreview → ImportBatchModel → Bool
  is_batch_of p b =
      text_eq b.checksum p.checksum && text_eq b.sheet_name p.sheet_name && b.owner_id == owner

  module _ (lib : ImportLibrary) where
    -- The batch with the counts that the loop ends with.
    abbrev pub new_batch : Uuid → ImportPreview → Time → ℕ → ImportBatchModel
    new_batch id p now updated = record {
      id = id;
      created_at = now;
      owner_id = owner;
      uploaded_file_id = p.upload_id;
      file_name = p.file_name;
      sheet_name = p.sheet_name;
      imported_at = now;
      rows_read = p.rows_read;
      lots_created = length p.rows;
      instruments_updated = updated;
      row_errors = lib.encode_errors p.errors;
      checksum = p.checksum;
    }

    -- The rows of a preview that is new, where the tables take them.
    unfoldable pub commit_new :
        ImportPreview → Time → ImportTables → (ImportBatchModel × Bool) × ImportTables
    unfolding import_rows mark_upload
    commit_new p now t =
        let batch_id = t.portfolio.next_id in
        let done =
          import_rows batch_id p.sheet_name now p.rows
            (record t.portfolio { next_id = batch_id + 1 }, 0) in
        let batch = new_batch batch_id p now done.1 in
        (
          (batch, false),
          record {
            portfolio = record done.0 {
              sheets = enqueue_sheet_sync owner import_committed now done.0.sheets;
            };
            batches = t.batches ++ batch ∷ [];
            uploads = mark_upload p.upload_id (codes "imported") (λ e. e) t.uploads;
          },
        )

    -- `commit`; an `IntegrityError` leaves the tables as they were.
    unfoldable pub commit :
        ImportPreview
        → Time
        → ImportTables
        → Result CommitError ((ImportBatchModel × Bool) × ImportTables)
    unfolding commit_new mark_upload is_storable
    commit p now t = elim (find (is_batch_of p) t.batches) [
      | some existing ↦ ok (
        (existing, true),
        record t {
          uploads =
              mark_upload p.upload_id (codes "duplicate")
                (λ e. some (codes "Content already imported in batch " ++ lib.shown_id existing.id))
                t.uploads;
        },
      )
      | none ↦
          if is_storable t.portfolio.numerics p t
          then ok (commit_new p now t)
          else err integrity_error
    ]
