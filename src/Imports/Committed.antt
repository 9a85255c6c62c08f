-- ===== src/Imports/Committed.antt =====
-- What `commit` stores for a preview, and what it does with a preview that was imported before.
use bond_trading.Prelude.{
  ◌+◌, Bool, true, false, not, ◌≡◌, ◌≢◌, ◌⊎◌, ◌↔◌, refl, subst, All, any, all, ap, inl, inr, Option,
  some_injective, List, [], ◌∷◌, ◌++◌, none, some, find, length, ◌==◌, Bool-cases, Option-cases,
  arith,
}
use bond_trading.Prelude.Rows.{Distinct, find-snoc, find-none-any}
use bond_trading.Prelude.Texts.{text_eq, text_eq_sound, text_eq_refl, codes}
use bond_trading.Prelude.Results.{ok, err, ok_injective}
use bond_trading.Decimal.{le_zero}
use bond_trading.Database.{Uuid, Time, ImportBatchModel, UploadedFileModel, Numerics}
use bond_trading.Spreadsheets.Reader.{ImportRow}
use bond_trading.Spreadsheets.Uploads.{ImportPreview}
use bond_trading.Imports.{
  ImportTables, ImportLibrary, mark_upload, is_batch_of, commit_new, commit, is_storable,
  upload_free, rows_distinct, is_upload, integrity_error,
}
use bond_trading.Imports.Imported.{IsKept, IsImported, import_rows-IsImported}

rows_distinct-Distinct :
    (rows : List ImportRow)
    → (rows_distinct rows ≡ true) ↔ Distinct (λ (r : ImportRow). r.row_number) rows
unfolding rows_distinct
rows_distinct-Distinct [] = (λ h. tt, λ d. refl)
rows_distinct-Distinct (row ∷ rows) =
    let rest = rows_distinct-Distinct rows in
    (
      λ h.
          let fresh : any (λ (r : ImportRow). r.row_number == row.row_number) rows ≡ false =
            ground arith in
          (fresh, rest.0 (ground arith)),
      λ d.
          let later = rest.1 d.1 in
          let fresh : any (λ (r : ImportRow). r.row_number == row.row_number) rows ≡ false = d.0 in
          ground arith,
    )

all-positive :
    (q : Numerics) (rows : List ImportRow)
    → (all (λ (r : ImportRow). not (le_zero (q 8 r.quantity))) rows ≡ true)
      ↔ All (λ (r : ImportRow). le_zero (q 8 r.quantity) ≡ false) rows
all-positive q [] = (λ h. tt, λ a. refl)
all-positive q (row ∷ rows) =
    let rest = all-positive q rows in
    (
      λ h. (ground arith, rest.0 (ground arith)),
      λ a. let later = rest.1 a.1 in let here = a.0 in ground arith,
    )

is_upload_iff : (id : Uuid) (o : Option Uuid) → (is_upload id o ≡ false) ↔ (o ≢ some id)
is_upload_iff id none = (λ h e. cc, λ n. refl)
is_upload_iff id (some other) = (
  λ h e. let same : other ≡ id = some_injective e in ground arith,
  λ n. elim (Bool-cases (other == id)) [
    | inl hit ↦ let same : other ≡ id = ground arith in absurd (n (ap some same))
    | inr miss ↦ miss
  ],
)

unused_upload :
    (id : Uuid) (bs : List ImportBatchModel)
    → (any (λ (b : ImportBatchModel). is_upload id b.uploaded_file_id) bs ≡ false)
      ↔ All (λ (b : ImportBatchModel). b.uploaded_file_id ≢ some id) bs
unused_upload id [] = (λ h. tt, λ a. refl)
unused_upload id (b ∷ bs) =
    let here = is_upload_iff id b.uploaded_file_id in
    let rest = unused_upload id bs in
    (
      λ h. (here.0 (ground arith), rest.0 (ground arith)),
      λ a. let now = here.1 a.0 in let later = rest.1 a.1 in ground arith,
    )

module _ (owner : Uuid) (lib : ImportLibrary) where
  -- What a commit stored.
  pub record IsCommitted (p : ImportPreview) (now : Time) (t after : ImportTables)
      (b : ImportBatchModel) : Type 0 where
    pub added : after.batches ≡ t.batches ++ b ∷ []
    pub owned : b.owner_id ≡ owner
    pub content : (b.checksum ≡ p.checksum) × (b.sheet_name ≡ p.sheet_name)
    pub upload : b.uploaded_file_id ≡ p.upload_id
    pub counted : (b.rows_read ≡ p.rows_read) × (b.lots_created ≡ length p.rows)
    pub imported :
        IsImported owner b.id p.sheet_name now t.portfolio.numerics p.rows t.portfolio
          after.portfolio
    pub kept : IsKept t.portfolio after.portfolio

  -- What the tables ask of a preview: no row number twice, quantities that are positive as their
  -- column keeps them, and an upload that is known and that no batch has.
  pub record IsStorable (p : ImportPreview) (t : ImportTables) : Type 0 where
    pub distinct : Distinct (λ (r : ImportRow). r.row_number) p.rows
    pub positive :
        All (λ (r : ImportRow). le_zero (t.portfolio.numerics 8 r.quantity) ≡ false) p.rows
    pub known :
        (id : Uuid)
        → p.upload_id ≡ some id
        → any (λ (u : UploadedFileModel). u.id == id) t.uploads ≡ true
    pub unused :
        (id : Uuid)
        → p.upload_id ≡ some id
        → All (λ (b : ImportBatchModel). b.uploaded_file_id ≢ some id) t.batches

  commit_new-IsCommitted :
      (p : ImportPreview) (now : Time) (t : ImportTables)
      → IsCommitted p now t (commit_new owner lib p now t).1 (commit_new owner lib p now t).0.0
  unfolding commit_new
  commit_new-IsCommitted p now t =
      let r =
        import_rows-IsImported owner t.portfolio.next_id p.sheet_name now t.portfolio.numerics
          p.rows (record t.portfolio { next_id = t.portfolio.next_id + 1 }) 0 refl in
      record {
        added = refl;
        owned = refl;
        content = (refl, refl);
        upload = refl;
        counted = (refl, refl);
        imported = r.0;
        kept = r.1;
      }

  is_storable-IsStorable :
      (p : ImportPreview) (t : ImportTables)
      → (is_storable t.portfolio.numerics p t ≡ true) ↔ IsStorable p t
  unfolding is_storable upload_free
  is_storable-IsStorable p t = (
    λ h.
        let upload : upload_free p.upload_id t ≡ true = ground arith in
        record {
          distinct = (rows_distinct-Distinct p.rows).0 (ground arith);
          positive = (all-positive t.portfolio.numerics p.rows).0 (ground arith);
          known = λ id e. let free = rw e at upload in ground arith;
          unused =
              λ id e. let free = rw e at upload in (unused_upload id t.batches).0 (ground arith);
        },
    λ s.
        let distinct = (rows_distinct-Distinct p.rows).1 s.distinct in
        let positive = (all-positive t.portfolio.numerics p.rows).1 s.positive in
        let upload : upload_free p.upload_id t ≡ true = elim (Option-cases p.upload_id) [
          | inl e ↦ rw e refl
          | inr (id, e) ↦
              let known = s.known id e in
              let unused = (unused_upload id t.batches).1 (s.unused id e) in
              rw e (rw (known, unused) refl)
        ] in
        rw (upload, distinct, positive) refl,
  )

  -- No batch of the owner has the content of the preview for its sheet.
  abbrev pub IsNewContent : ImportPreview → List ImportBatchModel → Type 0
  IsNewContent p bs =
      All
        (λ (b : ImportBatchModel).
          b.checksum ≡ p.checksum → b.sheet_name ≡ p.sheet_name → b.owner_id ≢ owner)
        bs

  unmatched_content :
      (p : ImportPreview) (bs : List ImportBatchModel)
      → IsNewContent p bs
      → find (is_batch_of owner p) bs ≡ none
  unmatched_content p [] h = refl
  unmatched_content p (b ∷ bs) (here, rest) = elim (Bool-cases (is_batch_of owner p b)) [
    | inr other ↦ rw other (unmatched_content p bs rest)
    | inl same ↦
        let content : text_eq b.checksum p.checksum ≡ true = ground arith in
        let sheet : text_eq b.sheet_name p.sheet_name ≡ true = ground arith in
        let own : b.owner_id ≡ owner = ground arith in
        absurd (here (text_eq_sound _ _ content) (text_eq_sound _ _ sheet) own)
  ]

  -- A preview whose content the owner has not imported for this sheet is either committed or refused.
  -- Where its row numbers differ, its quantities are positive as their column keeps them, and its
  -- upload is known and of no batch, it is committed as a new batch that counts its rows. The lots
  -- that were there stay as they were, and after them come the lots of the preview, one for each row
  -- and in their order: each belongs to the owner and the batch, has the fields of its row, and its
  -- instrument has the row's ISIN. No instrument is lost. Otherwise the database refuses it, and
  -- nothing is stored.
  pub commit-IsImported :
      (p : ImportPreview) (now : Time) (t : ImportTables)
      → IsNewContent p t.batches
      → (IsStorable p t
          × ((b : ImportBatchModel) × (after : ImportTables) × (commit owner lib p now t
                ≡ ok ((b, false), after))
              × IsCommitted p now t after b))
        ⊎ ((IsStorable p t → ⊥) × (commit owner lib p now t ≡ err integrity_error))
  unfolding commit commit_new
  commit-IsImported p now t new =
      let h = unmatched_content p t.batches new in
      elim (Bool-cases (is_storable t.portfolio.numerics p t)) [
        | inl fits ↦ inl (
          (is_storable-IsStorable p t).0 fits,
          (
            (commit_new owner lib p now t).0.0,
            (commit_new owner lib p now t).1,
            rw (h, commit) (rw fits refl),
            commit_new-IsCommitted p now t,
          ),
        )
        | inr clash ↦ inr (
          λ fits. absurd (cc (clash, (is_storable-IsStorable p t).1 fits)),
          rw (h, commit) (rw clash refl),
        )
      ]

  replayed :
      (q : ImportPreview) (later : Time) (after : ImportTables) (b : ImportBatchModel)
      → find (is_batch_of owner q) after.batches ≡ some b
      → (uploads : List UploadedFileModel) × (commit owner lib q later after
          ≡ ok ((b, true), record after { uploads = uploads }))
  unfolding commit
  replayed q later after b k =
      let message = codes "Content already imported in batch " ++ lib.shown_id b.id in
      (
        mark_upload q.upload_id (codes "duplicate") (λ e. some message) after.uploads,
        rw (k, commit) refl,
      )

  find-commit :
      (p q : ImportPreview) (now : Time) (t after : ImportTables) (r : ImportBatchModel × Bool)
      → commit owner lib p now t ≡ ok (r, after)
      → q.checksum ≡ p.checksum
      → q.sheet_name ≡ p.sheet_name
      → find (is_batch_of owner q) after.batches ≡ some r.0
  unfolding commit commit_new
  find-commit p q now t after r h e f = elim (Option-cases (find (is_batch_of owner p) t.batches)) [
    | inl k ↦ elim (Bool-cases (is_storable t.portfolio.numerics p t)) [
      | inr clash ↦ absurd (cc (rw clash at (rw (k, commit) at h)))
      | inl fits ↦
          let done = ok_injective (rw fits at (rw (k, commit) at h)) in
          rw (e, f)
            (subst (λ x. find (is_batch_of owner p) x.1.batches ≡ some x.0.0) done
              (find-snoc (is_batch_of owner p) _ t.batches (find-none-any _ t.batches k)
                (rw (text_eq_refl p.checksum, text_eq_refl p.sheet_name) (ground arith))))
    ]
    | inr (b, k) ↦
        let done = ok_injective (rw (k, commit) at h) in
        rw (e, f) (subst (λ x. find (is_batch_of owner p) x.1.batches ≡ some x.0.0) done k)
  ]

  -- Once a preview is committed, committing its content for this sheet again, at any time and from
  -- any upload, returns the batch of the first time as a duplicate and leaves lots, instruments,
  -- sheet jobs and batches as they are: only uploads change.
  pub commit-commit :
      (p q : ImportPreview) (now later : Time) (t after : ImportTables)
      (r : ImportBatchModel × Bool)
      → commit owner lib p now t ≡ ok (r, after)
      → q.checksum ≡ p.checksum
      → q.sheet_name ≡ p.sheet_name
      → (uploads : List UploadedFileModel) × (commit owner lib q later after
          ≡ ok ((r.0, true), record after { uploads = uploads }))
  commit-commit p q now later t after r h e f =
      replayed q later after r.0 (find-commit p q now t after r h e f)
