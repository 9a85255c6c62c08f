-- ===== src/Uploads/Stored.antt =====
-- What `store` of application/services/uploads.py leaves in the storage and the database.
use bond_trading.Prelude.{
  ℕ, ◌≡◌, ◌≢◌, refl, sym, inl, inr, true, false, ◌&&◌, ◌||◌, List, [], ◌∷◌, ◌++◌, none, some, find,
  any, ◌==◌, arith, Bool-cases,
}
use bond_trading.Prelude.Rows.{find-snoc}
use bond_trading.Prelude.Texts.{Text, text_eq, text_eq_sound, text_eq_refl}
use bond_trading.Prelude.Results.{Result, ok, err}
use bond_trading.Database.{Uuid, Time, UploadedFileModel}
use bond_trading.Uploads.{
  UploadLibrary, UploadState, UploadError, Objects, Faults, put_object, delete_object, get_upload,
  object_key_of, new_upload, store,
}

-- A call that stored the file, and one that left no trace.
pub data StoreOutcome (owner : Uuid) (faults : Faults) (content : List ℕ) (content_type : Text)
    (s : UploadState) : Result UploadError UploadedFileModel × UploadState → Type 0 where
  stored :
      (upload : UploadedFileModel) (after : UploadState)
      → faults.put_fails || faults.commit_fails ≡ false
      → get_upload owner upload.id after ≡ some upload
      → after.objects upload.object_key
        ≡ some (record { content = content; content_type = content_type })
      → ((key : Text) → key ≢ upload.object_key → after.objects key ≡ s.objects key)
      → ((other id : Uuid) → other ≢ owner → get_upload other id after ≡ get_upload other id s)
      → StoreOutcome owner faults content content_type s (ok upload, after)
  left_clean :
      (error : UploadError) (after : UploadState)
      → faults.put_fails || faults.commit_fails ≡ true
      → after.uploads ≡ s.uploads
      → (faults.delete_fails ≡ false → (key : Text) → after.objects key ≡ s.objects key)
      → StoreOutcome owner faults content content_type s (err error, after)

put_object-same :
    (key : Text) (content : List ℕ) (content_type : Text) (objects : Objects)
    → put_object key content content_type objects key
      ≡ some (record { content = content; content_type = content_type })
unfolding put_object
put_object-same key content content_type objects = rw (text_eq_refl key) refl

put_object-other :
    (key object_key : Text) (content : List ℕ) (content_type : Text) (objects : Objects)
    → key ≢ object_key
    → put_object object_key content content_type objects key ≡ objects key
unfolding put_object
put_object-other key object_key content content_type objects n =
    elim (Bool-cases (text_eq key object_key)) [
      | inl same ↦ absurd (n (text_eq_sound key object_key same))
      | inr other ↦ rw other refl
    ]

-- A deletion undoes a `put` on a key that was free.
delete_object-put_object :
    (key object_key : Text) (content : List ℕ) (content_type : Text) (objects : Objects)
    → objects object_key ≡ none
    → delete_object object_key (put_object object_key content content_type objects) key
      ≡ objects key
unfolding put_object delete_object
delete_object-put_object key object_key content content_type objects free =
    elim (Bool-cases (text_eq key object_key)) [
      | inl same ↦ rw (same, text_eq_sound key object_key same) (sym free)
      | inr other ↦ rw other refl
    ]

find_other :
    (other owner id : Uuid) (u : UploadedFileModel) (us : List UploadedFileModel)
    → other ≢ owner
    → u.owner_id ≡ owner
    → find (λ x. x.id == id && x.owner_id == other) (us ++ u ∷ [])
      ≡ find (λ x. x.id == id && x.owner_id == other) us
find_other other owner id u [] n e = ground arith
find_other other owner id u (x ∷ us) n e = ground (arith, find_other other owner id u us n e)

no_row :
    (owner id : Uuid) (us : List UploadedFileModel)
    → any (λ u. u.id == id) us ≡ false
    → any (λ u. u.id == id && u.owner_id == owner) us ≡ false
no_row owner id [] h = refl
no_row owner id (x ∷ us) h = ground (arith, no_row owner id us)

module _ (lib : UploadLibrary) where
  -- Where the counter's id and the object's key are not in use: without a fault `store` returns a
  -- row that `get` finds for its owner, and the object of its key is the content; no other object
  -- and no other owner's row changes. Where the storage or the commit fails, it raises, the table
  -- is as it was, and so is the whole storage unless the deletion fails as well.
  pub store-StoreOutcome :
      (owner : Uuid) (faults : Faults) (file_name content_type : Text) (content : List ℕ)
      (now : Time) (s : UploadState)
      → any (λ u. u.id == s.next_id) s.uploads ≡ false
      → s.objects (object_key_of lib owner s.next_id file_name) ≡ none
      → StoreOutcome owner faults content content_type s
          (store lib owner faults file_name content_type content now s)
  unfolding store get_upload
  store-StoreOutcome owner faults file_name content_type content now s fresh free =
      let upload = new_upload lib owner s.next_id file_name content_type content now in
      elim (Bool-cases faults.put_fails) [
        | inl no_put ↦ rw no_put (left_clean _ s (ground arith) refl (λ d key. refl))
        | inr put ↦ elim (Bool-cases faults.commit_fails) [
          | inr committed ↦
              rw (put, committed)
                (stored upload _ (ground arith)
                  (find-snoc _ upload s.uploads (no_row owner s.next_id s.uploads fresh)
                    (ground arith))
                  (put_object-same upload.object_key content content_type s.objects)
                  (λ key n. put_object-other key upload.object_key content content_type s.objects n)
                  (λ other id n. find_other other owner id upload s.uploads n refl))
          | inl rolled_back ↦ elim (Bool-cases faults.delete_fails) [
            | inl kept ↦
                rw (put, rolled_back, kept) (left_clean _ _ (ground arith) refl (λ d. absurd (cc)))
            | inr deleted ↦
                rw (put, rolled_back, deleted)
                  (left_clean _ _ (ground arith) refl (λ d key.
                    delete_object-put_object key upload.object_key content content_type s.objects
                      free))
          ]
        ]
      ]
