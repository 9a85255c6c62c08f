-- ===== src/Imports/Cached.antt =====
-- What the cache of previews gives to whom, and until when.
use bond_trading.Prelude.{
  ◌+◌, not, ◌&&◌, ◌≡◌, ◌≢◌, refl, ◌∙◌, ap, sym, List, [], ◌∷◌, Option, none, some, find, ltb, ◌==◌,
  if◌then◌else◌, arith,
}
use bond_trading.Database.{Uuid, Time}
use bond_trading.Spreadsheets.Uploads.{ImportPreview}
use bond_trading.Imports.{
  CachedPreview, ImportPreviewCache, put, discard, is_foreign, get_preview, without_id,
}

-- The entry of another id is found in what is kept.
find_other :
    (id other : Uuid) (values : List (Uuid × CachedPreview))
    → other ≢ id
    → find (λ v. v.0 == other) (without_id id values) ≡ find (λ v. v.0 == other) values
find_other id other [] h = refl
find_other id other (v ∷ values) h = ground (arith, find_other id other values h)

find_discarded :
    (id : Uuid) (values : List (Uuid × CachedPreview))
    → find (λ v. v.0 == id) (without_id id values) ≡ none
find_discarded id [] = refl
find_discarded id (v ∷ values) = ground (arith, find_discarded id values)

-- What a reader sees of an entry.
visible : Option Uuid → Time → Option (Uuid × CachedPreview) → Option ImportPreview
unfolding is_foreign
visible reader now none = none
visible reader now (some v) =
    if not (is_foreign reader v.1.owner_id) && ltb now v.1.expires_at
    then some v.1.preview
    else none

get_preview_found :
    (id : Uuid) (reader : Option Uuid) (now : Time) (cache : ImportPreviewCache)
    → (get_preview id reader now cache).0 ≡ visible reader now (find (λ v. v.0 == id) cache.values)
unfolding get_preview visible
get_preview_found id reader now cache = ground arith

-- A preview that is put into the cache is what `get` returns for its id to a reader that is not
-- foreign to it as long as its time to live has not passed; then and to a foreign reader `get`
-- returns nothing. What `get` returns for other ids is as before. After a `discard` of the id, `get`
-- returns nothing for it.
pub get_preview-put :
    (id other : Uuid) (p : ImportPreview) (owner reader : Option Uuid) (now later : Time)
    (cache : ImportPreviewCache)
    → other ≢ id
    → ((get_preview id reader later (put id p owner now cache)).0 ≡ (
        if not (is_foreign reader owner) && ltb later (now + cache.ttl_seconds)
        then some p
        else none))
      × ((get_preview other reader later (put id p owner now cache)).0
          ≡ (get_preview other reader later cache).0)
      × ((get_preview id reader later (discard id (put id p owner now cache))).0 ≡ none)
unfolding visible put discard
get_preview-put id other p owner reader now later cache h = (
  get_preview_found id reader later _ ∙ ground arith,
  get_preview_found other reader later _
      ∙ ap (visible reader later) (ground (arith, find_other id other cache.values h))
      ∙ sym (get_preview_found other reader later cache),
  get_preview_found id reader later _
      ∙ ap (visible reader later) (find_discarded id (put id p owner now cache).values),
)
