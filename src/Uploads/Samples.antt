-- ===== src/Uploads/Samples.antt =====
-- A file with a hostile name, stored with and without faults.
use bond_trading.Prelude.{◌≡◌, ◌≤◌, refl, true, false, [], ◌∷◌, none, all, length}
use bond_trading.Prelude.Texts.{Text, codes, nonempty}
use bond_trading.Uploads.{
  UploadLibrary, UploadState, Faults, is_safe, sanitize, cut_name, safe_name, store,
}
use bond_trading.Uploads.Named.{safe_name-IsSafe}
use bond_trading.Uploads.Stored.{StoreOutcome, store-StoreOutcome}

-- Every path is its own name.
abbrev trivial : UploadLibrary
trivial = record {
  path_name = λ t. t;
  path_suffix = λ t. codes ".xlsx";
  lower = λ t. t;
  sha256 = λ c. c;
  uuid_text = λ id. id ∷ [];
}

abbrev hostile : Text
hostile = codes " ..<b>\\$lots.xlsx "

cleaned : safe_name trivial hostile ≡ codes "_b_lots.xlsx"
unfolding safe_name sanitize is_safe cut_name
cleaned = refl

safe_name-IsSafe_example :
    (nonempty (safe_name trivial hostile) ≡ true)
    × (length (safe_name trivial hostile) ≤ 255)
    × (all is_safe (safe_name trivial hostile) ≡ true)
safe_name-IsSafe_example = safe_name-IsSafe trivial hostile

abbrev nothing_stored : UploadState
nothing_stored = record { objects = λ key. none; uploads = []; next_id = 5 }

abbrev commit_raises : Faults
commit_raises = record { put_fails = false; commit_fails = true; delete_fails = false }

store-StoreOutcome_example :
    StoreOutcome 1 commit_raises
      (80 ∷ 75 ∷ [])
      (codes "x")
      nothing_stored
      (store trivial 1 commit_raises hostile (codes "x") (80 ∷ 75 ∷ []) 20 nothing_stored)
store-StoreOutcome_example =
    store-StoreOutcome trivial 1 commit_raises hostile (codes "x") (80 ∷ 75 ∷ []) 20 nothing_stored
      refl refl
