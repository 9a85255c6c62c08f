-- ===== src/Uploads/Named.antt =====
-- The names of stored objects, `_safe_name` of application/services/uploads.py.
use bond_trading.Prelude.{
  ℕ, zero, suc, ◌≤◌, ◌≡◌, refl, inl, inr, Bool, true, false, [], ◌∷◌, all, length, take, arith,
  Bool-cases,
}
use bond_trading.Prelude.Texts.{Text, codes, nonempty}
use bond_trading.Prelude.Texts.Stripped.{all-reverse}
use bond_trading.Uploads.{
  UploadLibrary, is_safe, sanitize, drop_marks, strip_marks, cut_name, safe_name,
}

sanitize-safe : (in_run : Bool) (t : Text) → all is_safe (sanitize in_run t) ≡ true
unfolding sanitize is_safe
sanitize-safe in_run [] = refl
sanitize-safe in_run (c ∷ cs) = elim (Bool-cases (is_safe c)) [
  | inl safe ↦ rw safe (rw safe (sanitize-safe false cs))
  | inr other ↦ rw other (elim (Bool-cases in_run) [
    | inl inside ↦ rw inside (sanitize-safe true cs)
    | inr outside ↦ rw outside (sanitize-safe true cs)
  ])
]

drop_marks-safe : (t : Text) → all is_safe t ≡ true → all is_safe (drop_marks t) ≡ true
drop_marks-safe [] h = refl
drop_marks-safe (c ∷ cs) h = ground (arith, drop_marks-safe cs)

take-safe : (n : ℕ) (t : Text) → all is_safe t ≡ true → all is_safe (take n t) ≡ true
take-safe zero t h = refl
take-safe (suc n) [] h = refl
take-safe (suc n) (c ∷ cs) h = ground (arith, take-safe n cs)

length-take : (n : ℕ) (t : Text) → length (take n t) ≤ n
length-take zero t = omega arith
length-take (suc n) [] = omega arith
length-take (suc n) (c ∷ cs) = ground (arith, length-take n cs)

default_safe : all is_safe (codes "spreadsheet") ≡ true
unfolding is_safe
default_safe = refl

cut_name-IsSafe :
    (t : Text)
    → all is_safe t ≡ true
    → (nonempty (cut_name t) ≡ true)
      × (length (cut_name t) ≤ 255)
      × (all is_safe (cut_name t) ≡ true)
unfolding cut_name
cut_name-IsSafe t h = elim (Bool-cases (nonempty (take 255 t))) [
  | inl full ↦ rw full (full, length-take 255 t, take-safe 255 t h)
  | inr empty ↦ rw empty (refl, omega arith, default_safe)
]

-- Whatever the name of the uploaded file, the name of its object has between 1 and 255 characters,
-- which are all letters, digits, dots, underscores, spaces or dashes: no slash leaves the user's
-- folder.
pub safe_name-IsSafe :
    (lib : UploadLibrary) (file_name : Text)
    → (nonempty (safe_name lib file_name) ≡ true)
      × (length (safe_name lib file_name) ≤ 255)
      × (all is_safe (safe_name lib file_name) ≡ true)
unfolding safe_name
safe_name-IsSafe lib file_name =
    let clean = sanitize-safe false (lib.path_name file_name) in
    cut_name-IsSafe (strip_marks (sanitize false (lib.path_name file_name)))
      (all-reverse is_safe _ (drop_marks-safe _ (all-reverse is_safe _ (drop_marks-safe _ clean))))
