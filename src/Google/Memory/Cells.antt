-- ===== src/Google/Memory/Cells.antt =====
-- The gateway in memory as a map from cells to values.
use bond_trading.Prelude.{
  ℕ, ◌≡◌, refl, sym, subst, ◌∙◌, ap, inl, inr, true, false, List, [], ◌∷◌, Option, some,
  if◌then◌else◌, Bool-cases, arith, length,
}
use bond_trading.Prelude.Rows.{false-true}
use bond_trading.Prelude.Texts.{Text, text_eq_sound, text_eq_refl}
use bond_trading.Prelude.Results.{ok, >>-eq-ok, ok_injective}
use bond_trading.Decimal.{Decimal}
use bond_trading.Values.{Value}
use bond_trading.Sync.{CellUpdate}
use bond_trading.Google.Memory.{
  CellKey, MemorySheets, same_key, store_cell, cell_at, require_worksheet, memory_value,
  store_updates, update_memory,
}

-- The map that a worksheet stands for, with one cell changed.
abbrev pub changed : CellKey → Value → (CellKey → Option Value) → CellKey → Option Value
changed key value old k = if same_key key k then some value else old k

same_key_sound : (a b : CellKey) → same_key a b ≡ true → a ≡ b
same_key_sound a b h =
    let p = text_eq_sound a.book b.book (ground arith) in
    let q = text_eq_sound a.sheet b.sheet (ground arith) in
    let r : a.row ≡ b.row = ground arith in
    let s = text_eq_sound a.column b.column (ground arith) in
    λ i. record { book = p i; sheet = q i; row = r i; column = s i }

same_key_refl : (a : CellKey) → same_key a a ≡ true
same_key_refl a =
    rw (text_eq_refl a.book, text_eq_refl a.sheet, text_eq_refl a.column) (ground arith)

cell_at-first :
    (j k : CellKey) (v : Value) (cells : List (CellKey × Value))
    → cell_at k ((j, v) ∷ cells) ≡ (if same_key j k then some v else cell_at k cells)
unfolding cell_at
cell_at-first j k v cells = elim (Bool-cases (same_key j k)) [
  | inl hit ↦ rw (hit, cell_at) refl
  | inr miss ↦ rw (miss, cell_at) refl
]

cell_at-store_cell :
    (key k : CellKey) (value : Value) (cells : List (CellKey × Value))
    → cell_at k (store_cell key value cells) ≡ changed key value (λ j. cell_at j cells) k
unfolding store_cell
cell_at-store_cell key k value [] = cell_at-first key k value []
cell_at-store_cell key k value ((j, old) ∷ cells) = elim (Bool-cases (same_key j key)) [
  | inl same ↦
      let e = same_key_sound j key same in
      rw (same, store_cell)
        (cell_at-first j k value cells ∙ elim (Bool-cases (same_key j k)) [
          | inl hit ↦ rw (hit, subst (λ x. same_key x k ≡ true) e hit) refl
          | inr miss ↦
              rw (miss, subst (λ x. same_key x k ≡ false) e miss)
                (sym (cell_at-first j k old cells ∙ rw miss refl))
        ])
  | inr other ↦
      rw (other, store_cell)
        (cell_at-first j k old (store_cell key value cells) ∙ elim (Bool-cases (same_key j k)) [
          | inl hit ↦
              let e = same_key_sound j k hit in
              elim (Bool-cases (same_key key k)) [
                | inl same ↦ absurd (
                    false-true other (
                      subst (λ x. same_key x key ≡ true) (same_key_sound key k same ∙ sym e)
                        (same_key_refl key)))
                | inr differs ↦ rw (hit, differs) (sym (cell_at-first j k old cells ∙ rw hit refl))
              ]
          | inr miss ↦ rw miss (
              cell_at-store_cell key k value cells
              ∙ ap (λ x. if same_key key k then some value else x)
                  (sym (cell_at-first j k old cells ∙ rw miss refl)))
        ])
]

module _ (number_text : Decimal → Text) (id name : Text) where
  abbrev pub key_of : CellUpdate → CellKey
  key_of u = record { book = id; sheet = name; row = u.row_number; column = u.column }

  -- The map after updates, one after the other.
  unfoldable pub updated : List CellUpdate → (CellKey → Option Value) → CellKey → Option Value
  updated [] old k = old k
  updated (u ∷ updates) old k =
      updated updates (changed (key_of u) (memory_value number_text u.value) old) k

  updated-same :
      (updates : List CellUpdate) (f g : CellKey → Option Value) (k : CellKey)
      → ((j : CellKey) → f j ≡ g j)
      → updated updates f k ≡ updated updates g k
  unfolding updated
  updated-same [] f g k h = h k
  updated-same (u ∷ updates) f g k h = updated-same updates _ _ k (λ j.
      ap (λ x. if same_key (key_of u) j then some (memory_value number_text u.value) else x) (h j))

  store_updates-updated :
      (updates : List CellUpdate) (cells : List (CellKey × Value)) (k : CellKey)
      → cell_at k (store_updates number_text id name updates cells)
        ≡ updated updates (λ j. cell_at j cells) k
  unfolding store_updates updated
  store_updates-updated [] cells k = refl
  store_updates-updated (u ∷ updates) cells k =
      store_updates-updated updates _ k
      ∙ updated-same updates _ _ k
          (λ j. cell_at-store_cell (key_of u) j (memory_value number_text u.value) cells)

  -- The dictionary of the gateway in memory implements a map from cells to values: after an update
  -- that succeeds, each cell of each worksheet holds what the map holds that is changed by the
  -- updates in their order, and the count is that of the updates.
  pub update_memory-updated :
      (updates : List CellUpdate) (m after : MemorySheets) (n : ℕ)
      → update_memory number_text id name updates m ≡ ok (n, after)
      → (n ≡ length updates)
        × ((k : CellKey) → cell_at k after.cells ≡ updated updates (λ j. cell_at j m.cells) k)
  unfolding update_memory
  update_memory-updated updates m after n h =
      let (known, h₁) = >>-eq-ok (require_worksheet id name m) _ h in
      subst
        (λ (r : ℕ × MemorySheets).
          (r.0 ≡ length updates)
          × ((k : CellKey) → cell_at k r.1.cells ≡ updated updates (λ j. cell_at j m.cells) k))
        (ok_injective h₁) (refl, store_updates-updated updates m.cells)
