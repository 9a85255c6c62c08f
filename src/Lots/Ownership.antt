-- ===== src/Lots/Ownership.antt =====
-- What the lot operations leave alone, and what they leave behind.
use bond_trading.Prelude.{
  ℕ, ◌≡◌, refl, subst, sym, Bool, true, false, not, ◌&&◌, List, [], ◌∷◌, find, any, keep,
  update_where, ◌==◌, Bool-cases, arith, inl, inr, Option-cases, ◌∙◌,
}
use bond_trading.Prelude.Rows.{In, Distinct, In-any, In-update, find-In}
use bond_trading.Prelude.Results.{ok, >>=-eq-ok, >>-eq-ok, ok_injective}
use bond_trading.Database.{Uuid, Time, BondLotModel, stored_lot}
use bond_trading.Lots.{
  Portfolio, get, required, patch_lot, update, delete, assign_required, check_quantity,
}
use bond_trading.Requests.{LotPatch}

abbrev pub lot_key : BondLotModel → ℕ
lot_key l = l.id

-- The lots of all other owners.
abbrev pub others : Uuid → List BondLotModel → List BondLotModel
others owner lots = keep (λ l. not (l.owner_id == owner)) lots

-- A change of the rows that fail the test, by key, keeps those that pass it.
keep-update_absent :
    (q : BondLotModel → Bool) (k : ℕ) (f : BondLotModel → BondLotModel) (xs : List BondLotModel)
    → any (λ y. lot_key y == k) xs ≡ false
    → keep q (update_where (λ y. lot_key y == k) f xs) ≡ keep q xs
keep-update_absent q k f [] h = refl
keep-update_absent q k f (x ∷ xs) h = ground (arith, keep-update_absent q k f xs)

keep-update :
    (q : BondLotModel → Bool) (f : BondLotModel → BondLotModel) (a : BondLotModel)
    (xs : List BondLotModel)
    → Distinct lot_key xs
    → In a xs
    → q a ≡ false
    → q (f a) ≡ false
    → keep q (update_where (λ y. lot_key y == lot_key a) f xs) ≡ keep q xs
keep-update q f a [] d m h k = absurd m
keep-update q f a (x ∷ xs) d (inl e) h k =
    let hit : (lot_key x == lot_key a) ≡ true = rw e (ground arith) in
    let qx : q x ≡ false = subst (λ y. q y ≡ false) e h in
    let qf : q (f x) ≡ false = subst (λ y. q (f y) ≡ false) e k in
    let gone : any (λ y. lot_key y == lot_key a) xs ≡ false =
      subst (λ b. any (λ y. lot_key y == lot_key b) xs ≡ false) (sym e) d.0 in
    rw (hit, qx, qf) (keep-update_absent q (lot_key a) f xs gone)
keep-update q f a (x ∷ xs) d (inr m) h k = elim (Bool-cases (lot_key x == lot_key a)) [
  | inl hit ↦
      let same : lot_key x ≡ lot_key a = ground arith in
      absurd
        (cc (subst (λ j. any (λ y. lot_key y == j) xs ≡ false) same d.0, In-any lot_key a xs m))
  | inr miss ↦ rw miss (ground (arith, keep-update q f a xs d.1 m h k))
]

keep-delete_absent :
    (q : BondLotModel → Bool) (k : ℕ) (xs : List BondLotModel)
    → any (λ y. lot_key y == k) xs ≡ false
    → keep q (keep (λ y. not (lot_key y == k)) xs) ≡ keep q xs
keep-delete_absent q k [] h = refl
keep-delete_absent q k (x ∷ xs) h = ground (arith, keep-delete_absent q k xs)

keep-delete :
    (q : BondLotModel → Bool) (a : BondLotModel) (xs : List BondLotModel)
    → Distinct lot_key xs
    → In a xs
    → q a ≡ false
    → keep q (keep (λ y. not (lot_key y == lot_key a)) xs) ≡ keep q xs
keep-delete q a [] d m h = absurd m
keep-delete q a (x ∷ xs) d (inl e) h =
    let hit : (lot_key x == lot_key a) ≡ true = rw e (ground arith) in
    let qx : q x ≡ false = subst (λ y. q y ≡ false) e h in
    let gone : any (λ y. lot_key y == lot_key a) xs ≡ false =
      subst (λ b. any (λ y. lot_key y == lot_key b) xs ≡ false) (sym e) d.0 in
    rw (hit, qx) (keep-delete_absent q (lot_key a) xs gone)
keep-delete q a (x ∷ xs) d (inr m) h = elim (Bool-cases (lot_key x == lot_key a)) [
  | inl hit ↦
      let same : lot_key x ≡ lot_key a = ground arith in
      absurd
        (cc (subst (λ j. any (λ y. lot_key y == j) xs ≡ false) same d.0, In-any lot_key a xs m))
  | inr miss ↦ rw miss (ground (arith, keep-delete q a xs d.1 m h))
]

module _ (owner : Uuid) where
  -- `_required` returns the stored lot with the id, and it is the owner's.
  pub required-owned :
      (lot_id : Uuid) (db : Portfolio) (l : BondLotModel)
      → required owner lot_id db ≡ ok l
      → In l db.lots × (l.id ≡ lot_id) × (l.owner_id ≡ owner)
  unfolding required get
  required-owned lot_id db l h =
      elim (Option-cases (find (λ x. x.id == lot_id && x.owner_id == owner) db.lots)) [
        | inl e ↦ absurd (cc (rw (e, required) at h))
        | inr (x, e) ↦
            let p : x ≡ l = ok_injective (rw (e, required) at h) in
            let r = find-In (λ y. y.id == lot_id && y.owner_id == owner) db.lots {a = x} e in
            subst (λ y. In y db.lots × (y.id ≡ lot_id) × (y.owner_id ≡ owner)) p
              (r.0, ground (arith, r.1), ground (arith, r.1))
      ]

  patch_lot-keeps :
      (p : LotPatch) (now : Time) (l r : BondLotModel)
      → patch_lot owner p now l ≡ ok r
      → (r.id ≡ l.id) × (r.owner_id ≡ l.owner_id) × (r.instrument_id ≡ l.instrument_id)
  unfolding patch_lot
  patch_lot-keeps p now l r h =
      let (a₁, _, h₁) = >>=-eq-ok (assign_required p.purchase_date l.purchase_date) _ h in
      let (a₂, _, h₂) = >>=-eq-ok (assign_required p.quantity l.quantity) _ h₁ in
      let (a₃, _, h₃) =
        >>=-eq-ok
          (assign_required p.purchase_clean_price_rub_per_bond l.purchase_clean_price_rub_per_bond)
          _ h₂ in
      let (a₄, _, h₄) =
        >>=-eq-ok
          (assign_required p.purchase_accrued_interest_rub_per_bond
            l.purchase_accrued_interest_rub_per_bond)
          _ h₃ in
      let (a₅, _, h₅) =
        >>=-eq-ok
          (assign_required p.purchase_commission_rub_per_bond l.purchase_commission_rub_per_bond) _
          h₄ in
      let (a₆, _, h₆) = >>=-eq-ok (assign_required p.target_event_type l.target_event_type) _ h₅ in
      let (a₇, _, h₇) = >>=-eq-ok (assign_required p.target_event_date l.target_event_date) _ h₆ in
      let (a₈, _, h₈) =
        >>=-eq-ok (assign_required p.sale_commission_rub_per_bond l.sale_commission_rub_per_bond) _
          h₇ in
      subst (λ x. (x.id ≡ l.id) × (x.owner_id ≡ l.owner_id) × (x.instrument_id ≡ l.instrument_id))
        (ok_injective h₈) (refl, refl, refl)

  not_other : (l : BondLotModel) → l.owner_id ≡ owner → not (l.owner_id == owner) ≡ false
  not_other l e = ground arith

  -- Where ids are distinct, a successful `update` changes no lot of another owner, and returns
  -- the lot with the id, which is the owner's and is stored with its numbers rounded to their
  -- columns.
  pub update-keeps_others :
      (lot_id : Uuid) (p : LotPatch) (now : Time) (db after : Portfolio) (l : BondLotModel)
      → Distinct lot_key db.lots
      → update owner lot_id p now db ≡ ok (l, after)
      → (others owner after.lots ≡ others owner db.lots)
        × In (stored_lot db.numerics l) after.lots
        × (l.id ≡ lot_id)
        × (l.owner_id ≡ owner)
  unfolding update stored_lot
  update-keeps_others lot_id p now db after l d h =
      let (lot, found, h₁) = >>=-eq-ok (required owner lot_id db) _ h in
      let (patched, e, h₂) = >>=-eq-ok (patch_lot owner p now lot) _ h₁ in
      let (_, h₃) = >>-eq-ok (check_quantity owner (stored_lot db.numerics patched)) _ h₂ in
      let (_, again, h₄) = >>=-eq-ok (required owner lot_id _) _ h₃ in
      let own = required-owned lot_id db lot found in
      let kept = patch_lot-keeps p now lot patched e in
      let same =
        keep-update (λ x. not (x.owner_id == owner)) (λ x. stored_lot db.numerics patched) lot
          db.lots d own.0 (not_other lot own.2)
          (not_other (stored_lot db.numerics patched) (kept.1 ∙ own.2)) in
      let stored = In-update lot_key (λ x. stored_lot db.numerics patched) lot db.lots own.0 in
      subst
        (λ r.
          (others owner r.1.lots ≡ others owner db.lots)
          × In (stored_lot db.numerics r.0) r.1.lots
          × (r.0.id ≡ lot_id)
          × (r.0.owner_id ≡ owner))
        (ok_injective h₄) (same, stored, kept.0 ∙ own.1, kept.1 ∙ own.2)

  gone_after_delete :
      (k : ℕ) (xs : List BondLotModel)
      → any (λ y. lot_key y == k) (keep (λ y. not (lot_key y == k)) xs) ≡ false
  gone_after_delete k [] = refl
  gone_after_delete k (x ∷ xs) = ground (arith, gone_after_delete k xs)

  -- Where ids are distinct, a successful `delete` changes no lot of another owner and leaves no
  -- lot with the id.
  pub delete-keeps_others :
      (lot_id : Uuid) (now : Time) (db after : Portfolio)
      → Distinct lot_key db.lots
      → delete owner lot_id now db ≡ ok after
      → (others owner after.lots ≡ others owner db.lots)
        × (any (λ x. lot_key x == lot_id) after.lots ≡ false)
  unfolding delete
  delete-keeps_others lot_id now db after d h =
      let (lot, found, h₁) = >>=-eq-ok (required owner lot_id db) _ h in
      let own = required-owned lot_id db lot found in
      let same =
        keep-delete (λ x. not (x.owner_id == owner)) lot db.lots d own.0 (not_other lot own.2) in
      let gone : any (λ x. lot_key x == lot_id) (keep (λ x. not (lot_key x == lot.id)) db.lots)
          ≡ false =
        subst
          (λ k. any (λ x. lot_key x == k) (keep (λ x. not (lot_key x == lot.id)) db.lots) ≡ false)
          own.1 (gone_after_delete lot.id db.lots) in
      subst
        (λ r.
          (others owner r.lots ≡ others owner db.lots)
          × (any (λ x. lot_key x == lot_id) r.lots ≡ false))
        (ok_injective h₁) (same, gone)
