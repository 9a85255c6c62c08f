-- ===== src/Lots/Creation.antt =====
-- What `create` stores.
use bond_trading.Prelude.{
  ℕ, ◌<◌, ◌≤◌, ◌≡◌, refl, ap, sym, subst, none, false, ◌&&◌, List, [], ◌∷◌, ◌++◌, Option, some,
  find, any, ◌==◌, arith, All, inl, inr, Option-cases, ◌∙◌,
}
use bond_trading.Prelude.Rows.{In, find-In, find-snoc}
use bond_trading.Prelude.Results.{Result, ok, err, >>=-eq-ok, >>-eq-ok, ok_injective}
use bond_trading.Prelude.Texts.{Text, text_eq, text_eq_sound}
use bond_trading.Errors.{DomainError}
use bond_trading.Decimal.{Decimal}
use bond_trading.Database.{Uuid, Time, BondLotModel, BondInstrumentModel, stored_lot}
use bond_trading.Isin.{normalize_isin}
use bond_trading.Lots.{
  Portfolio, get, required, create, add_lot, check_quantity, ensure_instrument, from_domain,
  new_lot, new_instrument,
}
use bond_trading.Requests.{LotCreate}
use bond_trading.Lots.Ownership.{others}

pub from_domain-eq-ok :
    {A : Type 0} (m : Result DomainError A) (a : A) → from_domain m ≡ ok a → m ≡ ok a
unfolding from_domain
from_domain-eq-ok (ok b) a h = cc
from_domain-eq-ok (err e) a h = absurd (cc)

pub In-snoc : {A : Type 0} (a : A) (xs : List A) → In a (xs ++ a ∷ [])
In-snoc a [] = inl refl
In-snoc a (x ∷ xs) = inr (In-snoc a xs)

-- The tables have an instrument with the id and the ISIN, and their lots are the same.
abbrev IsPlaced : Text → Portfolio → Uuid × Portfolio → Type 0
IsPlaced isin db r =
    (r.1.lots ≡ db.lots)
    × (r.1.numerics ≡ db.numerics)
    × (db.next_id ≤ r.1.next_id)
    × ((i : BondInstrumentModel) × In i r.1.instruments × (i.id ≡ r.0) × (i.isin ≡ isin))

ensure_instrument-IsPlaced :
    (isin : Text) (name : Option Text) (now : Time) (db : Portfolio)
    → IsPlaced isin db (ensure_instrument isin name now db)
unfolding ensure_instrument
ensure_instrument-IsPlaced isin name now db =
    elim (Option-cases (find (λ (i : BondInstrumentModel). text_eq i.isin isin) db.instruments)) [
      | inl e ↦
          rw (e, ensure_instrument)
            (
              refl,
              refl,
              omega arith,
              (new_instrument db.next_id isin name now, In-snoc _ db.instruments, refl, refl),
            )
      | inr (i, e) ↦
          let r =
            find-In (λ (j : BondInstrumentModel). text_eq j.isin isin) db.instruments {a = i} e in
          rw (e, ensure_instrument)
            (refl, refl, omega arith, (i, r.0, refl, text_eq_sound i.isin isin r.1))
    ]

module _ (owner : Uuid) where
  fresh_id :
      (n k : ℕ) (xs : List BondLotModel)
      → n ≤ k
      → All (λ l. l.id < n) xs
      → any (λ l. l.id == k && l.owner_id == owner) xs ≡ false
  fresh_id n k [] h a = refl
  fresh_id n k (x ∷ xs) h a = ground (arith, fresh_id n k xs h a.1)

  others-snoc :
      (l : BondLotModel) (xs : List BondLotModel)
      → l.owner_id ≡ owner
      → others owner (xs ++ l ∷ []) ≡ others owner xs
  others-snoc l [] h = ground arith
  others-snoc l (x ∷ xs) h = ground (arith, others-snoc l xs h)

  -- The lot's fields are those of the request; a manual redemption price is dated.
  pub record HasRequest (v : LotCreate) (now : Time) (l : BondLotModel) : Type 0 where
    pub purchase_date : l.purchase_date ≡ v.purchase_date
    pub quantity : l.quantity ≡ v.quantity
    pub clean_price : l.purchase_clean_price_rub_per_bond ≡ v.purchase_clean_price_rub_per_bond
    pub accrued :
        l.purchase_accrued_interest_rub_per_bond ≡ v.purchase_accrued_interest_rub_per_bond
    pub commission : l.purchase_commission_rub_per_bond ≡ v.purchase_commission_rub_per_bond
    pub event_type : l.target_event_type ≡ v.target_event_type
    pub event_date : l.target_event_date ≡ v.target_event_date
    pub redemption : l.target_redemption_price_rub_per_bond ≡ v.target_redemption_price_rub_per_bond
    pub reason : l.target_redemption_override_reason ≡ v.target_redemption_override_reason
    pub undated :
        v.target_redemption_price_rub_per_bond ≡ none
        → l.target_redemption_override_updated_at ≡ none
    pub dated :
        (price : Decimal)
        → v.target_redemption_price_rub_per_bond ≡ some price
        → l.target_redemption_override_updated_at ≡ some now
    pub sale_commission : l.sale_commission_rub_per_bond ≡ v.sale_commission_rub_per_bond
    pub manual_reference : l.planned_yield_manual_reference ≡ v.planned_yield_manual_reference
    pub row_number : l.source_row_number ≡ v.source_row_number
    pub sheet_name : l.source_sheet_name ≡ v.source_sheet_name
    pub notes : l.notes ≡ v.notes
    pub not_imported : l.import_batch_id ≡ none
    pub created_at : l.created_at ≡ now

  new_lot-HasRequest :
      (id instrument : Uuid) (v : LotCreate) (now : Time)
      → HasRequest v now (new_lot id owner instrument v now)
  new_lot-HasRequest id instrument v now = record {
    purchase_date = refl;
    quantity = refl;
    clean_price = refl;
    accrued = refl;
    commission = refl;
    event_type = refl;
    event_date = refl;
    redemption = refl;
    reason = refl;
    undated = λ e. rw e refl;
    dated = λ price e. rw e refl;
    sale_commission = refl;
    manual_reference = refl;
    row_number = refl;
    sheet_name = refl;
    notes = refl;
    not_imported = refl;
    created_at = refl;
  }

  -- What `create` leaves behind: the lots of other owners as they were, and the row of a lot that
  -- has the fields of the request and belongs to the owner and the instrument of its ISIN.
  pub record IsCreated (v : LotCreate) (now : Time) (db after : Portfolio) (l : BondLotModel)
      : Type 0 where
    pub foreign : others owner after.lots ≡ others owner db.lots
    pub stored : get owner l.id after ≡ some (stored_lot db.numerics l)
    pub instrument : BondInstrumentModel
    pub known : In instrument after.instruments
    pub isin : normalize_isin v.isin ≡ ok instrument.isin
    pub owned : l.owner_id ≡ owner
    pub of_instrument : l.instrument_id ≡ instrument.id
    pub fields : HasRequest v now l

  read_back :
      (v : LotCreate) (now : Time) (db : Portfolio) (isin : Text) (placed : Uuid × Portfolio)
      → All (λ l. l.id < db.next_id) db.lots
      → normalize_isin v.isin ≡ ok isin
      → IsPlaced isin db placed
      → IsCreated v now db
          (add_lot owner v now placed)
          (new_lot placed.1.next_id owner placed.0 v now)
  unfolding add_lot get stored_lot
  read_back v now db isin placed below e (lots, numerics, le, (i, m, p, q)) =
      let l = new_lot placed.1.next_id owner placed.0 v now in
      record {
        foreign = others-snoc (stored_lot placed.1.numerics l) placed.1.lots refl ∙ rw lots refl;
        stored =
            find-snoc (λ x. x.id == placed.1.next_id && x.owner_id == owner)
              (stored_lot placed.1.numerics l) placed.1.lots
              (rw lots (fresh_id db.next_id placed.1.next_id db.lots le below)) (ground arith)
            ∙ ap (λ n. some (stored_lot n l)) numerics;
        instrument = i;
        known = m;
        isin = rw q e;
        owned = refl;
        of_instrument = sym p;
        fields = new_lot-HasRequest placed.1.next_id placed.0 v now;
      }

  -- Where the ids of all lots are below the counter, a successful `create` changes no lot of
  -- another owner; the lot that it returns has the fields of the request and belongs to the owner
  -- and to an instrument of the normalized ISIN; and `get` finds it by its id with its numbers
  -- rounded to their columns.
  pub create-IsCreated :
      (v : LotCreate) (now : Time) (db after : Portfolio) (l : BondLotModel)
      → All (λ l. l.id < db.next_id) db.lots
      → create owner v now db ≡ ok (l, after)
      → IsCreated v now db after l
  unfolding create
  create-IsCreated v now db after l below h =
      let (isin, e, h₁) = >>=-eq-ok (from_domain (normalize_isin v.isin)) _ h in
      let placed = ensure_instrument isin v.source_name now db in
      let made = new_lot placed.1.next_id owner placed.0 v now in
      let (_, h₂) = >>-eq-ok (check_quantity owner (stored_lot placed.1.numerics made)) _ h₁ in
      let (_, found, h₃) =
        >>=-eq-ok (required owner placed.1.next_id (add_lot owner v now placed)) _ h₂ in
      subst (λ r. IsCreated v now db r.1 r.0) (ok_injective h₃)
        (read_back v now db isin placed below (from_domain-eq-ok _ _ e)
          (ensure_instrument-IsPlaced isin v.source_name now db))
