-- ===== src/Instruments/Failed.antt =====
-- What a refresh leaves that the exchange's client failed.
use bond_trading.Prelude.{
  ℕ, ◌≤◌, Bool, true, false, ◌≡◌, refl, sym, subst, ◌∙◌, ap, suc, ◌⊎◌, inl, inr, List, [], ◌∷◌,
  some, keep, sort, insert, head_of, length, take, update_where, leb, ◌==◌, if◌then◌else◌,
  Bool-cases, All, arith, some_injective,
}
use bond_trading.Prelude.Rows.{In, In-update}
use bond_trading.Prelude.Texts.{Text, codes}
use bond_trading.Prelude.Results.{ok, err}
use bond_trading.Database.{Time, BondInstrumentModel, MarketSnapshotModel}
use bond_trading.Isin.{normalize_isin}
use bond_trading.Lots.{Portfolio}
use bond_trading.Instruments.{
  MoexRefreshClient, client_error, instrument_of, latest_snapshot, refresh_failed,
  record_refresh_error, refresh_normalized, refresh,
}

module _ {A : Type 0} (key : A → ℕ) where
  abbrev later_first : A → A → Bool
  later_first a b = leb (key b) (key a)

  -- The first of the rows, where all others come after it.
  abbrev IsLatest : A → List A → Type 0
  IsLatest a xs = In a xs × All (λ x. key x ≤ key a) xs

  head-insert :
      (a m : A) (xs : List A)
      → head_of xs ≡ some m
      → head_of (insert later_first a xs) ≡ some (if leb (key m) (key a) then a else m)
  head-insert a m [] h = absurd (cc)
  head-insert a m (x ∷ xs) h = rw (some_injective h) (ground arith)

  All-le :
      (m a : A) (xs : List A)
      → key m ≤ key a
      → All (λ x. key x ≤ key m) xs
      → All (λ x. key x ≤ key a) xs
  All-le m a [] h all = tt
  All-le m a (x ∷ xs) h all = (omega (arith, all.0), All-le m a xs h all.1)

  sort-cases :
      (xs : List A)
      → ((sort later_first xs ≡ []) × (xs ≡ []))
        ⊎ ((m : A) × (head_of (sort later_first xs) ≡ some m) × IsLatest m xs)
  sort-cases [] = inl (refl, refl)
  sort-cases (x ∷ xs) = elim (sort-cases xs) [
    | inl (p, q) ↦ inr (x, rw p refl, (inl refl, (omega arith, rw q tt)))
    | inr (m, p, (i, all)) ↦ elim (Bool-cases (leb (key m) (key x))) [
      | inl new ↦ inr (
        x,
        rw (head-insert x m (sort later_first xs) p, new) refl,
        (inl refl, (omega arith, All-le m x xs (ground arith) all)),
      )
      | inr old ↦
          inr (
            m,
            rw (head-insert x m (sort later_first xs) p, old) refl,
            (inr i, (ground arith, all)),
          )
    ]
  ]

  -- The first row of an `ORDER BY … DESC`.
  pub sort-IsLatest : (xs : List A) (m : A) → head_of (sort later_first xs) ≡ some m → IsLatest m xs
  sort-IsLatest xs m h = elim (sort-cases xs) [
    | inl (p, q) ↦ absurd (cc (rw p at h))
    | inr (n, p, l) ↦ rw (some_injective (sym h ∙ p)) l
  ]

module _ {A : Type 0} (p : A → Bool) where
  In-keep : (a : A) (xs : List A) → In a (keep p xs) → In a xs × (p a ≡ true)
  In-keep a [] m = absurd m
  In-keep a (x ∷ xs) m = elim (Bool-cases (p x)) [
    | inl hit ↦ elim (subst (In a) (kept x xs hit) m) [
      | inl e ↦ (inl e, rw e hit)
      | inr n ↦ let r = In-keep a xs n in (inr r.0, r.1)
    ]
    | inr miss ↦ let r = In-keep a xs (subst (In a) (dropped x xs miss) m) in (inr r.0, r.1)
  ]
    where
      kept : (y : A) (ys : List A) → p y ≡ true → keep p (y ∷ ys) ≡ y ∷ keep p ys
      kept y ys h = rw h refl

      dropped : (y : A) (ys : List A) → p y ≡ false → keep p (y ∷ ys) ≡ keep p ys
      dropped y ys h = rw h refl

length-update :
    {A : Type 0} (p : A → Bool) (f : A → A) (xs : List A) → length (update_where p f xs) ≡ length xs
length-update p f [] = refl
length-update p f (x ∷ xs) = ap suc (length-update p f xs)

-- Where the exchange's client fails for a known instrument that has snapshots, a refresh raises the
-- client's error. Instruments, lots, corporate actions and the sheets' tables stay as they are, no
-- snapshot is added or lost, and the latest snapshot of the instrument gets the status
-- "refresh_error" and the first 2000 characters of the error.
pub refresh-IsFailed :
    (isin n error : Text) (client : MoexRefreshClient) (now : Time) (db : Portfolio)
    (i : BondInstrumentModel) (m : MarketSnapshotModel)
    → normalize_isin isin ≡ ok n
    → client n ≡ err error
    → instrument_of n db ≡ some i
    → latest_snapshot i.id db.markets ≡ some m
    → let (answer, after) = refresh isin client now db in
      (answer ≡ err (client_error error))
      × (after.instruments ≡ db.instruments)
      × (after.lots ≡ db.lots)
      × (after.actions ≡ db.actions)
      × (after.sheets ≡ db.sheets)
      × (length after.markets ≡ length db.markets)
      × In
          (record m { status = codes "refresh_error"; error_message = some (take 2000 error) })
          after.markets
      × (m.instrument_id ≡ i.id)
      × All
          (λ (x : MarketSnapshotModel). x.received_at ≤ m.received_at)
          (keep (λ (x : MarketSnapshotModel). x.instrument_id == i.id) db.markets)
unfolding refresh refresh_normalized record_refresh_error latest_snapshot
refresh-IsFailed isin n error client now db i m h k f l =
    let (here, latest) = sort-IsLatest (λ (x : MarketSnapshotModel). x.received_at) _ m l in
    let (stored, own) = In-keep _ m db.markets here in
    rw (h, refresh)
      (rw (k, refresh_normalized)
        (rw f (
          rw (l, record_refresh_error)
            (
              refl,
              refl,
              refl,
              refl,
              refl,
              length-update (λ (x : MarketSnapshotModel). x.id == m.id) (refresh_failed error)
                  db.markets,
              In-update (λ (x : MarketSnapshotModel). x.id) (refresh_failed error) m db.markets
                  stored,
              ground (arith, own),
              latest,
            ))))
