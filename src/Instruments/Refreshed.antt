-- ===== src/Instruments/Refreshed.antt =====
-- A refresh of an instrument with an answer: what it touches, and what it does a second time.
use bond_trading.Prelude.{
  Bool, true, ◌||◌, false, ◌≡◌, sym, subst, refl, ◌∙◌, ap, inl, inr, List, [], ◌∷◌, ◌++◌, Option,
  none, some, any, find, ◌==◌, Bool-cases, Option-cases, All, arith,
}
use bond_trading.Prelude.Rows.{find-snoc, find-none-any, find-update}
use bond_trading.Prelude.Texts.{Text, text_eq, text_eq_refl}
use bond_trading.Prelude.Results.{ok, err}
use bond_trading.Database.{Uuid, Time, BondInstrumentModel, CorporateActionModel}
use bond_trading.Isin.{normalize_isin}
use bond_trading.Lots.{Portfolio}
use bond_trading.Moex.{MoexInstrumentData, MoexCorporateActionData, MoexRefreshResult}
use bond_trading.Instruments.{
  MoexRefreshClient, apply_data, instrument_of, store_instrument, has_hash, add_action, add_actions,
  isin_clashes, actions_clash, integrity_error, add_market, store_result, refresh_normalized,
  refresh,
}

-- Each action of an answer is among the rows.
abbrev pub IsRecorded : Uuid → List MoexCorporateActionData → List CorporateActionModel → Type 0
IsRecorded instrument actions rows =
    All
      (λ (a : MoexCorporateActionData). any (has_hash instrument a.source_payload_hash) rows ≡ true)
      actions

any-append : {A : Type 0} (p : A → Bool) (xs ys : List A) → any p (xs ++ ys) ≡ any p xs || any p ys
any-append p [] ys = refl
any-append p (x ∷ xs) ys = ground (arith, any-append p xs ys)

-- Rows are only added.
add_action-grow :
    (p : CorporateActionModel → Bool) (known : List CorporateActionModel) (id : Uuid) (now : Time)
    (a : MoexCorporateActionData) (db : Portfolio)
    → any p db.actions ≡ true
    → any p (add_action known id now a db).actions ≡ true
unfolding add_action
add_action-grow p known id now a db h =
    elim (Bool-cases (any (has_hash id a.source_payload_hash) known)) [
      | inl old ↦ rw (old, add_action) h
      | inr new ↦ rw (new, add_action, any-append p db.actions, h) refl
    ]

add_actions-grow :
    (p : CorporateActionModel → Bool) (known : List CorporateActionModel) (id : Uuid) (now : Time)
    (actions : List MoexCorporateActionData) (db : Portfolio)
    → any p db.actions ≡ true
    → any p (add_actions known id now actions db).actions ≡ true
unfolding add_actions
add_actions-grow p known id now [] db h = h
add_actions-grow p known id now (a ∷ actions) db h =
    add_actions-grow p known id now actions _ (add_action-grow p known id now a db h)

-- The round of an action leaves a row with its hash, where the rows from before are still there.
add_action-recorded :
    (known : List CorporateActionModel) (id : Uuid) (now : Time) (a : MoexCorporateActionData)
    (db : Portfolio)
    → ((p : CorporateActionModel → Bool) → any p known ≡ true → any p db.actions ≡ true)
    → any (has_hash id a.source_payload_hash) (add_action known id now a db).actions ≡ true
unfolding add_action
add_action-recorded known id now a db h =
    elim (Bool-cases (any (has_hash id a.source_payload_hash) known)) [
      | inl old ↦ rw (old, add_action) (h _ old)
      | inr new ↦
          rw
            (
              new,
              add_action,
              any-append (has_hash id a.source_payload_hash) db.actions,
              text_eq_refl a.source_payload_hash,
            )
            (ground arith)
    ]

add_actions-IsRecorded :
    (known : List CorporateActionModel) (id : Uuid) (now : Time)
    (actions : List MoexCorporateActionData) (db : Portfolio)
    → ((p : CorporateActionModel → Bool) → any p known ≡ true → any p db.actions ≡ true)
    → IsRecorded id actions (add_actions known id now actions db).actions
unfolding add_actions
add_actions-IsRecorded known id now [] db h = tt
add_actions-IsRecorded known id now (a ∷ actions) db h = (
  add_actions-grow _ known id now actions _ (add_action-recorded known id now a db h),
  add_actions-IsRecorded known id now actions _
      (λ p k. add_action-grow p known id now a db (h p k)),
)

-- Actions whose hashes are known add no row.
add_actions-known :
    (known : List CorporateActionModel) (id : Uuid) (now : Time)
    (actions : List MoexCorporateActionData) (db : Portfolio)
    → IsRecorded id actions known
    → add_actions known id now actions db ≡ db
unfolding add_actions add_action
add_actions-known known id now [] db h = refl
add_actions-known known id now (a ∷ actions) db h =
    rw (h.0, add_action) (add_actions-known known id now actions db h.1)

-- The instrument that was stored is the one that its ISIN finds.
pub store_instrument-found :
    (isin : Text) (d : MoexInstrumentData) (now : Time) (db : Portfolio)
    → d.isin ≡ isin
    → let stored = store_instrument (instrument_of isin db) d now db in
      (instrument_of isin stored.1 ≡ some stored.0) × (stored.1.actions ≡ db.actions)
unfolding store_instrument instrument_of
store_instrument-found isin d now db e = elim (Option-cases (instrument_of isin db)) [
  | inl k ↦
      rw (k, store_instrument)
        (
          find-snoc _ _ db.instruments (find-none-any _ db.instruments k)
              (rw (e, text_eq_refl isin) refl),
          refl,
        )
  | inr (i, k) ↦
      rw (k, store_instrument)
        (
          find-update _ (λ j. j.id == i.id) (apply_data db.numerics d) db.instruments (λ j. refl) k
              (ground arith),
          refl,
        )
]

-- The actions' rounds touch nothing else.
abbrev SameOthers : Portfolio → Portfolio → Type 0
SameOthers db after =
    (after.instruments ≡ db.instruments)
    × (after.markets ≡ db.markets)
    × (after.lots ≡ db.lots)
    × (after.sheets ≡ db.sheets)
    × (after.numerics ≡ db.numerics)

add_action-SameOthers :
    (known : List CorporateActionModel) (id : Uuid) (now : Time) (a : MoexCorporateActionData)
    (db : Portfolio)
    → SameOthers db (add_action known id now a db)
unfolding add_action
add_action-SameOthers known id now a db =
    elim (Bool-cases (any (has_hash id a.source_payload_hash) known)) [
      | inl old ↦ rw (old, add_action) (refl, refl, refl, refl, refl)
      | inr new ↦ rw (new, add_action) (refl, refl, refl, refl, refl)
    ]

pub add_actions-SameOthers :
    (known : List CorporateActionModel) (id : Uuid) (now : Time)
    (actions : List MoexCorporateActionData) (db : Portfolio)
    → SameOthers db (add_actions known id now actions db)
unfolding add_actions
add_actions-SameOthers known id now [] db = (refl, refl, refl, refl, refl)
add_actions-SameOthers known id now (a ∷ actions) db =
    let first = add_action-SameOthers known id now a db in
    let rest = add_actions-SameOthers known id now actions (add_action known id now a db) in
    (rest.0 ∙ first.0, rest.1 ∙ first.1, rest.2 ∙ first.2, rest.3 ∙ first.3, rest.4 ∙ first.4)

pub store_instrument-markets :
    (found : Option BondInstrumentModel) (d : MoexInstrumentData) (now : Time) (db : Portfolio)
    → let stored = store_instrument found d now db in
      (stored.1.markets ≡ db.markets)
      × (stored.1.lots ≡ db.lots)
      × (apply_data db.numerics d stored.0 ≡ stored.0)
      × (stored.1.numerics ≡ db.numerics)
unfolding store_instrument
store_instrument-markets none d now db = (refl, refl, refl, refl)
store_instrument-markets (some i) d now db = (refl, refl, refl, refl)

-- The instrument is found by its ISIN with the data of an answer, and the answer's hashes are known.
pub record IsApplied (isin : Text) (r : MoexRefreshResult) (db after : Portfolio)
    (i : BondInstrumentModel) : Type 0 where
  pub found : instrument_of isin after ≡ some i
  pub data_applied : apply_data db.numerics r.instrument i ≡ i
  pub recorded : IsRecorded i.id r.actions after.actions
  pub numerics : after.numerics ≡ db.numerics

pub store_result-IsApplied :
    (isin : Text) (r : MoexRefreshResult) (now : Time) (db : Portfolio)
    → r.instrument.isin ≡ isin
    → let s = store_result (instrument_of isin db) r now db in IsApplied isin r db s.1 s.0.0
unfolding store_result add_market instrument_of
store_result-IsApplied isin r now db e =
    let stored = store_instrument (instrument_of isin db) r.instrument now db in
    let (found, acted) = store_instrument-found isin r.instrument now db e in
    let others = add_actions-SameOthers stored.1.actions stored.0.id now r.actions stored.1 in
    let kept = store_instrument-markets (instrument_of isin db) r.instrument now db in
    record {
      found =
          ap {B = Option BondInstrumentModel}
            (find (λ (j : BondInstrumentModel). text_eq j.isin isin)) others.0
          ∙ found;
      data_applied = kept.2;
      recorded =
          add_actions-IsRecorded stored.1.actions stored.0.id now r.actions stored.1 (λ p h. h);
      numerics = others.4 ∙ kept.3;
    }

-- The constraints that an answer breaks.
abbrev pub breaks : Text → MoexRefreshResult → Time → Portfolio → Bool
breaks isin r now db =
    isin_clashes (instrument_of isin db) r.instrument.isin db
    || actions_clash db.actions (store_result (instrument_of isin db) r now db).0.0.id r.actions

pub refreshed :
    (isin n : Text) (client : MoexRefreshClient) (r : MoexRefreshResult) (now : Time)
    (db : Portfolio)
    → normalize_isin isin ≡ ok n
    → client n ≡ ok r
    → breaks n r now db ≡ false
    → let s = store_result (instrument_of n db) r now db in
      refresh isin client now db ≡ (ok s.0, s.1)
unfolding refresh refresh_normalized
refreshed isin n client r now db h k b = rw (h, refresh) (rw (k, refresh_normalized) (rw b refl))

pub refresh_broken :
    (isin n : Text) (client : MoexRefreshClient) (r : MoexRefreshResult) (now : Time)
    (db : Portfolio)
    → normalize_isin isin ≡ ok n
    → client n ≡ ok r
    → breaks n r now db ≡ true
    → refresh isin client now db ≡ (err integrity_error, db)
unfolding refresh refresh_normalized
refresh_broken isin n client r now db h k b =
    rw (h, refresh) (rw (k, refresh_normalized) (rw b refl))

-- Actions whose hashes are known do not clash.
known-clash :
    (known : List CorporateActionModel) (id : Uuid) (actions : List MoexCorporateActionData)
    → IsRecorded id actions known
    → actions_clash known id actions ≡ false
unfolding actions_clash
known-clash known id [] h = refl
known-clash known id (a ∷ actions) h = rw h.0 (known-clash known id actions h.1)

again :
    (n : Text) (r : MoexRefreshResult) (later : Time) (t : Portfolio) (i : BondInstrumentModel)
    → instrument_of n t ≡ some i
    → apply_data t.numerics r.instrument i ≡ i
    → IsRecorded i.id r.actions t.actions
    → ((store_result (instrument_of n t) r later t).1.actions ≡ t.actions)
      × (breaks n r later t ≡ false)
unfolding store_result store_instrument add_market isin_clashes
again n r later t i f a c = rw f (
  ap (λ x. x.actions) (add_actions-known t.actions i.id later r.actions _ c),
  known-clash t.actions i.id r.actions c,
)

-- The time of a refresh does not show in the instrument's id.
stored_id :
    (found : Option BondInstrumentModel) (r : MoexRefreshResult) (later now : Time) (db : Portfolio)
    → (store_result found r later db).0.0.id ≡ (store_result found r now db).0.0.id
unfolding store_result store_instrument
stored_id none r later now db = refl
stored_id (some i) r later now db = refl

-- A refresh with the same answer a second time adds no corporate action.
pub refresh-refresh :
    (isin n : Text) (client : MoexRefreshClient) (r : MoexRefreshResult) (now later : Time)
    (db : Portfolio)
    → normalize_isin isin ≡ ok n
    → client n ≡ ok r
    → r.instrument.isin ≡ n
    → (refresh isin client later (refresh isin client now db).1).1.actions
      ≡ (refresh isin client now db).1.actions
refresh-refresh isin n client r now later db h k e = elim (Bool-cases (breaks n r now db)) [
  | inl broken ↦
      let still : breaks n r later db ≡ true =
        ap
          (λ id.
            isin_clashes (instrument_of n db) r.instrument.isin db
            || actions_clash db.actions id r.actions)
          (stored_id (instrument_of n db) r later now db)
        ∙ broken in
      rw (refresh_broken isin n client r now db h k broken)
        (rw (refresh_broken isin n client r later db h k still) refl)
  | inr fine ↦
      let t = store_result (instrument_of n db) r now db in
      let s = store_result-IsApplied n r now db e in
      let applied =
        subst (λ q. apply_data q r.instrument t.0.0 ≡ t.0.0) (sym s.numerics) s.data_applied in
      let (same, still) = again n r later t.1 t.0.0 s.found applied s.recorded in
      rw (refreshed isin n client r now db h k fine, refreshed isin n client r later t.1 h k still)
        same
]
