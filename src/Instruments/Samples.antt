-- ===== src/Instruments/Samples.antt =====
-- An instrument with one snapshot, refreshed by an answer with one corporate action.
use bond_trading.Prelude.{◌≤◌, ◌≡◌, refl, [], ◌∷◌, none, some, length, keep, All, ◌==◌}
use bond_trading.Prelude.Rows.{In}
use bond_trading.Prelude.Texts.{codes, strip, upper, upper_char}
use bond_trading.Prelude.Results.{ok, err}
use bond_trading.Database.{BondInstrumentModel, MarketSnapshotModel}
use bond_trading.Isin.{normalize_isin, isin_runs}
use bond_trading.Database.Concrete.{rounded_half_up}
use bond_trading.Lots.{Portfolio, new_instrument}
use bond_trading.Instruments.{
  MoexRefreshClient, client_error, instrument_of, latest_snapshot, new_market, refresh,
  refresh_runs, integrity_error,
}
use bond_trading.Instruments.Concrete.{isin, market, answer, action}
use bond_trading.Instruments.Refreshed.{refresh-refresh}
use bond_trading.Instruments.Stored.{IsStored, refresh-IsStored}
use bond_trading.Instruments.Failed.{refresh-IsFailed}

abbrev known : BondInstrumentModel
known = new_instrument 50 isin none 0

abbrev old_snapshot : MarketSnapshotModel
old_snapshot = new_market rounded_half_up 70 50 market

abbrev portfolio : Portfolio
portfolio = record {
  instruments = known ∷ [];
  lots = [];
  actions = [];
  markets = old_snapshot ∷ [];
  snapshots = [];
  settings = [];
  sheets = record { connections = []; jobs = []; next_id = 80 };
  next_id = 100;
  numerics = rounded_half_up;
}

abbrev answers : MoexRefreshClient
answers = λ asked. ok answer

abbrev fails : MoexRefreshClient
fails = λ asked. err (codes "timeout")

valid : normalize_isin (codes "ru000a0jx0j2") ≡ ok isin
unfolding isin_runs strip upper upper_char
valid = refl

refresh-IsStored_example :
    (i : BondInstrumentModel) × (m : MarketSnapshotModel) × ((refresh
        (codes "ru000a0jx0j2")
        answers
        10
        portfolio).0
      ≡ ok (i, m))
    × IsStored isin answer 10 portfolio (refresh (codes "ru000a0jx0j2") answers 10 portfolio).1 i m
refresh-IsStored_example =
    refresh-IsStored (codes "ru000a0jx0j2") isin answers answer 10 portfolio valid refl refl
      (tt, tt)

-- An answer with an action twice is refused.
repeated :
    (refresh isin (λ asked. ok (record answer { actions = action ∷ action ∷ [] })) 10 portfolio)
    ≡ (err integrity_error, portfolio)
unfolding refresh_runs isin_runs strip upper upper_char
repeated = refl

refresh-refresh_example :
    (refresh
      (codes "ru000a0jx0j2")
      answers
      20
      (refresh (codes "ru000a0jx0j2") answers 10 portfolio).1).1.actions
    ≡ (refresh (codes "ru000a0jx0j2") answers 10 portfolio).1.actions
refresh-refresh_example =
    refresh-refresh (codes "ru000a0jx0j2") isin answers answer 10 20 portfolio valid refl refl

found_known : instrument_of isin portfolio ≡ some known
unfolding instrument_of
found_known = refl

found_old : latest_snapshot 50 portfolio.markets ≡ some old_snapshot
unfolding latest_snapshot
found_old = refl

refresh-IsFailed_example :
    let (reply, after) = refresh (codes "ru000a0jx0j2") fails 10 portfolio in
    (reply ≡ err (client_error (codes "timeout")))
    × (after.instruments ≡ portfolio.instruments)
    × (after.lots ≡ portfolio.lots)
    × (after.actions ≡ portfolio.actions)
    × (after.sheets ≡ portfolio.sheets)
    × (length after.markets ≡ 1)
    × In
        (record old_snapshot {
          status = codes "refresh_error";
          error_message = some (codes "timeout");
        })
        after.markets
    × (old_snapshot.instrument_id ≡ 50)
    × All
        (λ (x : MarketSnapshotModel). x.received_at ≤ 9)
        (keep (λ (x : MarketSnapshotModel). x.instrument_id == 50) portfolio.markets)
refresh-IsFailed_example =
    refresh-IsFailed (codes "ru000a0jx0j2") isin (codes "timeout") fails 10 portfolio known
      old_snapshot valid refl found_known found_old
