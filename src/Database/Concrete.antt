-- ===== src/Database/Concrete.antt =====
-- A database that rounds half up, for the tests.
use bond_trading.Prelude.{ℕ, ◌+◌, ◌-◌, ◌*◌, ◌/◌, ◌^◌, leb, if◌then◌else◌}
use bond_trading.Prelude.Int.{pos_part, neg_part, sub_ℕ}
use bond_trading.Database.{Numerics}

abbrev half_up : ℕ → ℕ → ℕ
half_up n p = (2 * n + p) / (2 * p)

abbrev pub rounded_half_up : Numerics
rounded_half_up places d = if leb d.scale places then d else record {
  coef =
      sub_ℕ (half_up (pos_part d.coef) (10 ^ (d.scale - places)))
        (half_up (neg_part d.coef) (10 ^ (d.scale - places)));
  scale = places;
}
