-- ===== src/Auth/Concrete.antt =====
-- Two administrators and a user, with a library of trivial hashes.
use bond_trading.Prelude.{ℕ, true, false, [], ◌∷◌, none, some}
use bond_trading.Prelude.Texts.{codes, text_eq}
use bond_trading.Database.{UserModel, UserRole, user, admin}
use bond_trading.Auth.Library.{AuthLibrary}
use bond_trading.Auth.{AuthTables, open_session}

-- A hash is the text itself.
abbrev pub plain : AuthLibrary
plain = record {
  lower = λ t. t;
  is_alnum = λ c. true;
  hash_password = λ t. t;
  verify_password = λ p h. some (text_eq p h);
  token_hash = λ t. t;
}

abbrev pub account : ℕ → UserRole → UserModel
account id role = record {
  id = id;
  created_at = 0;
  username = id ∷ [];
  email = id ∷ 64 ∷ [];
  password_hash = codes "long password";
  role = role;
  is_active = true;
  must_change_password = false;
  last_login_at = none;
}

abbrev pub tables : AuthTables
tables = record {
  users = account 101 admin ∷ account 102 admin ∷ account 103 user ∷ [];
  sessions = [];
  next_id = 200;
}

abbrev pub logged_in : AuthTables
logged_in = open_session plain (account 103 user) (codes "t") (codes "c") none 60 10 tables
