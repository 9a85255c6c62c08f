-- ===== src/Auth/Library.antt =====
-- What auth.py takes from elsewhere: the Unicode tables behind `str.lower` and `str.isalnum`,
-- pwdlib's Argon2 hashes and hashlib's SHA-256.
use bond_trading.Prelude.{ℕ, Bool, Option}
use bond_trading.Prelude.Texts.{Text}

pub record AuthLibrary : Type 0 where
  pub lower : Text → Text
  pub is_alnum : ℕ → Bool
  pub hash_password : Text → Text
  -- of a password and a stored hash; none where the hash cannot be read
  pub verify_password : Text → Text → Option Bool
  pub token_hash : Text → Text
