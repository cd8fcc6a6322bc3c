-- ===== src/Storage.antt =====
-- The databases of src/Storage. LevelDB is a parameter: a store of byte strings with what its
-- documentation promises of `Get` and `Put`. Keys are the identifiers whose bytes the program uses.
pub mod Blocks
pub mod Accounts
pub mod RoundTrip
pub mod Tests
use pqblockchain.Prelude.{ℕ, ◌≡◌, Option, some, List, ◌==◌, if◌then◌else◌}

-- What `Get` finds.
pub data Stored : Type 0 where
  value : List ℕ → Stored
  not_found get_failed : Stored

-- A put that succeeds is seen under its key, and under no other.
pub record Database : Type 1 where
  pub Db : Type 0
  pub get_value : Db → ℕ → Stored
  pub put_value : ℕ → List ℕ → Db → Option Db
  pub get-put :
      (id j : ℕ) (bytes : List ℕ) (db db' : Db)
      → put_value id bytes db ≡ some db'
      → get_value db' j ≡ (if id == j then value bytes else get_value db j)
