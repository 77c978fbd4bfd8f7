-- ===== src/External/Files.antt =====
-- The file system, the environment and the calendar: `std::filesystem`, `std::ofstream`, `std::getenv`
-- and `std::localtime`.
use ccfolio.Common.{ℕ, Bool, Option}
use ccfolio.Common.Text.{Str}
use ccfolio.Common.Effect.{Outcome}

-- `F` is what the disk holds.
pub record Files (F : Type 0) : Type 0 where
  -- `std::filesystem::create_directories`, which may throw
  pub create_directories : Str → F → Outcome (Unit {0}) × F
  -- `open(path, std::ios::out | std::ios::app)`, and whether the file is open afterwards
  pub open_append : Str → F → Bool × F
  pub close : Str → F → F
  -- `std::getenv("HOME")`
  pub home : Option Str
  -- `"%Y-%m-%d"` of a local time
  pub local_date : ℕ → Str
