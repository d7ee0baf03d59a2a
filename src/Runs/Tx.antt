-- ===== src/Runs/Tx.antt =====
-- Transactions of internal/ingestionrun/repository.go on the tables of Runs.Model.
use dwh_v.Common.Transactions.{Transaction}
use dwh_v.Runs.Model.{Store, RunError}
pub use dwh_v.Common.Transactions.{
  pure, ◌>>=◌, ◌>>◌, check, get, put, or_fail, Committed, Keeps, IsPreorder, Keeps-bind, Keeps-then,
  Keeps-pure, Keeps-check, Keeps-get, Keeps-or_fail,
}

abbrev pub Tx {ℓ} : Type ℓ → Type ℓ
Tx A = Transaction Store RunError A
