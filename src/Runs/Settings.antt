-- ===== src/Runs/Settings.antt =====
-- internal/ingestionrun/repository.go, the settings that bound how many runs execute at once.
pub mod Swap
use dwh_v.Common.{ℕ, ◌∷◌, Bool, true, false, ◌&&◌, ◌==◌, if◌then◌else◌, Result, ok, err}
use dwh_v.Runs.Model.{
  RuntimeSettings, settings_valid, Store, RunError, runtime_settings_updated, settings_conflict,
  invalid_settings,
}
use dwh_v.Runs.Tx.{Tx, ◌>>=◌, ◌>>◌, pure, check, get, put}

abbrev pub settings_eq : RuntimeSettings → RuntimeSettings → Bool
settings_eq a b =
    a.max_running_jobs == b.max_running_jobs
    && (a.fixed_member_concurrency == b.fixed_member_concurrency
        && a.detail_concurrency == b.detail_concurrency)

-- `RuntimeSettings`: settings that are out of bounds are an error.
unfoldable pub runtime_settings : Tx RuntimeSettings
runtime_settings = do s ← get; check (settings_valid s.settings) invalid_settings; pure s.settings

-- `UpdateRuntimeSettings`: `false` if there is nothing to change.
unfoldable pub update_runtime_settings : RuntimeSettings → RuntimeSettings → Tx Bool
update_runtime_settings expected target = do
  check (settings_valid target) invalid_settings
  s ← get
  check (settings_valid s.settings) invalid_settings
  check (settings_eq s.settings expected) settings_conflict
  if settings_eq s.settings target then pure false else (do
    put (record s { settings = target; audits = (runtime_settings_updated, 0) ∷ s.audits })
    pure true)
