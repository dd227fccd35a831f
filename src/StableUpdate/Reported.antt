-- ===== src/StableUpdate/Reported.antt =====
-- What a reported update rests on.
use ceal_cli.Base.{ℕ, List, some, true, ◌≡◌, ◌↔◌}
use ceal_cli.Base.Json.{Json}
use ceal_cli.Base.Outcome.{Outcome}
use ceal_cli.StableUpdate.Order.{numbers, Precedes}
use ceal_cli.StableUpdate.{
  Host, Release, before, afterwards, Readback, read_version, succeeded, Report, unchanged,
}

module _ (h : Host) where
  -- The two releases that were verified, the installer that succeeded between them, and the two
  -- versions that they reported, of which the second is not lower.
  pub record IsUpdate (path : List ℕ) (r : Report) : Type 0 where
    pub installed : Release
    pub previous : Readback
    pub replaced : Release
    pub current : Readback
    pub resolved : h.resolve before path ≡ some installed
    pub read : read_version h before installed.command_path ≡ some previous
    pub ran : succeeded (h.run_installer installed previous.version) ≡ true
    pub verified : h.resolve afterwards (h.command_in installed.install_directory) ≡ some replaced
    pub read_again : read_version h afterwards replaced.command_path ≡ some current
    pub previous_named : r.previous_version ≡ previous.version
    pub current_named : r.installed_version ≡ current.version
    pub digested : h.digest replaced.command_path ≡ some r.artifact_sha256
    pub not_older : ¬ Precedes (numbers current.version) (numbers previous.version)
    pub same_version : (r.status ≡ unchanged) ↔ (r.installed_version ≡ r.previous_version)
