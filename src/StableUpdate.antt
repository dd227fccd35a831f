-- ===== src/StableUpdate.antt =====
-- packages/ceal-worker-cli/src/stable-update.ts: `ceal update`. The installed release, the processes
-- that are run, the YAML parser and the file that is digested are parameters; a process's result is
-- that of BoundedProcess.
pub mod Version
pub mod Order
pub mod Reported
use ceal_cli.Base.{
  ℕ, List, [], ◌∷◌, ◌++◌, codes, Option, none, some, Bool, true, false, not, ◌&&◌, ◌||◌, ◌==◌,
  str_eq, String, if◌then◌else◌,
}
use ceal_cli.Base.Json.{Json, obj, str, get}
use ceal_cli.Base.Outcome.{Outcome, ok, err}
use ceal_cli.BoundedProcess.{Options, ProcessResult}
use ceal_cli.StoreFile.Calls.{same_name}
use ceal_cli.StoreFile.{ends_with}
use ceal_cli.StableUpdate.Version.{ℤ, is_negative, is_version, compare_versions, Rounding}

-- CealStableUpdateDeadlines
pub record Deadlines : Type 0 where
  pub version_readback_ms : ℕ
  pub installer_ms : ℕ
  pub termination_grace_ms : ℕ
  pub post_kill_report_ms : ℕ

-- DEFAULT_DEADLINES
abbrev pub default_deadlines : Deadlines
default_deadlines = record {
  version_readback_ms = 30000;
  installer_ms = 1800000;
  termination_grace_ms = 5000;
  post_kill_report_ms = 1000;
}

-- The bounds of the installer's process
abbrev pub installer_options : Deadlines → Options
installer_options d = record {
  timeout_ms = d.installer_ms;
  termination_grace_ms = d.termination_grace_ms;
  post_kill_report_ms = d.post_kill_report_ms;
  post_exit_drain_ms = 250;
  max_captured_output_bytes = 65536;
  timeout_start_marker = none;
  timeout_start_deadline_ms = none;
}

-- and of a version readback
abbrev pub readback_options : Deadlines → Options
readback_options d = record {
  timeout_ms = d.version_readback_ms;
  termination_grace_ms = d.termination_grace_ms;
  post_kill_report_ms = d.post_kill_report_ms;
  post_exit_drain_ms = 250;
  max_captured_output_bytes = 65536;
  timeout_start_marker = none;
  timeout_start_deadline_ms = none;
}

pub data Platform : Type 0 where
  linux_arm64 linux_amd64 darwin_arm64 darwin_amd64 : Platform

-- The platform at the end of a command's path: /ceal-((?:linux|darwin)-(?:arm64|amd64))$/u
unfoldable pub platform_of : List ℕ → Option Platform
platform_of path =
    if ends_with (codes "ceal-linux-arm64") path
    then some linux_arm64
    else if ends_with (codes "ceal-linux-amd64") path
    then some linux_amd64
    else if ends_with (codes "ceal-darwin-arm64") path
    then some darwin_arm64
    else if ends_with (codes "ceal-darwin-amd64") path
    then some darwin_amd64
    else none

pub record Release : Type 0 where
  pub command_path : List ℕ
  pub installer_path : List ℕ
  pub install_directory : List ℕ

-- Before the installer and after it.
pub data Moment : Type 0 where
  before afterwards : Moment

-- What the update takes from the host; none is a thrown error.
pub record Host : Type 0 where
  -- resolveInstalledWorkerRelease
  pub resolve : Moment → List ℕ → Option Release
  -- runBoundedProcess of `ceal version` and of the installer with its CEAL_MINIMUM_VERSION
  pub run_version : Moment → List ℕ → ProcessResult
  pub run_installer : Release → List ℕ → ProcessResult
  pub parse_yaml : List ℕ → Option Json
  pub real_path : Moment → List ℕ → Option (List ℕ)
  -- sha256(readFileSync(path))
  pub digest : List ℕ → Option (List ℕ)
  -- how Number rounds
  pub round : Rounding
  -- join(directory, "ceal")
  pub command_in : List ℕ → List ℕ

pub record Readback : Type 0 where
  pub version : List ℕ
  pub platform : Platform

abbrev pub is_text : String → Option Json → Bool
is_text s (some (str t)) = str_eq t s
is_text s _ = false

abbrev pub readback_of : Option Json → Option Platform → Option Readback
readback_of (some (str s)) (some platform) =
    if is_version (codes s) then some record { version = codes s; platform = platform } else none
readback_of _ _ = none

-- parseWorkerVersion, after realpathSync
unfoldable pub parse_worker_version : Json → List ℕ → Option Readback
parse_worker_version (obj fs) path =
    if is_text "ceal.version.v1" (get "schema_version" fs) && is_text "ceal" (get "command" fs)
    then readback_of (get "version" fs) (platform_of path)
    else none
parse_worker_version _ path = none

abbrev pub parse_readback : Option Json → Option (List ℕ) → Option Readback
parse_readback (some payload) (some path) = parse_worker_version payload path
parse_readback _ _ = none

abbrev pub is_zero : Option ℕ → Bool
is_zero (some n) = n == 0
is_zero none = false

abbrev pub is_empty : List ℕ → Bool
is_empty [] = true
is_empty _ = false

-- The result of a process that ended by itself with the exit code 0, all of its output read
abbrev pub succeeded : ProcessResult → Bool
succeeded run = not run.timed_out && is_zero run.code && not run.truncated

-- readVersion
unfoldable pub read_version : Host → Moment → List ℕ → Option Readback
read_version h m path =
    let run = h.run_version m path in
    if not (succeeded run) || not (is_empty run.stderr)
    then none
    else parse_readback (h.parse_yaml run.stdout) (h.real_path m path)

pub data Failure : Type 0 where
  update_unavailable update_readback_failed update_failed : Failure

pub data Status : Type 0 where
  unchanged updated : Status

pub record Report : Type 0 where
  pub status : Status
  pub previous_version : List ℕ
  pub installed_version : List ℕ
  pub platform : Platform
  pub artifact_sha256 : List ℕ

-- CealStableUpdateResult, or a thrown error
pub data UpdateResult : Type 0 where
  unavailable : Failure → UpdateResult
  reported : Report → UpdateResult
  crashed : UpdateResult

-- What onProgress is called with.
pub data Stage : Type 0 where
  check download_install verify installed_readback : Stage

abbrev pub update_status : List ℕ → List ℕ → Status
update_status current previous = if same_name current previous then unchanged else updated

abbrev pub report_of : Readback → Readback → Option (List ℕ) → UpdateResult
report_of previous current none = crashed
report_of previous current (some artifact) = reported record {
  status = update_status current.version previous.version;
  previous_version = previous.version;
  installed_version = current.version;
  platform = current.platform;
  artifact_sha256 = artifact;
}

abbrev pub judge : Readback → Readback → Option (List ℕ) → Outcome String ℤ → UpdateResult
judge previous current artifact (err _) = crashed
judge previous current artifact (ok difference) =
    if is_negative difference
    then unavailable update_readback_failed
    else report_of previous current artifact

module _ (h : Host) where
  abbrev pub after_readback : Readback → Release → Option Readback → UpdateResult
  after_readback previous installed none = unavailable update_readback_failed
  after_readback previous installed (some current) =
      judge previous current (h.digest installed.command_path)
        (compare_versions h.round current.version previous.version)

  abbrev pub after_verify : Readback → Option Release → UpdateResult × List Stage
  after_verify previous none =
      (unavailable update_readback_failed, check ∷ download_install ∷ verify ∷ [])
  after_verify previous (some installed) = (
    after_readback previous installed (read_version h afterwards installed.command_path),
    check ∷ download_install ∷ verify ∷ installed_readback ∷ [],
  )

  abbrev pub after_installer : Release → Readback → ProcessResult → UpdateResult × List Stage
  after_installer installed previous run =
      if run.timed_out
      then (unavailable update_failed, check ∷ download_install ∷ [])
      else if not (is_zero run.code) || run.truncated
      then (unavailable update_failed, check ∷ download_install ∷ [])
      else after_verify previous (h.resolve afterwards (h.command_in installed.install_directory))

  abbrev pub after_check : Release → Option Readback → UpdateResult × List Stage
  after_check installed none = (unavailable update_readback_failed, check ∷ [])
  after_check installed (some previous) =
      after_installer installed previous (h.run_installer installed previous.version)

  abbrev pub after_resolve : Option Release → UpdateResult × List Stage
  after_resolve none = (unavailable update_unavailable, check ∷ [])
  after_resolve (some installed) =
      after_check installed (read_version h before installed.command_path)

  -- The runner that createCealStableUpdateRunner returns, and the stages that it reports.
  unfoldable pub run_stable_update : List ℕ → UpdateResult × List Stage
  run_stable_update executable_path = after_resolve (h.resolve before executable_path)
