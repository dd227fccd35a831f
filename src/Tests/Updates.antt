-- ===== src/Tests/Updates.antt =====
-- A concrete update.
use ceal_cli.Base.{ℕ, List, [], ◌∷◌, ◌++◌, codes, Option, none, some, false, refl, arith}
use ceal_cli.Base.Json.{Json, str, obj, field, end}
use ceal_cli.BoundedProcess.{ProcessResult}
use ceal_cli.StableUpdate.Version.{Rounding, split, number_from, is_version, compare_versions}
use ceal_cli.StableUpdate.Order.{numbers, Compares, AreSafe, compare_versions-Compares}
use ceal_cli.StableUpdate.{Host, Moment, before, afterwards, Release, Report, updated, linux_arm64}

-- The numbers of these tests are exact.
abbrev exactly : Rounding
exactly n = n

nine-AreSafe : AreSafe (numbers (codes "1.9.0"))
unfolding split number_from
nine-AreSafe = (omega arith, (omega arith, (omega arith, tt)))

ten-AreSafe : AreSafe (numbers (codes "1.10.0"))
unfolding split number_from
ten-AreSafe = (omega arith, (omega arith, (omega arith, tt)))

compare_versions-Compares_example :
    Compares
      (numbers (codes "1.9.0"))
      (numbers (codes "1.10.0"))
      (compare_versions exactly (codes "1.9.0") (codes "1.10.0"))
unfolding is_version split
compare_versions-Compares_example =
    compare_versions-Compares exactly (codes "1.9.0") (codes "1.10.0") (λ n h. refl) refl refl
      nine-AreSafe ten-AreSafe

abbrev answered : List ℕ → ProcessResult
answered out = record {
  code = some 0;
  signal = none;
  spawn_error = none;
  stdout = out;
  stderr = [];
  truncated = false;
  timed_out = false;
}

abbrev release : Release
release = record {
  command_path = codes "/r/ceal-linux-arm64";
  installer_path = codes "/r/install-ceal.sh";
  install_directory = codes "/i";
}

abbrev payload : Json → Json
payload version = obj (
    field "schema_version" (str "ceal.version.v1")
      (field "command" (str "ceal") (field "version" version end)))

-- The text of the one version is empty, that of the other is not.
abbrev parse_output : List ℕ → Option Json
parse_output [] = some (payload (str "1.9.0"))
parse_output (c ∷ cs) = some (payload (str "1.10.0"))

abbrev version_output : Moment → List ℕ
version_output before = []
version_output afterwards = 1 ∷ []

abbrev host : Host
host = record {
  resolve = λ m path. some release;
  run_version = λ m path. answered (version_output m);
  run_installer = λ r minimum. answered [];
  parse_yaml = parse_output;
  real_path = λ m path. some path;
  round = exactly;
  digest = λ path. some (codes "d1");
  command_in = λ directory. directory ++ codes "/ceal";
}

abbrev report : Report
report = record {
  status = updated;
  previous_version = codes "1.9.0";
  installed_version = codes "1.10.0";
  platform = linux_arm64;
  artifact_sha256 = codes "d1";
}
