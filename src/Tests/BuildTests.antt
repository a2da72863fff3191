-- ===== src/Tests/BuildTests.antt =====
-- The build script and the tests of the workspace on a small file system.
use temporal_nbd.Prelude.{◌≡◌, refl, false, none, some, ok, if◌then◌else◌}
use text.Mathlib.Text.{◌==◌}
use temporal_nbd.Build.{Environment, temporal_api_repo_root}
use temporal_nbd.Build.Versions.{
  Files, parse_go_directive, workspace_go_version_matches_temporal_go_mod,
}

-- No variable but that of cargo, and the checkout beside the manifest.
abbrev beside : Environment
beside = record {
  var = λ name. if name == "CARGO_MANIFEST_DIR" then some "/src/nbd" else none;
  exists = λ path. path == "/src/nbd/../api/temporal/api/workflowservice/v1/service.proto";
}

root_beside : temporal_api_repo_root beside ≡ ok "/src/nbd/../api"
unfolding temporal_api_repo_root
root_beside = refl

directive_trimmed :
    parse_go_directive "module x\r\n\r\n  go 1.23.2 \ntoolchain go1\n" ≡ some "1.23.2"
unfolding parse_go_directive
directive_trimmed = refl

directive_missing : parse_go_directive "module x\ngolang 1\n" ≡ none
unfolding parse_go_directive
directive_missing = refl

abbrev workspace : Files
workspace = record {
  canonicalize = λ path. some "/src";
  read_to_string = λ path.
      if path == "/src/go.work"
      then some "go 1.23.2\n\nuse ./temporal\n"
      else some "module temporal\n\ngo 1.23.2\n";
  exists = λ path. false;
}

versions_match : workspace_go_version_matches_temporal_go_mod workspace "/src/nbd" ≡ ok tt
unfolding workspace_go_version_matches_temporal_go_mod
versions_match = refl
