-- ===== src/Build/Versions.antt =====
-- The tests at the end of src/lib.rs: that the files of the workspace name one version of Go, and that
-- the code of the service was generated. A failed test is the message of its panic.
use Prim.Native.Char.{Char, code}
use text.Mathlib.Text.{starts_with, ◌==◌ as str_eq}
use temporal_nbd.Prelude.{
  ℕ, zero, suc, Bool, ◌&&◌, ◌||◌, ◌==◌, leb, Option, none, some, List, [], ◌∷◌, String,
  if◌then◌else◌, Result, ◌>>=◌, ok_or_else, fail_if, not,
}
use temporal_nbd.Build.{join}

-- `char::is_whitespace`
is_whitespace : ℕ → Bool
is_whitespace c =
    (leb 9 c && leb c 13)
    || c == 32
    || c == 133
    || c == 160
    || c == 5760
    || (leb 8192 c && leb c 8202)
    || c == 8232
    || c == 8233
    || c == 8239
    || c == 8287
    || c == 12288

abbrev prepend : Char → List String → List String
prepend c [] = String.◌∷◌ c "" ∷ []
prepend c (l ∷ ls) = String.◌∷◌ c l ∷ ls

-- `str::lines`
pub lines : String → List String
lines String.[] = []
lines (String.◌∷◌ c s) =
    let rest = lines s in
    if code c == 10
    then "" ∷ rest
    else if (code c == 13) && starts_with s "\n"
    then rest
    else prepend c rest

pub trim_start : String → String
unfolding is_whitespace
trim_start String.[] = ""
trim_start (String.◌∷◌ c s) = if is_whitespace (code c) then trim_start s else String.◌∷◌ c s

pub trim_end : String → String
unfolding is_whitespace
trim_end String.[] = ""
trim_end (String.◌∷◌ c s) =
    let rest = trim_end s in
    if is_whitespace (code c) && str_eq rest "" then "" else String.◌∷◌ c rest

unfoldable pub trim : String → String
unfolding trim_start trim_end
trim s = trim_end (trim_start s)

abbrev drop_chars : ℕ → String → String
drop_chars zero s = s
drop_chars (suc n) String.[] = ""
drop_chars (suc n) (String.◌∷◌ c s) = drop_chars n s

-- `find_map` with `strip_prefix("go ")`, over the trimmed lines.
pub find_go : List String → Option String
unfolding trim
find_go [] = none
find_go (l ∷ ls) =
    let line = trim l in
    if starts_with line "go " then some (trim (drop_chars 3 line)) else find_go ls

unfoldable pub parse_go_directive : String → Option String
unfolding lines find_go
parse_go_directive contents = find_go (lines contents)

-- `canonicalize` and `fs::read_to_string`, and whether a file exists.
pub record Files : Type 0 where
  pub canonicalize : String → Option String
  pub read_to_string : String → Option String
  pub exists : String → Bool

module _ (F : Files) where
  unfoldable pub workspace_go_version_matches_temporal_go_mod : String → Result (Unit {0}) String
  unfolding parse_go_directive
  workspace_go_version_matches_temporal_go_mod manifest_dir = do
    repo_root ← ok_or_else (F.canonicalize (join manifest_dir "..")) "repo root should resolve"
    go_work ← ok_or_else (F.read_to_string (join repo_root "go.work")) "go.work should exist"
    go_mod ←
        ok_or_else (F.read_to_string (join repo_root "temporal/go.mod"))
          "temporal/go.mod should exist"
    workspace_go ← ok_or_else (parse_go_directive go_work) "go.work must define a go directive"
    module_go ← ok_or_else (parse_go_directive go_mod) "temporal/go.mod must define a go directive"
    fail_if (not (str_eq workspace_go module_go))
        "go.work and temporal/go.mod must use the same go directive"

  abbrev pub generated_proto_set_includes_workflowservice : String → Bool
  generated_proto_set_includes_workflowservice out_dir =
      F.exists (join out_dir "temporal.api.workflowservice.v1.rs")
