-- ===== src/Build/Laws.antt =====
-- Which checkout the build compiles.
use temporal_nbd.Prelude.{◌≡◌, ◌↔◌, ◌⊎◌, true, none, some, String, ok, arith}
use temporal_nbd.Build.{Environment, join, required_proto, temporal_api_repo_root}

module _ (E : Environment) where
  -- The directory that the environment names, or the one beside the manifest where it names none.
  abbrev pub IsNamed : String → Type 0
  IsNamed root =
      (E.var "TEMPORAL_API_REPO" ≡ some root)
      ⊎ ((E.var "TEMPORAL_API_REPO" ≡ none)
          × (dir : String) × (E.var "CARGO_MANIFEST_DIR" ≡ some dir)
          × (root ≡ join dir "../api"))

  -- The build compiles the service from the checkout that the environment names, or from the one
  -- beside the manifest where it names none, and only if the protobuf file is there; a checkout that
  -- is named and lacks the file is an error, also where the other one has it.
  pub temporal_api_repo_root_exact :
      (root : String)
      → (temporal_api_repo_root E ≡ ok root)
        ↔ (IsNamed root × (E.exists (join root required_proto) ≡ true))
  unfolding temporal_api_repo_root
  temporal_api_repo_root_exact root = (ground arith, ground arith)
