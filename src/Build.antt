-- ===== src/Build.antt =====
-- build.rs: where the protobuf files of the service are looked for, and what is compiled. The
-- environment and the file system are parameters; a panic is the message that the code gives.
pub mod Laws
pub mod Versions
use Prim.Native.Char.{code}
use temporal_nbd.Prelude.{
  ℕ, Bool, true, false, ◌||◌, ◌==◌, Option, none, some, List, [], ◌∷◌, String, ◌<>◌, if◌then◌else◌,
  Result, ok, err, ◌>>=◌, fail_if, ◌>>◌, ok_or_else, not,
}

-- `env::var`, without its error, and `Path::exists`.
pub record Environment : Type 0 where
  pub var : String → Option String
  pub exists : String → Bool

-- The text is empty or ends in a slash.
abbrev pub ends_open : String → Bool
ends_open String.[] = true
ends_open (String.◌∷◌ c String.[]) = code c == b'/'
ends_open (String.◌∷◌ c (String.◌∷◌ d s)) = ends_open (String.◌∷◌ d s)

-- `PathBuf::join` of a relative path.
abbrev pub join : String → String → String
join base path = if ends_open base then base <> path else base <> ("/" <> path)

-- `REQUIRED`
abbrev pub required_proto : String
required_proto = "temporal/api/workflowservice/v1/service.proto"

module _ (E : Environment) where
  unfoldable pub temporal_api_repo_root : Result String String
  temporal_api_repo_root = elim (E.var "TEMPORAL_API_REPO") [
    | some candidate ↦
        if E.exists (join candidate required_proto)
        then ok candidate
        else err (
            "TEMPORAL_API_REPO does not contain "
            <> (required_proto <> (" (path: " <> (candidate <> ")"))))
    | none ↦ elim (E.var "CARGO_MANIFEST_DIR") [
      | none ↦ err "CARGO_MANIFEST_DIR must be set"
      | some manifest_dir ↦
          if E.exists (join (join manifest_dir "../api") required_proto)
          then ok (join manifest_dir "../api")
          else err
              "Temporal API repo not found. Set TEMPORAL_API_REPO to a checkout containing temporal/api/workflowservice/v1/service.proto"
    ]
  ]

  -- What is asked of the compiler of tonic.
  pub record Compilation : Type 0 where
    pub build_server : Bool
    pub protos : List String
    pub includes : List String

  -- The lines for cargo, and the compilation, or the panic before it.
  unfoldable pub main : List String × Result Compilation String
  main =
      let env_line : String = "cargo:rerun-if-env-changed=TEMPORAL_API_REPO" in
      elim temporal_api_repo_root [
        | err message ↦ (env_line ∷ [], err message)
        | ok api_repo ↦
            let workflow_service_proto : String =
              join api_repo "temporal/api/workflowservice/v1/service.proto" in
            let workflow_request_response_proto : String =
              join api_repo "temporal/api/workflowservice/v1/request_response.proto" in
            (
              env_line
                  ∷ ("cargo:rerun-if-changed=" <> workflow_service_proto)
                  ∷ ("cargo:rerun-if-changed=" <> workflow_request_response_proto)
                  ∷ [],
              ok (record {
                build_server = false;
                protos = workflow_service_proto ∷ [];
                includes = api_repo ∷ "/usr/include" ∷ "/usr/local/include" ∷ [];
              }),
            )
      ]
