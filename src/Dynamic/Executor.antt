-- ===== src/Dynamic/Executor.antt =====
-- execPlugin of dynamic/plugin_executor.go: running a plugin's binary.
pub mod Laws
pub mod Environment
use dynamic_credential_provi.Base.{
  GoError, List, Option, Result, Text, [], codes, err, if◌then◌else◌, inl, inr, leaf, none, not, ok,
  some, text_eq, wrap, wrapping, ◌++◌, ◌>>=◌, ◌∷◌,
}
use dynamic_credential_provi.Api.{CredentialProviderResponse, EnvVar}
use dynamic_credential_provi.Kubernetes.{Codec, response_object, from_sum, gv_string}
use dynamic_credential_provi.Dynamic.Plugin.{ExecPlugin}

-- An `exec.Cmd`.
pub record Command : Type 0 where
  pub path : Text
  pub arguments : List Text
  pub env : List Text
  pub stdin : Text

-- What a finished command leaves: its standard output, `ctx.Err()` of the context with the timeout
-- of a minute, and the error of `cmd.Run()`.
pub record Finished : Type 0 where
  pub stdout : Text
  pub context_error : Option GoError
  pub run_error : Option GoError

-- What the executor uses of the system: `os.Environ`, `filepath.Join` and running a command.
pub record Runner : Type 0 where
  pub environ : List Text
  pub join_path : Text → Text → Text
  pub run : Command → Finished

unfoldable pub merge_env_vars : List Text → List Text → List Text
merge_env_vars sys_env_vars cred_provider_vars = sys_env_vars ++ cred_provider_vars

-- The loop over `e.envVars`.
unfoldable pub config_env_vars : List EnvVar → List Text
config_env_vars [] = []
config_env_vars (v ∷ env_vars) = (v.name ++ b'=' ∷ v.value) ∷ config_env_vars env_vars

unfoldable pub encode_plugin_request : Codec → ExecPlugin → Text → Result Text
encode_plugin_request codec p image =
    wrapping "error encoding request: %w" [] (from_sum (codec.encode_request p.encoder image))

unfoldable pub command_for : Runner → ExecPlugin → Text → Command
command_for runner p data_in = record {
  path = runner.join_path p.plugin_bin_dir p.name;
  arguments = p.args;
  env = merge_env_vars runner.environ (config_env_vars p.env_vars);
  stdin = data_in;
}

-- The error of the context goes before that of the command.
unfoldable pub check_run : ExecPlugin → Text → Finished → Result (Unit {0})
check_run p image done = elim done.context_error [
  | some e ↦
      err (
        wrap "error execing credential provider plugin %s for image %s: %w" (p.name ∷ image ∷ []) e)
  | none ↦ elim done.run_error [
    | some e ↦ err (
        wrap "error execing credential provider plugin %s for image %s: %w" (p.name ∷ image ∷ []) e)
    | none ↦ ok tt
  ]
]

unfoldable pub decode_plugin_response : Codec → Text → Result CredentialProviderResponse
decode_plugin_response codec text = elim (codec.decode text) [
  | inl e ↦ err e
  | inr (obj, gvk) ↦
      if not (text_eq gvk.kind (codes "CredentialProviderResponse"))
      then err
          (leaf "failed to decode CredentialProviderResponse, unexpected Kind: %q" (gvk.kind ∷ []))
      else if not (text_eq gvk.group_version.group codec.group_name)
      then err (
          leaf "failed to decode CredentialProviderResponse, unexpected Group: %s"
            (gvk.group_version.group ∷ []))
      else elim obj [
        | response_object response ↦ ok response
        | _ ↦ err (leaf "unable to convert %T to *CredentialProviderResponse" [])
      ]
]

-- The error of decoding is left out on purpose, since it may hold credentials.
unfoldable pub hide_error : Result CredentialProviderResponse → Result CredentialProviderResponse
hide_error (err e) = err (leaf "error decoding credential provider plugin response from stdout" [])
hide_error r = r

-- The part behind the run.
unfoldable pub read_response : Codec → ExecPlugin → Text → Result CredentialProviderResponse
read_response codec p stdout = do
  gvk ← wrapping "error reading GVK from response: %w" [] (from_sum (codec.interpret stdout))
  if not (text_eq (gv_string gvk.group_version) p.api_version)
      then err (
          leaf
            "apiVersion from credential plugin response did not match expected apiVersion:%s, actual apiVersion:%s"
            (p.api_version ∷ gv_string gvk.group_version ∷ []))
      else hide_error (decode_plugin_response codec stdout)

unfoldable pub exec_plugin : Codec → Runner → ExecPlugin → Text → Result CredentialProviderResponse
exec_plugin codec runner p image = do
  request ← wrapping "failed to encode auth request: %w" [] (encode_plugin_request codec p image)
  ran ← check_run p image (runner.run (command_for runner p request))
  read_response codec p (runner.run (command_for runner p request)).stdout
