-- ===== src/Commands.antt =====
-- The commands under cmd/ that answer the kubelet: what their `RunE` and `main` do.
pub mod Laws
pub mod Exchange
pub mod Loaded
pub mod Chained
pub mod Served
use dynamic_credential_provi.Base.{
  GoError, List, Result, Text, [], codes, crash, err, map, none, ok, some, wrapping, ◌>>=◌, ◌∷◌,
  ◌⊎◌,
}
use dynamic_credential_provi.Dynamic.Provider.{Convert}
use dynamic_credential_provi.Static
use dynamic_credential_provi.Plugin
use dynamic_credential_provi.Dynamic.Response as Response
use dynamic_credential_provi.Kubernetes.{Codec}
use dynamic_credential_provi.Api.{CredentialProviderResponse}
use dynamic_credential_provi.Plugin.{Writer, CredentialSource}
use dynamic_credential_provi.Dynamic.Register.{
  new_provider_from_config_file, ConfigFiles, DynamicProvider,
}
use dynamic_credential_provi.Dynamic.Executor.{Finished}
use dynamic_credential_provi.Dynamic.Plugin.{PluginProvider, ExecPlugin, as_provider}
use dynamic_credential_provi.Urlglobber.Url.{UrlLib}
use dynamic_credential_provi.Urlglobber.Globber.{ReferenceLib}
use dynamic_credential_provi.Static.{new_provider}

abbrev pub default_credentials_file : Text
default_credentials_file = codes "/etc/kubernetes/image-credentials.json"

-- `args` are the arguments that cobra has accepted, at most one.
unfoldable pub credentials_file_for : List Text → Text
credentials_file_for (file ∷ []) = file
credentials_file_for _ = default_credentials_file

-- `RunE` of static-credential-provider. `os_args` is `os.Args[1:]`.
unfoldable pub run_static :
    Codec
    → (Text → GoError ⊎ Text)
    → List Text
    → GoError ⊎ Text
    → Writer
    → List Text
    → Text × Result (Unit {0})
run_static codec read_file args input w os_args =
    elim (wrapping "error initializing static credential provider: %w" []
      (Static.new_provider (credentials_file_for args))) [
        | err e ↦ ([], err e)
        | crash c ↦ ([], crash c)
        | ok provider ↦
            let (out, result) =
              Plugin.run codec (Static.get_credentials codec read_file provider)
                (record { stdin = input; stdout = w; arguments = os_args }) in
            (out, wrapping "error running static credential provider: %w" [] result)
      ]

-- What the dynamic provider is built over. `plugin_codec` is the codec of the plugin package, and
-- `execute` runs a plugin's binary.
pub record Setup : Type 1 where
  pub codec : Codec
  pub plugin_codec : Codec
  pub files : ConfigFiles
  pub lib : UrlLib
  pub convert : Convert
  pub ref : ReferenceLib
  pub execute : ExecPlugin → Text → Result CredentialProviderResponse

-- The dynamicProvider as a CredentialProvider: it visits the plugins in some order of the map
-- that holds them.
unfoldable pub dynamic_source : Setup → DynamicProvider → CredentialSource
dynamic_source s prov image args = do
  response ←
      Response.get_credentials s.lib s.convert
        (map (λ (entry : Text × PluginProvider). as_provider s.lib s.execute entry.1)
          prov.providers)
        s.ref prov.cfg.mirror image
  ok (some response)

-- The option `config` where no flag sets it.
abbrev pub default_config_file : Text
default_config_file =
    codes "/etc/kubernetes/image-credential-provider/dynamic-credential-provider.yaml"

-- `RunE` of get-credentials, with the option `config`.
unfoldable pub run_get_credentials :
    Setup → Text → GoError ⊎ Text → Writer → List Text → Text × Result (Unit {0})
run_get_credentials s config_file input w os_args =
    elim (wrapping "error initializing dynamic credential provider: %w" []
      (new_provider_from_config_file s.codec s.files config_file)) [
        | err e ↦ ([], err e)
        | crash c ↦ ([], crash c)
        | ok prov ↦
            let (out, result) =
              Plugin.run s.plugin_codec (dynamic_source s prov)
                (record { stdin = input; stdout = w; arguments = os_args }) in
            (out, wrapping "error running dynamic credential provider: %w" [] result)
      ]

-- `main` ends the process with a failure if the command returns an error; `exit_error` is what
-- `cmd.Run` reports of such a process to the one that started it.
unfoldable pub process_of : GoError → Text × Result (Unit {0}) → Finished
process_of exit_error (out, ok _) = record { stdout = out; context_error = none; run_error = none }
process_of exit_error (out, err e) = record {
  stdout = out;
  context_error = none;
  run_error = some exit_error;
}
process_of exit_error (out, crash c) = record {
  stdout = out;
  context_error = none;
  run_error = some exit_error;
}
