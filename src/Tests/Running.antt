-- ===== src/Tests/Running.antt =====
-- Registering, running and validating plugins on concrete configurations.
use dynamic_credential_provi.Base.{
  All, Dict, Option, Result, String, Text, [], codes, cut, has_byte, has_prefix, inr, insert,
  lookup, map, none, ok, pos, refl, some, text_eq, text_lt, trim_prefix, true, ◌++◌, ◌↔◌, ◌∷◌, ◌≡◌,
  ◌≢◌,
}
use dynamic_credential_provi.Webhooks.Webhook.{admitted, validate, validate_create}
use dynamic_credential_provi.Webhooks.Validation.{
  root, name_errors, api_version_errors, match_image_errors, validate_credential_provider_config,
  providers_errors, provider_errors, duration_errors,
}
use dynamic_credential_provi.Kubernetes.{config_object, gv_string}
use dynamic_credential_provi.Apiversions.{api_versions}
use dynamic_credential_provi.Api.{
  CredentialProvider, CredentialProviderConfig, DynamicCredentialProviderConfig, image_cache,
  CredentialProviderResponse,
}
use dynamic_credential_provi.Tests.Samples.{plain_lib, auth, identity}
use dynamic_credential_provi.Tests.Answering.{app_image}
use dynamic_credential_provi.Dynamic.Register.{
  register_plugin, register_plugins, register_credential_provider, ConfigFiles,
}
use dynamic_credential_provi.Dynamic.Executor.{
  read_response, exec_plugin, command_for, encode_plugin_request, Runner, check_run,
  decode_plugin_response, hide_error,
}
use dynamic_credential_provi.Dynamic.Plugin.{
  plugin_provide, PluginProvider, new_plugin_provider, default_duration, as_provider, image_allowed,
  ExecPlugin,
}
use dynamic_credential_provi.Dynamic.Register.Laws.{
  Registered, Unique, register_plugins-Registered, IsUsable, register_plugins_iff,
}
use dynamic_credential_provi.Dynamic.Executor.Environment.{effective-command_for, effective}
use dynamic_credential_provi.Dynamic.Executor.Laws.{Executed, exec_plugin_iff}
use dynamic_credential_provi.Urlglobber.Url.{parse_potentially_schemeless_url}
use dynamic_credential_provi.Webhooks.Validation.Laws.{
  validate_credential_provider_config_iff, IsValidProvider,
}
use dynamic_credential_provi.Go.Glob.{filepath_match}
use dynamic_credential_provi.Go.HostPort.{split_host_port}
use dynamic_credential_provi.Go.Strings.{split}
use dynamic_credential_provi.Dynamic.Select.{Found, get_credentials_for_image}
use dynamic_credential_provi.Urlglobber.Matcher.{
  split_url, matched, urls_match, split_host, urls_match_str,
}
use dynamic_credential_provi.Tests.Serving.{request_kind, plain_codec, small_response}

abbrev pub v1_text : Text
v1_text = codes "credentialprovider.kubelet.k8s.io/v1"

abbrev pub provider_named : String → CredentialProvider
provider_named name = record {
  name = codes name;
  match_images = codes "*.io" ∷ [];
  default_cache_duration = some (pos 5);
  api_version = v1_text;
  args = [];
  env = record { name = codes "HOME"; value = codes "plugins" } ∷ [];
}

abbrev pub as_plugin : String → PluginProvider
as_plugin name = record {
  match_images = codes "*.io" ∷ [];
  default_cache_duration = some (pos 5);
  plugin = record {
    name = codes name;
    api_version = v1_text;
    encoder = request_kind.group_version;
    plugin_bin_dir = codes "bin";
    args = [];
    env_vars = record { name = codes "HOME"; value = codes "plugins" } ∷ [];
  };
}

unfoldable pub bin_files : ConfigFiles
bin_files = record {
  read_file = λ p. inr [];
  stat_failure_of = λ p. none;
  join_dir = λ dir name. dir ++ b'/' ∷ name;
}

runner : Runner
runner = record {
  environ = (codes "HOME=old") ∷ (codes "PATH=all") ∷ [];
  join_path = λ dir name. dir ++ b'/' ∷ name;
  run = λ cmd. record { stdout = codes "!"; context_error = none; run_error = none };
}

registered :
    register_plugins plain_codec bin_files
      (codes "bin")
      (provider_named "a" ∷ provider_named "b" ∷ [])
      []
    ≡ ok ((codes "a", as_plugin "a") ∷ (codes "b", as_plugin "b") ∷ [])
unfolding register_plugins register_plugin register_credential_provider bin_files
    new_plugin_provider plain_codec api_versions lookup insert text_eq gv_string
registered = refl

register_plugins-Registered_example :
    Unique (provider_named "a" ∷ provider_named "b" ∷ [])
    × All
        (Registered plain_codec bin_files
          (codes "bin")
          ((codes "a", as_plugin "a") ∷ (codes "b", as_plugin "b") ∷ []))
        (provider_named "a" ∷ provider_named "b" ∷ [])
register_plugins-Registered_example =
    register_plugins-Registered plain_codec bin_files (codes "bin")
      (provider_named "a" ∷ provider_named "b" ∷ []) []
      ((codes "a", as_plugin "a") ∷ (codes "b", as_plugin "b") ∷ []) registered

register_plugins_iff_example :
    ((after : Dict PluginProvider) × (register_plugins plain_codec bin_files
          (codes "bin")
          (provider_named "a" ∷ provider_named "b" ∷ [])
          []
        ≡ ok after))
    ↔ (Unique (provider_named "a" ∷ provider_named "b" ∷ [])
        × All
            (IsUsable plain_codec bin_files (codes "bin"))
            (provider_named "a" ∷ provider_named "b" ∷ []))
register_plugins_iff_example =
    register_plugins_iff plain_codec bin_files (codes "bin")
      (provider_named "a" ∷ provider_named "b" ∷ [])

exec_plugin_iff_example :
    (exec_plugin plain_codec runner (as_plugin "a").plugin app_image ≡ ok small_response)
    ↔ Executed plain_codec runner (as_plugin "a").plugin app_image small_response
exec_plugin_iff_example =
    exec_plugin_iff plain_codec runner (as_plugin "a").plugin app_image small_response

-- The stored response is of the version that the plugin is provider_named for.
executed : exec_plugin plain_codec runner (as_plugin "a").plugin app_image ≡ ok small_response
unfolding exec_plugin encode_plugin_request check_run read_response hide_error
    decode_plugin_response command_for runner plain_codec text_eq gv_string
executed = refl

effective-command_for_example :
    effective (codes "HOME") (command_for runner (as_plugin "a").plugin app_image).env
    ≡ some (codes "plugins")
unfolding runner has_byte text_eq cut
effective-command_for_example =
    effective-command_for runner (as_plugin "a").plugin app_image (codes "HOME") (refl, tt)

abbrev pub configuration : Option CredentialProviderConfig → DynamicCredentialProviderConfig
configuration providers = record {
  name = codes "config";
  mirror = none;
  credential_providers = providers;
  credential_provider_plugin_bin_dir = codes "bin";
}

validate_credential_provider_config_iff_example :
    (validate_credential_provider_config plain_codec plain_lib
        (some (record { providers = provider_named "a" ∷ [] }))
        (root "credentialProviders")
      ≡ ok [])
    ↔ ((provider_named "a" ∷ [] ≢ [])
        × All (IsValidProvider plain_codec plain_lib) (provider_named "a" ∷ []))
validate_credential_provider_config_iff_example =
    validate_credential_provider_config_iff plain_codec plain_lib
      (record { providers = provider_named "a" ∷ [] }) (root "credentialProviders")

-- A valid configuration is admitted.
pub admits :
    validate_create plain_codec plain_lib
      (config_object (configuration (some (record { providers = provider_named "a" ∷ [] }))))
    ≡ ok admitted
unfolding validate_create validate validate_credential_provider_config providers_errors
    provider_errors name_errors api_version_errors match_image_errors duration_errors plain_codec
    plain_lib parse_potentially_schemeless_url has_byte text_eq lookup api_versions gv_string
    has_prefix cut trim_prefix
admits = refl

-- A plugin whose binary answers with credentials for everything below `foo.io`.
abbrev pub answering : ExecPlugin → Text → Result CredentialProviderResponse
answering p image = ok (record {
  cache_key_type = image_cache;
  cache_duration = none;
  auth = (codes "foo.io", auth "origin") ∷ [];
})

abbrev pub plugin_answer : Found
plugin_answer = record { auth_config = auth "origin"; cache_duration = pos 5; found = true }

pub selected :
    get_credentials_for_image plain_lib identity app_image
      (map (as_provider plain_lib answering) (as_plugin "a" ∷ []))
    ≡ ok plugin_answer
unfolding get_credentials_for_image plugin_provide image_allowed default_duration text_lt matched
    urls_match_str parse_potentially_schemeless_url plain_lib urls_match split_url split_host
    split_host_port split filepath_match has_prefix has_byte cut text_eq
selected = refl
