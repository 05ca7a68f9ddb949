-- ===== src/Dynamic/Register.antt =====
-- NewProviderFromConfigFile and the registration of the plugins, of dynamic/dynamic.go.
pub mod Admitted
pub mod Laws
pub mod Origin
use dynamic_credential_provi.Base.{
  Dict, GoError, List, Option, Result, Text, [], crash, err, fatal, insert, leaf, lookup, none, ok,
  some, wrapping, ◌>>=◌, ◌∷◌, ◌⊎◌,
}
use dynamic_credential_provi.Api.{CredentialProvider, DynamicCredentialProviderConfig}
use dynamic_credential_provi.Kubernetes.{Codec, config_object, from_sum}
use dynamic_credential_provi.Dynamic.Plugin.{PluginProvider, new_plugin_provider}

-- What the registration uses of the system: `os.ReadFile`, the error of `os.Stat`, and
-- `filepath.Join`.
pub record ConfigFiles : Type 0 where
  pub read_file : Text → GoError ⊎ Text
  pub stat_failure_of : Text → Option GoError
  pub join_dir : Text → Text → Text

-- A provider that is there already ends the process.
unfoldable pub register_credential_provider :
    Text → PluginProvider → Dict PluginProvider → Result (Dict PluginProvider)
register_credential_provider name provider providers = elim (lookup name providers) [
  | some found ↦ crash fatal
  | none ↦ ok (insert name provider providers)
]

abbrev pub inspected : Option GoError → Result (Unit {0})
inspected none = ok tt
inspected (some e) = err e

module _ (codec : Codec) (files : ConfigFiles) (plugin_bin_dir : Text) where
  -- One round of the loop.
  unfoldable pub register_plugin :
      CredentialProvider → Dict PluginProvider → Result (Dict PluginProvider)
  register_plugin provider providers = do
    there ←
        wrapping "error inspecting binary executable %q: %w"
          (files.join_dir plugin_bin_dir provider.name ∷ [])
          (inspected (files.stat_failure_of (files.join_dir plugin_bin_dir provider.name)))
    plugin_provider ←
        wrapping "error initializing plugin provider %q: %w" (provider.name ∷ [])
          (new_plugin_provider codec plugin_bin_dir provider)
    register_credential_provider provider.name plugin_provider providers

  unfoldable pub register_plugins :
      List CredentialProvider → Dict PluginProvider → Result (Dict PluginProvider)
  register_plugins [] providers = ok providers
  register_plugins (provider ∷ rest) providers = do
    providers' ← register_plugin provider providers
    register_plugins rest providers'

unfoldable pub register_credential_provider_plugins :
    Codec → ConfigFiles → DynamicCredentialProviderConfig → Result (Dict PluginProvider)
register_credential_provider_plugins codec files cfg = elim cfg.credential_providers [
  | none ↦ ok []
  | some config ↦ (do
    there ←
        wrapping "error inspecting plugin binary directory %q: %w"
          (cfg.credential_provider_plugin_bin_dir ∷ [])
          (inspected (files.stat_failure_of cfg.credential_provider_plugin_bin_dir))
    register_plugins codec files cfg.credential_provider_plugin_bin_dir config.providers [])
]

-- A dynamicProvider: its configuration, and the plugins that are registered. The mutex is left
-- out.
pub record DynamicProvider : Type 0 where
  pub cfg : DynamicCredentialProviderConfig
  pub providers : Dict PluginProvider

unfoldable pub new_provider_from_config_file : Codec → ConfigFiles → Text → Result DynamicProvider
new_provider_from_config_file codec files f_name = do
  text ←
      wrapping "failed to read config file %q: %w" (f_name ∷ []) (from_sum (files.read_file f_name))
  decoded ←
      wrapping "failed to decode config file %q: %w" (f_name ∷ []) (from_sum (codec.decode text))
  elim decoded.0 [
    | config_object config ↦ (do
      providers ← register_credential_provider_plugins codec files config
      ok (record { cfg = config; providers = providers }))
    | _ ↦ err (leaf "failed to convert %T to *DynamicCredentialProviderConfig" [])
  ]
