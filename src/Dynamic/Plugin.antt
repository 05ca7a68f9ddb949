-- ===== src/Dynamic/Plugin.antt =====
-- pluginProvider of dynamic/plugin_executor.go, and its construction.
pub mod Laws
use dynamic_credential_provi.Base.{
  Bool, List, Option, Result, Text, [], codes, err, false, if◌then◌else◌, leaf, lookup, none, not,
  ok, pos, some, true, wrapping, ◌>>=◌, ◌∷◌,
}
use dynamic_credential_provi.Kubernetes.{Codec, GroupVersion}
use dynamic_credential_provi.Apiversions.{api_versions}
use dynamic_credential_provi.Api.{CredentialProviderResponse, Duration, EnvVar, CredentialProvider}
use dynamic_credential_provi.Dynamic.Provider.{Provider}
use dynamic_credential_provi.Urlglobber.Url.{UrlLib}
use dynamic_credential_provi.Urlglobber.Matcher.{matched}

-- An execPlugin. `encoder` is the version that requests are encoded for.
pub record ExecPlugin : Type 0 where
  pub name : Text
  pub api_version : Text
  pub encoder : GroupVersion
  pub args : List Text
  pub env_vars : List EnvVar
  pub plugin_bin_dir : Text

-- A pluginProvider; `none` is a nil duration.
pub record PluginProvider : Type 0 where
  pub match_images : List Text
  pub default_cache_duration : Option Duration
  pub plugin : ExecPlugin

unfoldable pub new_plugin_provider : Codec → Text → CredentialProvider → Result PluginProvider
new_plugin_provider codec plugin_bin_dir provider =
    if not codec.supports_json
    then err (leaf "unsupported media type %q" (codes "application/json" ∷ []))
    else elim (lookup provider.api_version (api_versions codec)) [
      | none ↦ err (leaf "invalid apiVersion: %q" (provider.api_version ∷ []))
      | some gv ↦ ok (record {
        match_images = provider.match_images;
        default_cache_duration = provider.default_cache_duration;
        plugin = record {
          name = provider.name;
          api_version = provider.api_version;
          encoder = gv;
          plugin_bin_dir = plugin_bin_dir;
          args = provider.args;
          env_vars = provider.env;
        };
      })
    ]

-- DefaultCacheDuration
unfoldable pub default_duration : PluginProvider → Duration
default_duration p = elim p.default_cache_duration [ none ↦ pos 0 | some d ↦ d ]

-- The loop of isImageAllowed.
unfoldable pub image_allowed : UrlLib → List Text → Text → Result Bool
image_allowed lib [] image = ok false
image_allowed lib (match_image ∷ match_images) image =
    let rest = image_allowed lib match_images image in
    (matched lib match_image image) >>= λ m. if m then ok true else rest

-- `execute` is what the `Do` of the single flight returns: what the execPlugin's ExecPlugin returns
-- for the image, be it to a call for the same image that overlaps.
unfoldable pub plugin_provide :
    UrlLib
    → (ExecPlugin → Text → Result CredentialProviderResponse)
    → PluginProvider
    → Text
    → Result (Option CredentialProviderResponse)
plugin_provide lib execute p image = do
  allowed ← image_allowed lib p.match_images image
  if allowed
      then (do
        response ←
            wrapping "error calling external credential provider: %w" [] (execute p.plugin image)
        ok (some response))
      else ok none

-- The pluginProvider as a Provider.
abbrev pub as_provider :
    UrlLib → (ExecPlugin → Text → Result CredentialProviderResponse) → PluginProvider → Provider
as_provider lib execute p = record {
  provide = plugin_provide lib execute p;
  default_cache_duration = default_duration p;
}
