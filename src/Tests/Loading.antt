-- ===== src/Tests/Loading.antt =====
-- A configuration file with one plugin, and the credentials that come of it.
use dynamic_credential_provi.Base.{
  Dict, Text, [], codes, cut, has_byte, has_prefix, inl, inr, insert, lookup, none, ok, refl, some,
  text_eq, ◌↔◌, ◌∷◌, ◌≡◌,
}
use dynamic_credential_provi.Apiversions.{api_versions}
use dynamic_credential_provi.Kubernetes.{gv_string}
use dynamic_credential_provi.Api.{DynamicCredentialProviderConfig}
use dynamic_credential_provi.Tests.Samples.{auth, identity-IsFaithful, plain_lib}
use dynamic_credential_provi.Tests.Running.{
  provider_named, configuration, plugin_answer, selected, as_plugin, bin_files,
}
use dynamic_credential_provi.Tests.Exchanging.{wire_setup}
use dynamic_credential_provi.Tests.Serving.{plain_codec, request_kind}
use dynamic_credential_provi.Tests.Answering.{app_image}
use dynamic_credential_provi.Dynamic.Register.{
  register_plugin, register_credential_provider, new_provider_from_config_file,
  register_credential_provider_plugins, register_plugins, DynamicProvider,
}
use dynamic_credential_provi.Dynamic.Plugin.{new_plugin_provider, PluginProvider}
use dynamic_credential_provi.Commands.Loaded.{
  new_provider_from_config_file-IsGrantedBy, IsGrantedBy,
}
use dynamic_credential_provi.Commands.{run_get_credentials}
use dynamic_credential_provi.Go.Glob.{filepath_match}
use dynamic_credential_provi.Go.HostPort.{split_host_port}
use dynamic_credential_provi.Go.Strings.{split}
use dynamic_credential_provi.Dynamic.Response.Returns.{CanAnswer}
use dynamic_credential_provi.Urlglobber.Url.{parse_potentially_schemeless_url}
use dynamic_credential_provi.Urlglobber.Matcher.{
  split_url, split_host, urls_match_str, matched, urls_match,
}
use dynamic_credential_provi.Urlglobber.Matcher.Spec.{is_match}
use dynamic_credential_provi.Commands.Served.{
  IsRequest, providers_of, EncodesAll, run_get_credentials_serves_iff, CanRun-providers_of,
}

abbrev loaded_plugins : Dict PluginProvider
loaded_plugins = (codes "a", as_plugin "a") ∷ []

abbrev loaded_config : DynamicCredentialProviderConfig
loaded_config = configuration (some (record { providers = provider_named "a" ∷ [] }))

abbrev loaded_provider : DynamicProvider
loaded_provider = record { cfg = loaded_config; providers = loaded_plugins }

loaded :
    new_provider_from_config_file wire_setup.codec wire_setup.files (codes "cfg")
    ≡ ok loaded_provider
unfolding new_provider_from_config_file register_credential_provider_plugins register_plugins
    register_plugin register_credential_provider bin_files new_plugin_provider plain_codec
    api_versions lookup insert text_eq gv_string
loaded = refl

new_provider_from_config_file-IsGrantedBy_example :
    IsGrantedBy wire_setup loaded_config app_image (auth "origin")
new_provider_from_config_file-IsGrantedBy_example =
    new_provider_from_config_file-IsGrantedBy wire_setup (codes "cfg") app_image loaded_provider
      plugin_answer identity-IsFaithful loaded selected refl

app_image-IsRequest : IsRequest wire_setup.plugin_codec app_image app_image
unfolding plain_codec text_eq
app_image-IsRequest = record {
  interpreted = request_kind;
  interprets = refl;
  is_v1 = refl;
  requests = record { decoded = request_kind; decodes = refl; is_request = refl; in_group = refl };
  has_image = λ e. cc;
}

plain_codec-EncodesAll : EncodesAll wire_setup.plugin_codec
unfolding plain_codec
plain_codec-EncodesAll = record { has_encoder = refl; encodes = λ response. (codes "{}", refl) }

run_get_credentials_serves_iff_example :
    ((out : Text) × (run_get_credentials wire_setup
          (codes "cfg")
          (inr app_image)
          (λ t. (t, none))
          []
        ≡ (out, ok tt)))
    ↔ CanAnswer wire_setup.lib wire_setup.convert
        (providers_of wire_setup loaded_plugins)
        wire_setup.ref
        loaded_config.mirror
        app_image
run_get_credentials_serves_iff_example =
    run_get_credentials_serves_iff wire_setup (codes "cfg") app_image app_image (λ t. (t, none)) []
      loaded_provider identity-IsFaithful (λ t. refl) plain_codec-EncodesAll loaded
      app_image-IsRequest

-- The plugin of the file answers, so that the request is served.
served :
    (out : Text) × (run_get_credentials wire_setup (codes "cfg") (inr app_image) (λ t. (t, none)) []
      ≡ (out, ok tt))
unfolding is_match matched urls_match_str parse_potentially_schemeless_url plain_lib urls_match
    split_url split_host split_host_port split filepath_match has_prefix has_byte cut text_eq
served = run_get_credentials_serves_iff_example.1 (
    (CanRun-providers_of wire_setup app_image loaded_plugins).0
      (inr ((codes "*.io", inl refl, refl), (_, _, refl, refl)), tt))
