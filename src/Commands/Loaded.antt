-- ===== src/Commands/Loaded.antt =====
-- From the configuration file to the credentials: dynamic.go from its start.
use dynamic_credential_provi.Base.{
  Dict, In, Text, [], ap, map, none, ok, refl, some, subst, true, ◌∷◌, ◌≡◌,
}
use dynamic_credential_provi.Api.{
  DynamicCredentialProviderConfig, CredentialProvider, CredentialProviderConfig, AuthConfig,
  CredentialProviderResponse,
}
use dynamic_credential_provi.Dynamic.Register.{new_provider_from_config_file, DynamicProvider}
use dynamic_credential_provi.Dynamic.Plugin.{PluginProvider, new_plugin_provider, as_provider}
use dynamic_credential_provi.Commands.{Setup}
use dynamic_credential_provi.Dynamic.Select.{get_credentials_for_image, Found}
use dynamic_credential_provi.Dynamic.Whole.{In-map, get_credentials_for_image-Granted}
use dynamic_credential_provi.Dynamic.Provider.{IsFaithful}
use dynamic_credential_provi.Dynamic.Plugin.Laws.{Allowed}
use dynamic_credential_provi.Urlglobber.Matcher.Spec.{is_match}
use dynamic_credential_provi.Dynamic.Register.Origin.{
  new_plugin_provider-match_images, register_credential_provider_plugins-IsFrom,
  new_provider_from_config_file-registers,
}

-- A configured provider whose patterns match the image, whose binary is there, and which answered
-- for the image with these credentials under a key that covers it.
pub record IsGrantedBy (s : Setup) (config : DynamicCredentialProviderConfig) (image : Text)
    (credentials : AuthConfig) : Type 0 where
  pub providers : CredentialProviderConfig
  pub has_providers : config.credential_providers ≡ some providers
  pub grantor : CredentialProvider
  pub is_configured : In grantor providers.providers
  pub has_binary :
      s.files.stat_failure_of
        (s.files.join_dir config.credential_provider_plugin_bin_dir grantor.name)
      ≡ none
  pub matches : Allowed s.lib grantor.match_images image
  pub plugin_of : PluginProvider
  pub becomes :
      new_plugin_provider s.codec config.credential_provider_plugin_bin_dir grantor ≡ ok plugin_of
  pub reply : CredentialProviderResponse
  pub replied : s.execute plugin_of.plugin image ≡ ok reply
  pub key_of : Text
  pub lists : In (key_of, credentials) reply.auth
  pub covers_image : is_match s.lib key_of image ≡ true

map_snd :
    {A B : Type 0} (f : A → B) (m : Dict A)
    → map (λ (entry : Text × A). f entry.1) m ≡ map f (map (λ (entry : Text × A). entry.1) m)
map_snd f [] = refl
map_snd f (entry ∷ m) = ap (λ xs. f entry.1 ∷ xs) (map_snd f m)

-- With faithful conversions, credentials that the provider of a configuration file finds, asking
-- its plugins in the order of their registration, were answered for the image, under a key that
-- covers it, by the plugin of one of the providers in that file, whose patterns match the image and
-- whose binary was there.
pub new_provider_from_config_file-IsGrantedBy :
    (s : Setup) (f_name image : Text) (prov : DynamicProvider) (r : Found)
    → IsFaithful s.convert
    → new_provider_from_config_file s.codec s.files f_name ≡ ok prov
    → get_credentials_for_image s.lib s.convert image (
        map (λ (entry : Text × PluginProvider). as_provider s.lib s.execute entry.1) prov.providers)
      ≡ ok r
    → r.found ≡ true
    → IsGrantedBy s prov.cfg image r.auth_config
new_provider_from_config_file-IsGrantedBy s f_name image prov r faithful loaded found f =
    let granted =
      get_credentials_for_image-Granted s.lib s.convert image faithful s.execute
        (map (λ (entry : Text × PluginProvider). entry.1) prov.providers) r
        (rw (map_snd (as_provider s.lib s.execute) prov.providers) at found) f in
    let (entry, i, q) =
      In-map (λ (entry : Text × PluginProvider). entry.1) granted.plugin prov.providers
        granted.registered in
    let (providers, has, from) =
      register_credential_provider_plugins-IsFrom s.codec s.files prov.cfg prov.providers entry
        (new_provider_from_config_file-registers s.codec s.files f_name prov loaded) i in
    let becomes : new_plugin_provider s.codec prov.cfg.credential_provider_plugin_bin_dir
          from.config_entry
        ≡ ok granted.plugin =
      rw q from.made_from in
    record {
      providers = providers;
      has_providers = has;
      grantor = from.config_entry;
      is_configured = from.in_config;
      has_binary = from.binary_there;
      matches =
          subst (λ images. Allowed s.lib images image)
            (new_plugin_provider-match_images s.codec prov.cfg.credential_provider_plugin_bin_dir
              from.config_entry granted.plugin becomes)
            granted.allowed;
      plugin_of = granted.plugin;
      becomes = becomes;
      reply = granted.response;
      replied = granted.executed;
      key_of = granted.key;
      lists = granted.listed;
      covers_image = granted.covers;
    }
