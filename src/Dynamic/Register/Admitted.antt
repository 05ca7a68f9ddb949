-- ===== src/Dynamic/Register/Admitted.antt =====
-- What registration makes of a configuration that the webhook has admitted.
use dynamic_credential_provi.Base.{
  All, Dict, List, Option-cases, Text, [], arith, crash, fatal, inl, inr, insert, lookup, none, ok,
  refl, some, true, ◌↔◌, ◌∷◌, ◌≡◌, ◌≢◌, ◌⊎◌,
}
use dynamic_credential_provi.Webhooks.Webhook.{admitted, validate_create}
use dynamic_credential_provi.Kubernetes.{config_object, Codec}
use dynamic_credential_provi.Apiversions.{api_versions}
use dynamic_credential_provi.Api.{
  CredentialProvider, DynamicCredentialProviderConfig, CredentialProviderConfig,
}
use dynamic_credential_provi.Dynamic.Register.{
  register_plugins, register_credential_provider_plugins, ConfigFiles, register_credential_provider,
  register_plugin,
}
use dynamic_credential_provi.Dynamic.Plugin.{new_plugin_provider, PluginProvider}
use dynamic_credential_provi.Dynamic.Register.Laws.{
  IsUsable, register_plugin-IsFresh, Unique, register_plugins_iff,
}
use dynamic_credential_provi.Urlglobber.Url.{UrlLib}
use dynamic_credential_provi.Webhooks.Webhook.Laws.{validate_create_iff}
use dynamic_credential_provi.Webhooks.Validation.Laws.{IsValidProvider}

module _ (codec : Codec) (files : ConfigFiles) (dir : Text) where
  register_plugin-taken :
      (p : CredentialProvider) (before : Dict PluginProvider) (old : PluginProvider)
      → IsUsable codec files dir p
      → lookup p.name before ≡ some old
      → register_plugin codec files dir p before ≡ crash fatal
  unfolding register_plugin register_credential_provider
  register_plugin-taken p before old (there, (found, made)) taken = ground arith

  -- Usable plugins are all registered, or a name is taken.
  register_plugins-ends :
      (ps : List CredentialProvider) (before : Dict PluginProvider)
      → All (IsUsable codec files dir) ps
      → (register_plugins codec files dir ps before ≡ crash fatal)
        ⊎ ((after : Dict PluginProvider) × (register_plugins codec files dir ps before ≡ ok after))
  unfolding register_plugins
  register_plugins-ends [] before a = inr (before, refl)
  register_plugins-ends (p ∷ ps) before ((there, (found, made)), a) =
      elim (Option-cases (lookup p.name before)) [
        | inl fresh ↦
            rw (register_plugin-IsFresh codec files dir p before found there made fresh)
              (register_plugins-ends ps (insert p.name found before) a)
        | inr (old, taken) ↦
            inl (rw (register_plugin-taken p before old (there, (found, made)) taken))
      ]

new_plugin_provider-known :
    (codec : Codec) (dir : Text) (p : CredentialProvider)
    → codec.supports_json ≡ true
    → lookup p.api_version (api_versions codec) ≢ none
    → (found : PluginProvider) × (new_plugin_provider codec dir p ≡ ok found)
unfolding new_plugin_provider
new_plugin_provider-known codec dir p json known =
    elim (Option-cases (lookup p.api_version (api_versions codec))) [
      | inl e ↦ absurd (known e)
      | inr (gv, e) ↦ rw e (rw json (_, refl))
    ]

module _ (codec : Codec) (lib : UrlLib) (files : ConfigFiles) (dir : Text) where
  -- The binary of the provider is in the directory.
  abbrev pub HasBinary : CredentialProvider → Type 0
  HasBinary p = files.stat_failure_of (files.join_dir dir p.name) ≡ none

  valid-IsUsable :
      (ps : List CredentialProvider)
      → codec.supports_json ≡ true
      → All (IsValidProvider codec lib) ps
      → All HasBinary ps
      → All (IsUsable codec files dir) ps
  valid-IsUsable [] json v b = tt
  valid-IsUsable (p ∷ ps) json (v, vs) (b, bs) = (
    (b, new_plugin_provider-known codec dir p json v.known_version),
    valid-IsUsable ps json vs bs,
  )

-- A configuration that the webhook has admitted, with its directory and binaries there, is
-- registered exactly if no two of its providers have one name, and ends the process exactly if two
-- have.
pub validate_create-registers :
    (codec : Codec) (lib : UrlLib) (files : ConfigFiles) (c : DynamicCredentialProviderConfig)
    (providers : CredentialProviderConfig)
    → validate_create codec lib (config_object c) ≡ ok admitted
    → c.credential_providers ≡ some providers
    → codec.supports_json ≡ true
    → files.stat_failure_of c.credential_provider_plugin_bin_dir ≡ none
    → All (HasBinary codec lib files c.credential_provider_plugin_bin_dir) providers.providers
    → (((plugins : Dict PluginProvider) × (register_credential_provider_plugins codec files c
            ≡ ok plugins))
        ↔ Unique providers.providers)
      × ((register_credential_provider_plugins codec files c ≡ crash fatal)
          ↔ (¬ Unique providers.providers))
unfolding register_credential_provider_plugins
validate_create-registers codec lib files c providers admits e json there binaries =
    let dir = c.credential_provider_plugin_bin_dir in
    let valid = (validate_create_iff codec lib c providers e).0 admits in
    let usable = valid-IsUsable codec lib files dir providers.providers json valid.1 binaries in
    let registered = register_plugins_iff codec files dir providers.providers in
    let same : register_credential_provider_plugins codec files c
        ≡ register_plugins codec files dir providers.providers [] =
      ground arith in
    rw same (
      (λ run. (registered.0 run).0, λ unique. registered.1 (unique, usable)),
      (
        λ twice unique. let (plugins, p) = registered.1 (unique, usable) in cc,
        λ twice. elim (register_plugins-ends codec files dir providers.providers [] usable) [
          | inl p ↦ p
          | inr run ↦ absurd (twice (registered.0 run).0)
        ],
      ),
    )
