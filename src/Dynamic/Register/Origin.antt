-- ===== src/Dynamic/Register/Origin.antt =====
-- Which configured provider a registered plugin comes from.
use dynamic_credential_provi.Base.{
  Bool, Dict, In, List, Option-cases, Result, Result-cases, Text, [], ap, arith, bind-ok, err,
  false, if◌then◌else◌, inl, inr, insert, leaf, lookup, none, ok, ok-injective, refl, some, sym,
  text_eq, true, wrapping, ◌>>=◌, ◌∙◌, ◌∷◌, ◌≡◌, ◌⊎◌,
}
use dynamic_credential_provi.Kubernetes.{
  config_object, unknown_object, request_object, response_object, Object, Codec, from_sum,
}
use dynamic_credential_provi.Apiversions.{api_versions}
use dynamic_credential_provi.Api.{
  CredentialProvider, CredentialProviderConfig, DynamicCredentialProviderConfig,
}
use dynamic_credential_provi.Dynamic.Register.{
  new_provider_from_config_file, register_credential_provider_plugins, register_plugins,
  ConfigFiles, DynamicProvider,
}
use dynamic_credential_provi.Dynamic.Plugin.{new_plugin_provider, PluginProvider}
use dynamic_credential_provi.Dynamic.Register.Laws.{register_plugin-eq-ok}

In-if :
    {A : Type 0} (test : Bool) (xs ys : List A) (x : A)
    → In x (if test then xs else ys)
    → In x xs ⊎ In x ys
In-if true xs ys x i = inl i
In-if false xs ys x i = inr i

In-insert :
    {V : Type 0} (key : Text) (value : V) (m : Dict V) (entry : Text × V)
    → In entry (insert key value m)
    → (entry.1 ≡ value) ⊎ In entry m
unfolding insert
In-insert key value [] entry (inl e) = inl (ap (λ x. x.1) e)
In-insert key value [] entry (inr i) = absurd i
In-insert key value ((other, old) ∷ m) entry i =
    elim (In-if (text_eq other key) ((key, value) ∷ m) ((other, old) ∷ insert key value m) entry
      i) [
        | inl (inl e) ↦ inl (ap (λ x. x.1) e)
        | inl (inr j) ↦ inr (inr j)
        | inr (inl e) ↦ inr (inl e)
        | inr (inr j) ↦ elim (In-insert key value m entry j) [ inl e ↦ inl e | inr k ↦ inr (inr k) ]
      ]

pub new_plugin_provider-match_images :
    (codec : Codec) (dir : Text) (p : CredentialProvider) (found : PluginProvider)
    → new_plugin_provider codec dir p ≡ ok found
    → found.match_images ≡ p.match_images
unfolding new_plugin_provider
new_plugin_provider-match_images codec dir p found h =
    elim (Option-cases (lookup p.api_version (api_versions codec))) [
      | inl e ↦ absurd (ground arith)
      | inr (gv, e) ↦ ground arith
    ]

module _ (codec : Codec) (files : ConfigFiles) where
  -- The plugin is what registration makes of one of the configured providers.
  pub record IsFrom (dir : Text) (ps : List CredentialProvider) (plugin : PluginProvider)
      : Type 0 where
    pub config_entry : CredentialProvider
    pub in_config : In config_entry ps
    pub binary_there : files.stat_failure_of (files.join_dir dir config_entry.name) ≡ none
    pub made_from : new_plugin_provider codec dir config_entry ≡ ok plugin

  IsFrom-cons :
      (dir : Text) (p : CredentialProvider) (ps : List CredentialProvider) (plugin : PluginProvider)
      → IsFrom dir ps plugin
      → IsFrom dir (p ∷ ps) plugin
  IsFrom-cons dir p ps plugin f = record {
    config_entry = f.config_entry;
    in_config = inr f.in_config;
    binary_there = f.binary_there;
    made_from = f.made_from;
  }

  register_plugins-IsFrom :
      (dir : Text) (ps : List CredentialProvider) (before after : Dict PluginProvider)
      (entry : Text × PluginProvider)
      → register_plugins codec files dir ps before ≡ ok after
      → In entry after
      → In entry before ⊎ IsFrom dir ps entry.1
  unfolding register_plugins
  register_plugins-IsFrom dir [] before after entry h i = inl (rw (← ok-injective h) at i)
  register_plugins-IsFrom dir (p ∷ ps) before after entry h i =
      let (mid, e, h') = bind-ok _ _ h in
      let (there, (new, made, fresh, m)) = register_plugin-eq-ok codec files dir p before mid e in
      elim (register_plugins-IsFrom dir ps mid after entry h' i) [
        | inl j ↦ elim (In-insert p.name new before entry (rw m at j)) [
          | inl q ↦ inr (record {
            config_entry = p;
            in_config = inl refl;
            binary_there = there;
            made_from = rw q made;
          })
          | inr k ↦ inl k
        ]
        | inr f ↦ inr (IsFrom-cons dir p ps entry.1 f)
      ]

  pub register_credential_provider_plugins-IsFrom :
      (cfg : DynamicCredentialProviderConfig) (after : Dict PluginProvider)
      (entry : Text × PluginProvider)
      → register_credential_provider_plugins codec files cfg ≡ ok after
      → In entry after
      → (config : CredentialProviderConfig) × (cfg.credential_providers ≡ some config)
        × IsFrom cfg.credential_provider_plugin_bin_dir config.providers entry.1
  unfolding register_credential_provider_plugins
  register_credential_provider_plugins-IsFrom cfg after entry h i =
      elim (Option-cases cfg.credential_providers) [
        | inl e ↦ let nothing : [] ≡ after = ground arith in absurd (rw (← nothing) at i)
        | inr (config, e) ↦
            let h' : register_plugins codec files cfg.credential_provider_plugin_bin_dir
                  config.providers []
                ≡ ok after =
              ground arith in
            elim (register_plugins-IsFrom cfg.credential_provider_plugin_bin_dir config.providers []
              after entry h' i) [ inl j ↦ absurd j | inr f ↦ (config, e, f) ]
      ]

  pub new_provider_from_config_file-registers :
      (f_name : Text) (prov : DynamicProvider)
      → new_provider_from_config_file codec files f_name ≡ ok prov
      → register_credential_provider_plugins codec files prov.cfg ≡ ok prov.providers
  unfolding new_provider_from_config_file
  new_provider_from_config_file-registers f_name prov h =
      let (text, _, h1) =
        bind-ok
          (wrapping "failed to read config file %q: %w" (f_name ∷ [])
            (from_sum (files.read_file f_name)))
          _ h in
      let (decoded, _, h2) =
        bind-ok
          (wrapping "failed to decode config file %q: %w" (f_name ∷ [])
            (from_sum (codec.decode text)))
          _ h1 in
      go decoded.0 h2
    where
      go :
          (object : Object)
          → ◌≡◌ {A = Result DynamicProvider}
              (elim object as (λ k. Result DynamicProvider) [
                | config_object config ↦ (do
                  providers ← register_credential_provider_plugins codec files config
                  ok (record { cfg = config; providers = providers }))
                | _ ↦ err (leaf "failed to convert %T to *DynamicCredentialProviderConfig" [])
              ])
              (ok prov)
          → register_credential_provider_plugins codec files prov.cfg ≡ ok prov.providers
      go (config_object other) q =
          elim (Result-cases (register_credential_provider_plugins codec files other)) [
            | inl (c, e) ↦ absurd (ground arith)
            | inr (inl (x, e)) ↦ absurd (ground arith)
            | inr (inr (found, e)) ↦
                let same : ◌≡◌ {A = DynamicProvider} (record { cfg = other; providers = found })
                    prov =
                  ok-injective (rw e at q) in
                ap (register_credential_provider_plugins codec files)
                  (sym (ap (λ (x : DynamicProvider). x.cfg) same))
                ∙ e
                ∙ ap (λ (x : DynamicProvider). ok x.providers) same
          ]
      go (request_object _) q = absurd (ground arith)
      go (response_object _) q = absurd (ground arith)
      go unknown_object q = absurd (ground arith)
