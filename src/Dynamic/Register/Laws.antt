-- ===== src/Dynamic/Register/Laws.antt =====
-- Which plugins are registered, and that a name given twice is fatal.
use dynamic_credential_provi.Base.{
  All, Dict, GoError, List, Option, Text, [], arith, bind-ok, insert, lookup, lookup-insert, none,
  ok, refl, some, text_eq-false, text_eq_iff, text_eq_refl, wrapping-eq-ok, ◌↔◌, ◌∷◌, ◌≡◌, ◌≢◌,
}
use dynamic_credential_provi.Kubernetes.{Codec}
use dynamic_credential_provi.Api.{CredentialProvider}
use dynamic_credential_provi.Dynamic.Register.{
  register_plugins, ConfigFiles, register_credential_provider, register_plugin, inspected,
}
use dynamic_credential_provi.Dynamic.Plugin.{PluginProvider, new_plugin_provider}

abbrev pub Unique : List CredentialProvider → Type 0
Unique [] = Unit
Unique (p ∷ ps) = All (λ (q : CredentialProvider). p.name ≢ q.name) ps × Unique ps

inspected-eq-ok : (failure : Option GoError) {u : Unit} → inspected failure ≡ ok u → failure ≡ none
inspected-eq-ok none h = refl
inspected-eq-ok (some e) h = absurd (ground arith)

register_credential_provider-eq-ok :
    (name : Text) (found : PluginProvider) (before after : Dict PluginProvider)
    → register_credential_provider name found before ≡ ok after
    → (lookup name before ≡ none) × (after ≡ insert name found before)
unfolding register_credential_provider
register_credential_provider-eq-ok name found before after h = ground arith

module _ (codec : Codec) (files : ConfigFiles) (dir : Text) where
  -- The provider's binary is there, and the provider is registered under its name as it is configured.
  abbrev pub Registered : Dict PluginProvider → CredentialProvider → Type 0
  Registered providers p =
      (files.stat_failure_of (files.join_dir dir p.name) ≡ none)
      × ((found : PluginProvider) × (new_plugin_provider codec dir p ≡ ok found)
          × (lookup p.name providers ≡ some found))

  pub register_plugin-eq-ok :
      (p : CredentialProvider) (before after : Dict PluginProvider)
      → register_plugin codec files dir p before ≡ ok after
      → (files.stat_failure_of (files.join_dir dir p.name) ≡ none)
        × ((found : PluginProvider) × (new_plugin_provider codec dir p ≡ ok found)
            × (lookup p.name before ≡ none)
            × (after ≡ insert p.name found before))
  unfolding register_plugin register_credential_provider
  register_plugin-eq-ok p before after h =
      let (_, e1, h1) = bind-ok _ _ h in
      let (found, e2, h2) = bind-ok _ _ h1 in
      let (fresh, m) = register_credential_provider-eq-ok p.name found before after h2 in
      (inspected-eq-ok _ (wrapping-eq-ok _ _ _ e1), (found, wrapping-eq-ok _ _ _ e2, fresh, m))

  register_plugins-keep :
      (ps : List CredentialProvider) (before after : Dict PluginProvider) (name : Text)
      (found : PluginProvider)
      → register_plugins codec files dir ps before ≡ ok after
      → lookup name before ≡ some found
      → (lookup name after ≡ some found) × All (λ (q : CredentialProvider). name ≢ q.name) ps
  unfolding register_plugins
  register_plugins-keep [] before after name found h l = (ground arith, tt)
  register_plugins-keep (p ∷ ps) before after name found h l =
      let (mid, e, h') = bind-ok _ _ h in
      let (_, (new, _, fresh, m)) = register_plugin-eq-ok p before mid e in
      let n : name ≢ p.name = λ q. ground arith in
      let (kept, rest) =
        register_plugins-keep ps mid after name found h'
          (ground (arith, lookup-insert p.name name new before, text_eq_iff p.name name)) in
      (kept, (n, rest))

  -- If the plugins are registered without an error, no two of them have one name, the binary of
  -- each is there, and under its name stands what its configuration says.
  pub register_plugins-Registered :
      (ps : List CredentialProvider) (before after : Dict PluginProvider)
      → register_plugins codec files dir ps before ≡ ok after
      → Unique ps × All (Registered after) ps
  unfolding register_plugins
  register_plugins-Registered [] before after h = (tt, tt)
  register_plugins-Registered (p ∷ ps) before after h =
      let (mid, e, h') = bind-ok _ _ h in
      let (there, (new, made, fresh, m)) = register_plugin-eq-ok p before mid e in
      let (kept, others) =
        register_plugins-keep ps mid after p.name new h'
          (ground (arith, lookup-insert p.name p.name new before, text_eq_refl p.name)) in
      let (unique, registered) = register_plugins-Registered ps mid after h' in
      ((others, unique), ((there, (new, made, kept)), registered))

  -- The provider's binary is there, and its API version is known.
  abbrev pub IsUsable : CredentialProvider → Type 0
  IsUsable p =
      (files.stat_failure_of (files.join_dir dir p.name) ≡ none)
      × ((found : PluginProvider) × (new_plugin_provider codec dir p ≡ ok found))

  abbrev IsFresh : Dict PluginProvider → CredentialProvider → Type 0
  IsFresh providers p = lookup p.name providers ≡ none

  insert-IsFresh :
      (name : Text) (found : PluginProvider) (before : Dict PluginProvider)
      (ps : List CredentialProvider)
      → All (λ (q : CredentialProvider). name ≢ q.name) ps
      → All (IsFresh before) ps
      → All (IsFresh (insert name found before)) ps
  insert-IsFresh name found before [] a b = tt
  insert-IsFresh name found before (q ∷ ps) (n, a) (h, b) = (
    rw (lookup-insert name q.name found before, text_eq-false name q.name n) h,
    insert-IsFresh name found before ps a b,
  )

  pub register_plugin-IsFresh :
      (p : CredentialProvider) (before : Dict PluginProvider) (found : PluginProvider)
      → files.stat_failure_of (files.join_dir dir p.name) ≡ none
      → new_plugin_provider codec dir p ≡ ok found
      → IsFresh before p
      → register_plugin codec files dir p before ≡ ok (insert p.name found before)
  unfolding register_plugin register_credential_provider
  register_plugin-IsFresh p before found there made fresh = ground arith

  register_plugins-total :
      (ps : List CredentialProvider) (before : Dict PluginProvider)
      → Unique ps
      → All IsUsable ps
      → All (IsFresh before) ps
      → (after : Dict PluginProvider) × (register_plugins codec files dir ps before ≡ ok after)
  unfolding register_plugins
  register_plugins-total [] before u a b = (before, refl)
  register_plugins-total (p ∷ ps) before (n, u) ((there, (found, made)), a) (fresh, b) =
      let (after, e) =
        register_plugins-total ps (insert p.name found before) u a
          (insert-IsFresh p.name found before ps n b) in
      (after, rw (register_plugin-IsFresh p before found there made fresh) e)

  nothing-IsFresh : (ps : List CredentialProvider) → All (IsFresh []) ps
  unfolding lookup
  nothing-IsFresh [] = tt
  nothing-IsFresh (p ∷ ps) = (refl, nothing-IsFresh ps)

  usable :
      (after : Dict PluginProvider) (ps : List CredentialProvider)
      → All (Registered after) ps
      → All IsUsable ps
  usable after [] a = tt
  usable after (p ∷ ps) ((there, (found, made, _)), a) = ((there, (found, made)), usable after ps a)

  -- Starting from no plugins, the registration ends with some plugins registered exactly if no two
  -- of the configured ones have one name, the binary of each is there and its plugin provider can
  -- be made.
  pub register_plugins_iff :
      (ps : List CredentialProvider)
      → ((after : Dict PluginProvider) × (register_plugins codec files dir ps [] ≡ ok after))
        ↔ (Unique ps × All IsUsable ps)
  register_plugins_iff ps = (
    λ run.
        let (unique, registered) = register_plugins-Registered ps [] run.0 run.1 in
        (unique, usable run.0 ps registered),
    λ h. register_plugins-total ps [] h.0 h.1 (nothing-IsFresh ps),
  )
