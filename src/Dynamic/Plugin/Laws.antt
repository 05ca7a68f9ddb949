-- ===== src/Dynamic/Plugin/Laws.antt =====
-- A plugin is run for the images that it is configured for, and for no others.
use dynamic_credential_provi.Base.{
  All, Bool-cases, In, List, Result, Text, [], arith, false, inl, inr, ok, refl, some, true, ◌↔◌,
  ◌∷◌, ◌≡◌, ◌⊎◌,
}
use dynamic_credential_provi.Api.{CredentialProviderResponse}
use dynamic_credential_provi.Dynamic.Plugin.{
  image_allowed, plugin_provide, PluginProvider, ExecPlugin,
}
use dynamic_credential_provi.Urlglobber.Url.{UrlLib}
use dynamic_credential_provi.Urlglobber.Matcher.Spec.{matched_lem, is_match}

abbrev pub Allowed : UrlLib → List Text → Text → Type 0
Allowed lib match_images image = (m : Text) × In m match_images × (is_match lib m image ≡ true)

pub image_allowed-total :
    (lib : UrlLib) (match_images : List Text) (image : Text)
    → ((image_allowed lib match_images image ≡ ok true) × Allowed lib match_images image)
      ⊎ ((image_allowed lib match_images image ≡ ok false)
          × All (λ m. is_match lib m image ≡ false) match_images)
unfolding image_allowed
image_allowed-total lib [] image = inr (refl, tt)
image_allowed-total lib (m ∷ match_images) image = elim (Bool-cases (is_match lib m image)) [
  | inl t ↦ inl (ground (arith, matched_lem lib m image), (m, inl refl, t))
  | inr f ↦ elim (image_allowed-total lib match_images image) [
    | inl (e, (m', i, t)) ↦ inl (ground (arith, matched_lem lib m image), (m', inr i, t))
    | inr (e, a) ↦ inr (ground (arith, matched_lem lib m image), (f, a))
  ]
]

pub Allowed-false :
    (lib : UrlLib) (match_images : List Text) (image : Text)
    → Allowed lib match_images image
    → All (λ m. is_match lib m image ≡ false) match_images
    → ⊥
Allowed-false lib [] image (m, i, t) a = i
Allowed-false lib (x ∷ xs) image (m, inl e, t) (f, a) = absurd (ground arith)
Allowed-false lib (x ∷ xs) image (m, inr i, t) (f, a) = Allowed-false lib xs image (m, i, t) a

module _ (lib : UrlLib) (execute : ExecPlugin → Text → Result CredentialProviderResponse)
    (p : PluginProvider) (image : Text) where
  -- Provide answers with a response exactly if one of the configured patterns matches the image and
  -- running the plugin gives that response.
  pub plugin_provide_iff :
      (response : CredentialProviderResponse)
      → (plugin_provide lib execute p image ≡ ok (some response))
        ↔ (Allowed lib p.match_images image × (execute p.plugin image ≡ ok response))
  unfolding plugin_provide
  plugin_provide_iff response = (there, back)
    where
      there :
          plugin_provide lib execute p image ≡ ok (some response)
          → Allowed lib p.match_images image × (execute p.plugin image ≡ ok response)
      there h = elim (image_allowed-total lib p.match_images image) [
        | inl (e, a) ↦ (a, ground arith)
        | inr (e, n) ↦ absurd (ground arith)
      ]

      back :
          Allowed lib p.match_images image × (execute p.plugin image ≡ ok response)
          → plugin_provide lib execute p image ≡ ok (some response)
      back (a, r) = elim (image_allowed-total lib p.match_images image) [
        | inl (e, _) ↦ ground arith
        | inr (e, n) ↦ absurd (Allowed-false lib p.match_images image a n)
      ]
