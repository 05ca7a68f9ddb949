-- ===== src/Commands/Served.antt =====
-- Which requests get-credentials serves.
use dynamic_credential_provi.Base.{
  All, Dict, List, Result-cases, Text, [], arith, bind-ok, false, inl, inr, map, ok, ok-injective,
  refl, some, subst, sym, true, ◌↔◌, ◌∙◌, ◌∷◌, ◌≡◌, ◌≢◌, ◌⊎◌,
}
use dynamic_credential_provi.Dynamic.Response as Response
use dynamic_credential_provi.Commands.{run_get_credentials, dynamic_source, Setup}
use dynamic_credential_provi.Kubernetes.{same_group_version, GroupVersionKind, Codec}
use dynamic_credential_provi.Api.{CredentialProviderResponse}
use dynamic_credential_provi.Plugin.{Writer}
use dynamic_credential_provi.Dynamic.Register.{new_provider_from_config_file, DynamicProvider}
use dynamic_credential_provi.Dynamic.Provider.{Provider, IsFaithful}
use dynamic_credential_provi.Dynamic.Plugin.{PluginProvider, plugin_provide, as_provider}
use dynamic_credential_provi.Dynamic.Select.Answers.{HasAnswer}
use dynamic_credential_provi.Dynamic.Response.Returns.{get_credentials_returns_iff, CanAnswer}
use dynamic_credential_provi.Dynamic.Plugin.Laws.{
  Allowed, image_allowed-total, Allowed-false, plugin_provide_iff,
}
use dynamic_credential_provi.Urlglobber.Matcher.Spec.{is_match}
use dynamic_credential_provi.Commands.Laws.{run_get_credentials_iff, IsLossless}
use dynamic_credential_provi.Plugin.Answers.{Answers, Requests}

-- The request is a v1 request for this image, which is not empty.
pub record IsRequest (codec : Codec) (request image : Text) : Type 0 where
  pub interpreted : GroupVersionKind
  pub interprets : codec.interpret request ≡ inr interpreted
  pub is_v1 : same_group_version interpreted.group_version codec.v1 ≡ true
  pub requests : Requests codec request image
  pub has_image : image ≢ []

-- Every response can be encoded.
pub record EncodesAll (codec : Codec) : Type 0 where
  pub has_encoder : codec.supports_json ≡ true
  pub encodes :
      (response : CredentialProviderResponse) → (text : Text) × (codec.encode response ≡ inr text)

-- A plugin whose patterns leave the image out is not run; one that is run has to answer.
abbrev pub CanRun : Setup → Text → PluginProvider → Type 0
CanRun s image p =
    All (λ m. is_match s.lib m image ≡ false) p.match_images
    ⊎ (Allowed s.lib p.match_images image
        × ((resp : CredentialProviderResponse) × (v1_resp : CredentialProviderResponse) × (s.execute
                p.plugin image
              ≡ ok resp)
            × (s.convert resp ≡ ok v1_resp)))

-- The plugins as providers, in the order of their registration.
abbrev pub providers_of : Setup → Dict PluginProvider → List Provider
providers_of s plugins =
    map (λ (entry : Text × PluginProvider). as_provider s.lib s.execute entry.1) plugins

CanRun-HasAnswer :
    (s : Setup) (image : Text) (p : PluginProvider)
    → CanRun s image p ↔ HasAnswer s.convert image (as_provider s.lib s.execute p)
unfolding plugin_provide
CanRun-HasAnswer s image p = (there, back)
  where
    there : CanRun s image p → HasAnswer s.convert image (as_provider s.lib s.execute p)
    there (inl left_out) = elim (image_allowed-total s.lib p.match_images image) [
      | inl (e, a) ↦ absurd (Allowed-false s.lib p.match_images image a left_out)
      | inr (e, n) ↦ inl (rw e refl)
    ]
    there (inr (allowed, (resp, v1_resp, ran, converts))) = inr (
      resp,
      v1_resp,
      (plugin_provide_iff s.lib s.execute p image resp).1 (allowed, ran),
      converts,
    )

    back : HasAnswer s.convert image (as_provider s.lib s.execute p) → CanRun s image p
    back (inl nothing) = elim (image_allowed-total s.lib p.match_images image) [
      | inl (e, a) ↦ elim (Result-cases (s.execute p.plugin image)) [
        | inl (c, ran) ↦ absurd (ground arith)
        | inr (inl (x, ran)) ↦ absurd (ground arith)
        | inr (inr (resp, ran)) ↦ absurd (ground arith)
      ]
      | inr (e, n) ↦ inl n
    ]
    back (inr (resp, v1_resp, answered, converts)) =
        let (allowed, ran) = (plugin_provide_iff s.lib s.execute p image resp).0 answered in
        inr (allowed, (resp, v1_resp, ran, converts))

pub CanRun-providers_of :
    (s : Setup) (image : Text) (plugins : Dict PluginProvider)
    → All (λ (entry : Text × PluginProvider). CanRun s image entry.1) plugins
      ↔ All (HasAnswer s.convert image) (providers_of s plugins)
CanRun-providers_of s image [] = (λ h. tt, λ h. tt)
CanRun-providers_of s image ((name, p) ∷ plugins) =
    let first = CanRun-HasAnswer s image p in
    let rest = CanRun-providers_of s image plugins in
    (λ (a, b). (first.0 a, rest.0 b), λ (a, b). (first.1 a, rest.1 b))

module _ (s : Setup) (config_file request image : Text) (w : Writer) (os_args : List Text)
    (prov : DynamicProvider) where
  -- With faithful conversions, a writer that takes everything and a codec that encodes every
  -- response, where the configuration file leads to a registered provider and the request is a v1
  -- request for an image, get-credentials succeeds with an output exactly when its plugins can
  -- answer: each of them for the image where there is no mirror, and each of them for the mirrored
  -- image where there is one, and for the image too unless the strategy is MirrorCredentialsOnly,
  -- with a supported strategy and an image that is a reference where the mirror has credentials.
  pub run_get_credentials_serves_iff :
      IsFaithful s.convert
      → IsLossless w
      → EncodesAll s.plugin_codec
      → new_provider_from_config_file s.codec s.files config_file ≡ ok prov
      → IsRequest s.plugin_codec request image
      → ((out : Text) × (run_get_credentials s config_file (inr request) w os_args ≡ (out, ok tt)))
        ↔ CanAnswer s.lib s.convert (providers_of s prov.providers) s.ref prov.cfg.mirror image
  unfolding dynamic_source
  run_get_credentials_serves_iff faithful lossless encodes loaded asks = (there, back)
    where
      there :
          (out : Text) × (run_get_credentials s config_file (inr request) w os_args ≡ (out, ok tt))
          → CanAnswer s.lib s.convert (providers_of s prov.providers) s.ref prov.cfg.mirror image
      there (out, h) =
          let (loaded_prov, again, a) =
            (run_get_credentials_iff s config_file request w os_args out lossless).0 h in
          let same : loaded_prov ≡ prov = ok-injective (sym again ∙ loaded) in
          let answers : Answers s.plugin_codec (dynamic_source s prov) os_args request out =
            subst
              (λ (x : DynamicProvider).
                Answers s.plugin_codec (dynamic_source s x) os_args request out)
              same a in
          let this_image : answers.image ≡ image =
            cc (answers.requests.decodes, asks.requests.decodes) in
          let (response, e, _) =
            bind-ok
              (Response.get_credentials s.lib s.convert (providers_of s prov.providers) s.ref
                prov.cfg.mirror answers.image)
              (λ (response : CredentialProviderResponse). ok (some response)) answers.responds in
          subst (CanAnswer s.lib s.convert (providers_of s prov.providers) s.ref prov.cfg.mirror)
            this_image
            ((get_credentials_returns_iff s.lib s.convert faithful (providers_of s prov.providers)
                s.ref prov.cfg.mirror answers.image).0
              (response, e))

      back :
          CanAnswer s.lib s.convert (providers_of s prov.providers) s.ref prov.cfg.mirror image
          → (out : Text) × (run_get_credentials s config_file (inr request) w os_args
              ≡ (out, ok tt))
      back can =
          let (response, e) =
            (get_credentials_returns_iff s.lib s.convert faithful (providers_of s prov.providers)
                s.ref prov.cfg.mirror image).1
              can in
          let (out, encoded) = encodes.encodes response in
          (
            out,
            (run_get_credentials_iff s config_file request w os_args out lossless).1 (
              prov,
              loaded,
              record {
                interpreted = asks.interpreted;
                interprets = asks.interprets;
                is_v1 = asks.is_v1;
                image = image;
                requests = asks.requests;
                has_image = asks.has_image;
                response = response;
                responds = rw e refl;
                has_encoder = encodes.has_encoder;
                encodes = encoded;
              },
            ),
          )
