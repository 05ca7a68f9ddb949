-- ===== src/Dynamic/Whole.antt =====
-- The selection over registered plugins, end to end: dynamic.go on top of plugin_executor.go.
use dynamic_credential_provi.Base.{
  In, List, Result, Text, [], ap, inl, inr, map, ok, refl, sym, true, ◌∙◌, ◌∷◌, ◌≡◌,
}
use dynamic_credential_provi.Api.{AuthConfig, CredentialProviderResponse}
use dynamic_credential_provi.Dynamic.Select.{Found, get_credentials_for_image}
use dynamic_credential_provi.Dynamic.Provider.{Convert, IsFaithful, Provider}
use dynamic_credential_provi.Dynamic.Plugin.{as_provider, PluginProvider, ExecPlugin}
use dynamic_credential_provi.Dynamic.Select.Laws.{get_credentials_for_image-Offers}
use dynamic_credential_provi.Dynamic.Plugin.Laws.{plugin_provide_iff, Allowed}
use dynamic_credential_provi.Urlglobber.Url.{UrlLib}
use dynamic_credential_provi.Urlglobber.Matcher.Spec.{is_match}

pub In-map :
    {A B : Type 0} (f : A → B) (b : B) (xs : List A)
    → In b (map f xs)
    → (a : A) × In a xs × (b ≡ f a)
In-map f b [] i = absurd i
In-map f b (x ∷ xs) (inl e) = (x, inl refl, e)
In-map f b (x ∷ xs) (inr i) = let (a, j, e) = In-map f b xs i in (a, inr j, e)

-- A plugin that is configured for the image was run for it, and its response lists these
-- credentials under a key that covers the image.
pub record Granted (lib : UrlLib) (execute : ExecPlugin → Text → Result CredentialProviderResponse)
    (plugins : List PluginProvider) (image : Text) (credentials : AuthConfig) : Type 0 where
  pub plugin : PluginProvider
  pub registered : In plugin plugins
  pub allowed : Allowed lib plugin.match_images image
  pub response : CredentialProviderResponse
  pub executed : execute plugin.plugin image ≡ ok response
  pub key : Text
  pub listed : In (key, credentials) response.auth
  pub covers : is_match lib key image ≡ true

-- With faithful conversions, credentials that getCredentialsForImage finds with registered plugins
-- as its providers are listed in the response of one of them, under a key that covers the image,
-- and that plugin is configured for the image.
pub get_credentials_for_image-Granted :
    (lib : UrlLib) (convert : Convert) (image : Text)
    → IsFaithful convert
    → (execute : ExecPlugin → Text → Result CredentialProviderResponse)
      (plugins : List PluginProvider) (r : Found)
    → get_credentials_for_image lib convert image (map (as_provider lib execute) plugins) ≡ ok r
    → r.found ≡ true
    → Granted lib execute plugins image r.auth_config
get_credentials_for_image-Granted lib convert image faithful execute plugins r e f =
    let (prov, c, i, o, _, a, _) =
      get_credentials_for_image-Offers lib convert image faithful
        (map (as_provider lib execute) plugins) r e f in
    let (p, j, q) = In-map (as_provider lib execute) prov plugins i in
    let (allowed, executed) =
      (plugin_provide_iff lib execute p image o.response).0
        (ap (λ (x : Provider). x.provide image) (sym q) ∙ o.answered) in
    record {
      plugin = p;
      registered = j;
      allowed = allowed;
      response = o.response;
      executed = executed;
      key = c.key;
      listed = rw a o.listed;
      covers = o.covers;
    }
