-- ===== src/Commands/Chained.antt =====
-- The two commands together: dynamic-credential-provider with static-credential-provider as one of
-- its plugins.
use dynamic_credential_provi.Base.{
  GoError, List, Option, Text, [], inr, refl, sym, true, ◌++◌, ◌∙◌, ◌∷◌, ◌≡◌, ◌≢◌, ◌⊎◌,
}
use dynamic_credential_provi.Static
use dynamic_credential_provi.Dynamic.Response.Agree.{Asked, Agree, get_credentials-Agree}
use dynamic_credential_provi.Dynamic.Response.{get_credentials}
use dynamic_credential_provi.Commands.{credentials_file_for}
use dynamic_credential_provi.Kubernetes.{Codec, GroupVersion, gv_string}
use dynamic_credential_provi.Api.{MirrorConfig, CredentialProviderResponse}
use dynamic_credential_provi.Dynamic.Provider.{Convert, Provider}
use dynamic_credential_provi.Dynamic.Executor.{Runner, exec_plugin}
use dynamic_credential_provi.Dynamic.Plugin.{PluginProvider, default_duration, as_provider}
use dynamic_credential_provi.Dynamic.Plugin.Laws.{Allowed, plugin_provide_iff}
use dynamic_credential_provi.Urlglobber.Url.{UrlLib}
use dynamic_credential_provi.Urlglobber.Globber.{ReferenceLib}
use dynamic_credential_provi.Commands.Exchange.{
  exec_plugin-run_static, RunsProgram, IsWire, static_program,
}
use dynamic_credential_provi.Static.Laws.{get_credentials_iff, Holds}

-- The provider that reads the file itself, with the plugin's duration.
abbrev pub file_provider : Codec → (Text → GoError ⊎ Text) → Text → PluginProvider → Provider
file_provider codec read_file file p = record {
  provide = λ image.
      Static.get_credentials codec read_file (record { credentials_file = file }) image
        p.plugin.args;
  default_cache_duration = default_duration p;
}

-- The plugin is configured for the image, which is not empty and for which a request is encoded.
pub record IsServed (lib : UrlLib) (codec : Codec) (v1 : GroupVersion) (p : PluginProvider)
    (image : Text) : Type 0 where
  pub allowed : Allowed lib p.match_images image
  pub some_image : image ≢ []
  pub request : Text
  pub encodes : codec.encode_request v1 image ≡ inr request

-- The file can be read and holds a response that can be encoded again.
pub record IsStored (codec : Codec) (read_file : Text → GoError ⊎ Text) (file : Text) : Type 0 where
  pub stored : Text
  pub reads : read_file file ≡ inr stored
  pub response : CredentialProviderResponse
  pub holds : Holds codec stored response
  pub has_encoder : codec.supports_json ≡ true
  pub text : Text
  pub encodes : codec.encode response ≡ inr text

module _ (codec plugin_codec : Codec) (wire : IsWire codec plugin_codec)
    (read_file : Text → GoError ⊎ Text) (args : List Text) (exit_error : GoError) (runner : Runner)
    (ends : RunsProgram exit_error (static_program plugin_codec read_file args) runner)
    (stored : IsStored plugin_codec read_file (credentials_file_for args)) (lib : UrlLib)
    (p : PluginProvider) (v1 : p.plugin.encoder ≡ plugin_codec.v1)
    (version : p.plugin.api_version ≡ gv_string plugin_codec.v1) where
  as_provider-Agree :
      (image : Text)
      → IsServed lib codec plugin_codec.v1 p image
      → Agree image
          (as_provider lib (exec_plugin codec runner) p)
          (file_provider plugin_codec read_file (credentials_file_for args) p)
  as_provider-Agree image served =
      let file = credentials_file_for args in
      let holds : (text : Text) × (read_file file ≡ inr text)
          × Holds plugin_codec text stored.response =
        (stored.stored, stored.reads, stored.holds) in
      let executed =
        (exec_plugin-run_static codec plugin_codec wire read_file args exit_error runner ends
            p.plugin image served.request stored.response v1 version served.some_image
            served.encodes).1
          (holds, stored.has_encoder, (stored.text, stored.encodes)) in
      record {
        same_answer =
            (plugin_provide_iff lib (exec_plugin codec runner) p image stored.response).1
              (served.allowed, executed)
            ∙ sym (
                (get_credentials_iff plugin_codec read_file (record { credentials_file = file })
                    image p.plugin.args stored.response).1
                  holds);
        same_default = refl;
      }

  -- Where static-credential-provider is one of the plugins, configured for v1, with codecs that
  -- decode what the other side encodes as v1 and a file that holds a response that can be encoded
  -- again, and its patterns match each of the images that GetCredentials asks for, none of which is
  -- empty and whose requests are encoded, GetCredentials answers as it does with a provider in the
  -- plugin's place that reads the file itself, mirror and errors included.
  pub get_credentials-file_provider :
      (convert : Convert) (before after : List Provider) (ref : ReferenceLib)
      (mirror : Option MirrorConfig) (image : Text)
      → ((asked : Text) → Asked lib mirror image asked → IsServed lib codec plugin_codec.v1 p asked)
      → get_credentials lib convert
          (before ++ as_provider lib (exec_plugin codec runner) p ∷ after)
          ref
          mirror
          image
        ≡ get_credentials lib convert
            (before ++ file_provider plugin_codec read_file (credentials_file_for args) p ∷ after)
            ref
            mirror
            image
  get_credentials-file_provider convert before after ref mirror image served =
      get_credentials-Agree lib convert before after (as_provider lib (exec_plugin codec runner) p)
        (file_provider plugin_codec read_file (credentials_file_for args) p) ref mirror image
        (λ asked i. as_provider-Agree asked (served asked i))
