-- ===== src/Tests/Chaining.antt =====
-- static-credential-provider as the plugin of dynamic-credential-provider, behind a mirror.
use dynamic_credential_provi.Base.{
  Text, [], codes, cut, has_byte, has_prefix, inl, inr, ok, ok-injective, refl, some, subst, sym,
  text_eq, trim_prefix, ◌∙◌, ◌∷◌, ◌≡◌,
}
use dynamic_credential_provi.Api.{mirror_credentials_only}
use dynamic_credential_provi.Tests.Samples.{plain_lib, plain_reference, identity}
use dynamic_credential_provi.Tests.Running.{as_plugin}
use dynamic_credential_provi.Tests.Answering.{app_image, local_mirror, origin_provider}
use dynamic_credential_provi.Dynamic.Response.{mirror_image, get_credentials}
use dynamic_credential_provi.Dynamic.Plugin.{PluginProvider, as_provider}
use dynamic_credential_provi.Urlglobber.Url.{parse_potentially_schemeless_url}
use dynamic_credential_provi.Tests.Exchanging.{
  wire_codec, static_runner, request_mark, exit_error, wire_codec-IsWire,
}
use dynamic_credential_provi.Tests.Serving.{
  small_response, v1_group, read_stored, response_kind, plain_codec,
}
use dynamic_credential_provi.Dynamic.Executor.{exec_plugin}
use dynamic_credential_provi.Dynamic.Response.Agree.{Asked}
use dynamic_credential_provi.Urlglobber.Matcher.Spec.{is_match}
use dynamic_credential_provi.Commands.Chained.{
  file_provider, IsStored, IsServed, get_credentials-file_provider,
}
use dynamic_credential_provi.Commands.{credentials_file_for}
use dynamic_credential_provi.Kubernetes.{gv_string}
use dynamic_credential_provi.Go.Glob.{filepath_match}
use dynamic_credential_provi.Go.HostPort.{split_host_port}
use dynamic_credential_provi.Go.Strings.{split}
use dynamic_credential_provi.Urlglobber.Matcher.{
  split_url, urls_match, urls_match_str, matched, split_host,
}

-- Matches the images of the mirror alone.
abbrev mirrored_plugin : PluginProvider
mirrored_plugin = record (as_plugin "a") { match_images = codes "mirror.local" ∷ [] }

at_mirror :
    mirror_image plain_lib (local_mirror mirror_credentials_only) app_image
    ≡ ok (codes "mirror.local/cache/app")
unfolding mirror_image trim_prefix parse_potentially_schemeless_url plain_lib has_prefix has_byte
    cut text_eq
at_mirror = refl

mirror-IsServed :
    IsServed plain_lib wire_codec v1_group mirrored_plugin (codes "mirror.local/cache/app")
unfolding is_match wire_codec matched urls_match_str parse_potentially_schemeless_url plain_lib
    urls_match split_url split_host split_host_port split filepath_match
mirror-IsServed = record {
  allowed = (codes "mirror.local", inl refl, refl);
  some_image = λ e. cc;
  request = request_mark ∷ codes "mirror.local/cache/app";
  encodes = refl;
}

Asked-IsServed :
    (asked : Text)
    → Asked plain_lib (some (local_mirror mirror_credentials_only)) app_image asked
    → IsServed plain_lib wire_codec v1_group mirrored_plugin asked
Asked-IsServed asked (inl (n, e)) = absurd (n refl)
Asked-IsServed asked (inr e) =
    subst (IsServed plain_lib wire_codec v1_group mirrored_plugin)
      (ok-injective (sym at_mirror ∙ e)) mirror-IsServed

creds-IsStored : IsStored wire_codec read_stored (codes "creds")
unfolding wire_codec plain_codec text_eq
creds-IsStored = record {
  stored = codes "!";
  reads = refl;
  response = small_response;
  holds = record { decoded = response_kind; decodes = refl; is_response = refl; in_group = refl };
  has_encoder = refl;
  text = codes "!";
  encodes = refl;
}

get_credentials-file_provider_example :
    get_credentials plain_lib identity
      (origin_provider
        ∷ as_provider plain_lib (exec_plugin wire_codec static_runner) mirrored_plugin
        ∷ [])
      plain_reference
      (some (local_mirror mirror_credentials_only))
      app_image
    ≡ get_credentials plain_lib identity
        (origin_provider
          ∷ file_provider wire_codec read_stored (codes "creds") mirrored_plugin
          ∷ [])
        plain_reference
        (some (local_mirror mirror_credentials_only))
        app_image
unfolding wire_codec static_runner credentials_file_for gv_string
get_credentials-file_provider_example =
    get_credentials-file_provider wire_codec wire_codec wire_codec-IsWire read_stored
      (codes "creds" ∷ []) exit_error static_runner (λ cmd. refl) creds-IsStored plain_lib
      mirrored_plugin refl refl identity (origin_provider ∷ []) [] plain_reference
      (some (local_mirror mirror_credentials_only)) app_image Asked-IsServed
