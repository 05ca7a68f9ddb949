-- ===== src/Tests/Exchanging.antt =====
-- A plugin and its caller with a codec that both share, and the two commands.
use dynamic_credential_provi.Base.{
  Dict, GoError, Option, Text, [], ap, arith, codes, crash, fatal, if◌then◌else◌, inl, inr, leaf,
  none, ok, refl, some, sym, text_eq, text_eq→ne, true, ℕ, ◌++◌, ◌==◌, ◌↔◌, ◌∷◌, ◌≡◌, ◌≢◌, ◌⊎◌,
}
use dynamic_credential_provi.Kubernetes.{
  Codec, response_object, request_object, Object, GroupVersionKind, gv_string, config_object,
}
use dynamic_credential_provi.Commands.{
  credentials_file_for, process_of, dynamic_source, Setup, run_get_credentials, default_config_file,
}
use dynamic_credential_provi.Api.{
  image_cache, AuthConfig, CredentialProviderResponse, CacheKeyType, registry_cache, global_cache,
  Duration,
}
use dynamic_credential_provi.Tests.Running.{
  as_plugin, admits, configuration, bin_files, answering, provider_named,
}
use dynamic_credential_provi.Tests.Answering.{app_image}
use dynamic_credential_provi.Dynamic.Executor.{exec_plugin, Runner}
use dynamic_credential_provi.Commands.Exchange.{static_program, IsWire, exec_plugin-run_static}
use dynamic_credential_provi.Static.Laws.{Holds}
use dynamic_credential_provi.Tests.Samples.{plain_lib, plain_reference, identity}
use dynamic_credential_provi.Dynamic.Register.{
  new_provider_from_config_file, register_credential_provider_plugins, DynamicProvider,
}
use dynamic_credential_provi.Dynamic.Plugin.{PluginProvider}
use dynamic_credential_provi.Dynamic.Register.Admitted.{validate_create-registers}
use dynamic_credential_provi.Dynamic.Register.Laws.{Unique}
use dynamic_credential_provi.Commands.Laws.{run_get_credentials_iff}
use dynamic_credential_provi.Plugin.Answers.{Answers}
use dynamic_credential_provi.Sync.{default_dynamic_credential_provider_config_path}
use dynamic_credential_provi.Tests.Serving.{
  response_kind, request_kind, read_stored, plain_codec, small_response,
}

abbrev pub request_mark : ℕ
request_mark = b'?'

-- A request is the text of its image behind a mark; only one response can be encoded.
encode_small : CredentialProviderResponse → GoError ⊎ Text
encode_small r = elim r.cache_duration [
  | some d ↦ inl (leaf "unsupported" [])
  | none ↦ elim r.auth [
    | (entry ∷ entries) ↦ inl (leaf "unsupported" [])
    | [] ↦ elim r.cache_key_type [
      | image_cache ↦ inr (codes "!")
      | registry_cache ↦ inl (leaf "unsupported" [])
      | global_cache ↦ inl (leaf "unsupported" [])
    ]
  ]
]

decode_marked : Text → GoError ⊎ (Object × GroupVersionKind)
decode_marked [] = inl (leaf "EOF" [])
decode_marked (c ∷ t) =
    if c == request_mark
    then inr (request_object t, request_kind)
    else inr (response_object small_response, response_kind)

unfoldable pub wire_codec : Codec
unfolding plain_codec decode_marked encode_small
wire_codec = record plain_codec {
  interpret = λ t. inr response_kind;
  decode = decode_marked;
  encode = encode_small;
  encode_request = λ gv t. inr (request_mark ∷ t);
}

encode_small-eq-inr :
    (key : CacheKeyType) (duration : Option Duration) (entries : Dict AuthConfig) (text : Text)
    → encode_small (record { cache_key_type = key; cache_duration = duration; auth = entries })
      ≡ inr text
    → (record { cache_key_type = key; cache_duration = duration; auth = entries } ≡ small_response)
      × (text ≡ codes "!")
unfolding encode_small
encode_small-eq-inr image_cache none [] text h = (refl, ground arith)
encode_small-eq-inr registry_cache none [] text h = absurd (ground arith)
encode_small-eq-inr global_cache none [] text h = absurd (ground arith)
encode_small-eq-inr key none (entry ∷ entries) text h = absurd (ground arith)
encode_small-eq-inr key (some d) entries text h = absurd (ground arith)

pub wire_codec-IsWire : IsWire wire_codec wire_codec
unfolding wire_codec plain_codec decode_marked encode_small text_eq gv_string
wire_codec-IsWire = record {
  carries_request = λ image request h. (
    response_kind,
    refl,
    refl,
    record { decoded = request_kind; decodes = ground arith; is_request = refl; in_group = refl },
  );
  carries_response = λ response text h.
      let (this, sent) =
        encode_small-eq-inr response.cache_key_type response.cache_duration response.auth text h in
      (
        response_kind,
        refl,
        refl,
        rw sent (
            ap (λ (r : CredentialProviderResponse). inr (response_object r, response_kind))
              (sym this)),
        refl,
        refl,
      );
}

abbrev pub exit_error : GoError
exit_error = leaf "exit status 1" []

unfoldable pub static_runner : Runner
static_runner = record {
  environ = [];
  join_path = λ dir name. dir ++ b'/' ∷ name;
  run = λ cmd.
      process_of exit_error
        (static_program wire_codec read_stored (codes "creds" ∷ []) cmd.stdin cmd.arguments);
}

exec_plugin-run_static_example :
    (exec_plugin wire_codec static_runner (as_plugin "a").plugin app_image ≡ ok small_response) ↔ (
      ((stored : Text) × (read_stored (credentials_file_for (codes "creds" ∷ [])) ≡ inr stored)
        × Holds wire_codec stored small_response)
      × (wire_codec.supports_json ≡ true)
      × ((text : Text) × (wire_codec.encode small_response ≡ inr text)))
unfolding wire_codec plain_codec static_runner gv_string text_eq
exec_plugin-run_static_example =
    exec_plugin-run_static wire_codec wire_codec wire_codec-IsWire read_stored (codes "creds" ∷ [])
      exit_error static_runner (λ cmd. refl) (as_plugin "a").plugin app_image
      (request_mark ∷ app_image) small_response refl refl (λ e. cc) refl

-- The whole exchange.
exchanged :
    exec_plugin wire_codec static_runner (as_plugin "a").plugin app_image ≡ ok small_response
unfolding wire_codec plain_codec decode_marked encode_small text_eq
exchanged = exec_plugin-run_static_example.1 (
  (
    codes "!",
    refl,
    record { decoded = response_kind; decodes = refl; is_response = refl; in_group = refl },
  ),
  refl,
  (codes "!", refl),
)

abbrev pub wire_setup : Setup
wire_setup = record {
  codec = record plain_codec {
    decode = λ t. inr (
      config_object (configuration (some (record { providers = provider_named "a" ∷ [] }))),
      response_kind,
    );
  };
  plugin_codec = plain_codec;
  files = bin_files;
  lib = plain_lib;
  convert = identity;
  ref = plain_reference;
  execute = answering;
}

run_get_credentials_iff_example :
    (run_get_credentials wire_setup (codes "cfg") (inr app_image) (λ t. (t, none)) []
      ≡ (codes "{}", ok tt))
    ↔ ((prov : DynamicProvider) × (new_provider_from_config_file wire_setup.codec wire_setup.files
            (codes "cfg")
          ≡ ok prov)
        × Answers wire_setup.plugin_codec
            (dynamic_source wire_setup prov)
            []
            app_image
            (codes "{}"))
run_get_credentials_iff_example =
    run_get_credentials_iff wire_setup (codes "cfg") app_image (λ t. (t, none)) [] (codes "{}")
      (λ t. refl)

validate_create-registers_example :
    (((plugins : Dict PluginProvider) × (register_credential_provider_plugins plain_codec bin_files
            (configuration (some (record { providers = provider_named "a" ∷ [] })))
          ≡ ok plugins))
      ↔ Unique (provider_named "a" ∷ []))
    × ((register_credential_provider_plugins plain_codec bin_files
            (configuration (some (record { providers = provider_named "a" ∷ [] })))
          ≡ crash fatal)
        ↔ (¬ Unique (provider_named "a" ∷ [])))
unfolding plain_codec bin_files
validate_create-registers_example =
    validate_create-registers plain_codec plain_lib bin_files
      (configuration (some (record { providers = provider_named "a" ∷ [] })))
      (record { providers = provider_named "a" ∷ [] }) admits refl refl refl (refl, tt)

-- What sync-config writes is not what get-credentials reads, where no flag is given.
defaults_differ : default_config_file ≢ default_dynamic_credential_provider_config_path
unfolding text_eq
defaults_differ =
    text_eq→ne default_config_file default_dynamic_credential_provider_config_path refl
