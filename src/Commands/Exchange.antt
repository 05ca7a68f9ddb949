-- ===== src/Commands/Exchange.antt =====
-- A plugin that is built with the plugin package, run by the executor of the dynamic provider.
use dynamic_credential_provi.Base.{
  GoError, List, Result, Text, [], ap, arith, codes, crash, err, inr, none, ok, refl, some, subst,
  sym, true, ◌↔◌, ◌∙◌, ◌≡◌, ◌≢◌, ◌⊎◌,
}
use dynamic_credential_provi.Static
use dynamic_credential_provi.Static.Laws.{get_credentials_iff, Holds}
use dynamic_credential_provi.Kubernetes.{
  response_object, same_group_version, GroupVersionKind, Codec, gv_string,
}
use dynamic_credential_provi.Commands.{process_of, run_static, credentials_file_for}
use dynamic_credential_provi.Api.{CredentialProviderResponse}
use dynamic_credential_provi.Plugin.{CredentialSource}
use dynamic_credential_provi.Dynamic.Executor.{Runner, Command, Finished, command_for, exec_plugin}
use dynamic_credential_provi.Dynamic.Plugin.{ExecPlugin}
use dynamic_credential_provi.Dynamic.Executor.Laws.{exec_plugin_iff}
use dynamic_credential_provi.Plugin.Answers.{Answers, Requests}
use dynamic_credential_provi.Commands.Laws.{run_static_iff}
use dynamic_credential_provi.Static.{StaticProvider}

-- What one side encodes as v1 the other side decodes to the same, with the names of the API.
pub record IsWire (codec plugin_codec : Codec) : Type 0 where
  pub carries_request :
      (image request : Text)
      → codec.encode_request plugin_codec.v1 image ≡ inr request
      → (gvk : GroupVersionKind) × (plugin_codec.interpret request ≡ inr gvk)
        × (same_group_version gvk.group_version plugin_codec.v1 ≡ true)
        × Requests plugin_codec request image
  pub carries_response :
      (response : CredentialProviderResponse) (text : Text)
      → plugin_codec.encode response ≡ inr text
      → (gvk : GroupVersionKind) × (codec.interpret text ≡ inr gvk)
        × (gv_string gvk.group_version ≡ gv_string plugin_codec.v1)
        × (codec.decode text ≡ inr (response_object response, gvk))
        × (gvk.kind ≡ codes "CredentialProviderResponse")
        × (gvk.group_version.group ≡ codec.group_name)

-- A program that writes the encoded answers of a source, from its input and its arguments.
abbrev pub Serves :
    Codec → CredentialSource → (Text → List Text → Text × Result (Unit {0})) → Type 0
Serves plugin_codec source program =
    (request : Text) (args : List Text) (out : Text)
    → (program request args ≡ (out, ok tt)) ↔ Answers plugin_codec source args request out

-- Running a command runs the program in a process of its own.
abbrev pub RunsProgram : GoError → (Text → List Text → Text × Result (Unit {0})) → Runner → Type 0
RunsProgram exit_error program runner =
    (cmd : Command) → runner.run cmd ≡ process_of exit_error (program cmd.stdin cmd.arguments)

process_of-succeeds :
    (exit_error : GoError) (run : Text × Result (Unit {0}))
    → (process_of exit_error run).run_error ≡ none
    → run ≡ ((process_of exit_error run).stdout, ok tt)
unfolding process_of
process_of-succeeds exit_error (out, ok u) h = refl
process_of-succeeds exit_error (out, err e) h = absurd (ground arith)
process_of-succeeds exit_error (out, crash c) h = absurd (ground arith)

module _ (codec plugin_codec : Codec) (wire : IsWire codec plugin_codec) (source : CredentialSource)
    (exit_error : GoError) (program : Text → List Text → Text × Result (Unit {0}))
    (runner : Runner) where
  -- The executor gets exactly the responses that the source of its plugin has for the image and the
  -- configured arguments, and that can be encoded.
  pub exec_plugin-Serves :
      Serves plugin_codec source program
      → RunsProgram exit_error program runner
      → (p : ExecPlugin) (image request : Text) (response : CredentialProviderResponse)
      → p.encoder ≡ plugin_codec.v1
      → p.api_version ≡ gv_string plugin_codec.v1
      → image ≢ []
      → codec.encode_request plugin_codec.v1 image ≡ inr request
      → (exec_plugin codec runner p image ≡ ok response) ↔ (
          (source image p.args ≡ ok (some response))
          × (plugin_codec.supports_json ≡ true)
          × ((text : Text) × (plugin_codec.encode response ≡ inr text)))
  unfolding command_for process_of
  exec_plugin-Serves serves ends p image request response v1 version some_image encodes =
      (there, back)
    where
      there :
          exec_plugin codec runner p image ≡ ok response
          → (source image p.args ≡ ok (some response))
            × (plugin_codec.supports_json ≡ true)
            × ((text : Text) × (plugin_codec.encode response ≡ inr text))
      there h =
          let x = (exec_plugin_iff codec runner p image response).0 h in
          let cmd = command_for runner p x.request in
          let run = program x.request p.args in
          let out = (process_of exit_error run).stdout in
          let ran : run ≡ (out, ok tt) =
            process_of-succeeds exit_error run
              (ap (λ (f : Finished). f.run_error) (sym (ends cmd)) ∙ x.succeeds) in
          let a = (serves x.request p.args out).0 ran in
          let (_, _, _, r) = wire.carries_request image x.request (rw v1 at x.encodes) in
          let (_, _, _, d, _, _) = wire.carries_response a.response out a.encodes in
          let at_out : (runner.run cmd).stdout ≡ out = ap (λ (f : Finished). f.stdout) (ends cmd) in
          let this_image : a.image ≡ image = cc (a.requests.decodes, r.decodes) in
          let this_response : a.response ≡ response = cc (d, at_out, x.decodes) in
          (
            cc (a.responds, this_image, this_response),
            a.has_encoder,
            (out, cc (a.encodes, this_response)),
          )

      back :
          (source image p.args ≡ ok (some response))
            × (plugin_codec.supports_json ≡ true)
            × ((text : Text) × (plugin_codec.encode response ≡ inr text))
          → exec_plugin codec runner p image ≡ ok response
      back (answers, json, (text, encoded)) =
          let (gvk, i, v, r) = wire.carries_request image request encodes in
          let (gvk', i', v', d, k, g) = wire.carries_response response text encoded in
          let ran : program request p.args ≡ (text, ok tt) =
            (serves request p.args text).1 (record {
              interpreted = gvk;
              interprets = i;
              is_v1 = v;
              image = image;
              requests = r;
              has_image = some_image;
              response = response;
              responds = answers;
              has_encoder = json;
              encodes = encoded;
            }) in
          let done : runner.run (command_for runner p request)
              ≡ record { stdout = text; context_error = none; run_error = none } =
            ends (command_for runner p request) ∙ ap (process_of exit_error) ran in
          (exec_plugin_iff codec runner p image response).1 (record {
            request = request;
            encodes = rw v1 encodes;
            in_time = ap (λ (f : Finished). f.context_error) done;
            succeeds = ap (λ (f : Finished). f.run_error) done;
            interpreted = gvk';
            interprets =
                subst (λ (t : Text). codec.interpret t ≡ inr gvk')
                  (sym (ap (λ (f : Finished). f.stdout) done)) i';
            expected_version = v' ∙ sym version;
            decoded = gvk';
            decodes =
                subst (λ (t : Text). codec.decode t ≡ inr (response_object response, gvk'))
                  (sym (ap (λ (f : Finished). f.stdout) done)) d;
            expected_kind = k;
            expected_group = g;
          })

-- static-credential-provider as a program, with the arguments that cobra has accepted.
abbrev pub static_program :
    Codec → (Text → GoError ⊎ Text) → List Text → Text → List Text → Text × Result (Unit {0})
static_program plugin_codec read_file args input os_args =
    run_static plugin_codec read_file args (inr input) (λ t. (t, none)) os_args

-- If the executor runs static-credential-provider as its plugin, both with codecs that decode what
-- the other encodes as v1, then for an image that is not empty and whose request is encoded, the
-- executor gets exactly the response that the credentials file holds, where that can be read and
-- encoded again, and no other.
pub exec_plugin-run_static :
    (codec plugin_codec : Codec)
    → IsWire codec plugin_codec
    → (read_file : Text → GoError ⊎ Text) (args : List Text) (exit_error : GoError)
      (runner : Runner)
    → RunsProgram exit_error (static_program plugin_codec read_file args) runner
    → (p : ExecPlugin) (image request : Text) (response : CredentialProviderResponse)
    → p.encoder ≡ plugin_codec.v1
    → p.api_version ≡ gv_string plugin_codec.v1
    → image ≢ []
    → codec.encode_request plugin_codec.v1 image ≡ inr request
    → (exec_plugin codec runner p image ≡ ok response) ↔ (
        ((stored : Text) × (read_file (credentials_file_for args) ≡ inr stored)
          × Holds plugin_codec stored response)
        × (plugin_codec.supports_json ≡ true)
        × ((text : Text) × (plugin_codec.encode response ≡ inr text)))
exec_plugin-run_static codec plugin_codec wire read_file args exit_error runner ends p image request
      response v1 version some_image encodes =
    let file = credentials_file_for args in
    let provider : Static.StaticProvider = record { credentials_file = file } in
    let source = Static.get_credentials plugin_codec read_file provider in
    let exchange =
      exec_plugin-Serves codec plugin_codec wire source exit_error
        (static_program plugin_codec read_file args) runner
        (λ input os_args out.
          run_static_iff plugin_codec read_file args input (λ t. (t, none)) os_args out (λ t. refl))
        ends p image request response v1 version some_image encodes in
    let stored = get_credentials_iff plugin_codec read_file provider image p.args response in
    (
      λ h. let (a, j, t) = exchange.0 h in (stored.0 a, j, t),
      λ (a, j, t). exchange.1 (stored.1 a, j, t),
    )
