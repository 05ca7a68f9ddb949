-- ===== src/Dynamic/Executor/Laws.antt =====
-- What a plugin's run must look like for its answer to count, and the environment it runs in.
use dynamic_credential_provi.Base.{
  GoError, Result, Text, [], arith, bind-ok, codes, crash, err, guarded-eq-ok, inl, inr, leaf, none,
  ok, refl, text_eq_iff, wrapping-eq-ok, ◌↔◌, ◌≡◌, ◌⊎◌,
}
use dynamic_credential_provi.Kubernetes.{
  response_object, GroupVersionKind, config_object, Codec, request_object, gv_string,
  unknown_object, Object, from_sum-eq-ok,
}
use dynamic_credential_provi.Api.{CredentialProviderResponse}
use dynamic_credential_provi.Dynamic.Executor.{
  encode_plugin_request, hide_error, exec_plugin, read_response, Runner, Finished, check_run,
  decode_plugin_response, command_for,
}
use dynamic_credential_provi.Dynamic.Plugin.{ExecPlugin}

-- The request could be encoded, the command ended without an error and in time, and its output
-- decodes to this response, of the version that the plugin is configured for.
pub record Executed (codec : Codec) (runner : Runner) (p : ExecPlugin) (image : Text)
    (response : CredentialProviderResponse) : Type 0 where
  pub request : Text
  pub encodes : codec.encode_request p.encoder image ≡ inr request
  pub in_time : (runner.run (command_for runner p request)).context_error ≡ none
  pub succeeds : (runner.run (command_for runner p request)).run_error ≡ none
  pub interpreted : GroupVersionKind
  pub interprets :
      codec.interpret (runner.run (command_for runner p request)).stdout ≡ inr interpreted
  pub expected_version : gv_string interpreted.group_version ≡ p.api_version
  pub decoded : GroupVersionKind
  pub decodes :
      codec.decode (runner.run (command_for runner p request)).stdout
      ≡ inr (response_object response, decoded)
  pub expected_kind : decoded.kind ≡ codes "CredentialProviderResponse"
  pub expected_group : decoded.group_version.group ≡ codec.group_name

hide_error-eq-ok :
    (r : Result CredentialProviderResponse) {response : CredentialProviderResponse}
    → hide_error r ≡ ok response
    → r ≡ ok response
unfolding hide_error
hide_error-eq-ok (ok a) h = h
hide_error-eq-ok (err e) h = absurd (ground arith)
hide_error-eq-ok (crash c) h = absurd (ground arith)

module _ (codec : Codec) (runner : Runner) (p : ExecPlugin) where
  check_run-eq-ok :
      (image : Text) (done : Finished)
      → check_run p image done ≡ ok tt
      → (done.context_error ≡ none) × (done.run_error ≡ none)
  unfolding check_run
  check_run-eq-ok image done h = ground arith

  decode_plugin_response-eq-ok :
      (text : Text) (response : CredentialProviderResponse)
      → decode_plugin_response codec text ≡ ok response
      → (gvk : GroupVersionKind) × (codec.decode text ≡ inr (response_object response, gvk))
        × (gvk.kind ≡ codes "CredentialProviderResponse")
        × (gvk.group_version.group ≡ codec.group_name)
  unfolding decode_plugin_response
  decode_plugin_response-eq-ok text response h = go (codec.decode text) refl
    where
      go :
          (r : GoError ⊎ (Object × GroupVersionKind))
          → codec.decode text ≡ r
          → (gvk : GroupVersionKind) × (codec.decode text ≡ inr (response_object response, gvk))
            × (gvk.kind ≡ codes "CredentialProviderResponse")
            × (gvk.group_version.group ≡ codec.group_name)
      go (inl e) q = absurd (ground arith)
      go (inr (response_object found, gvk)) q = (
        gvk,
        ground (arith, text_eq_iff gvk.kind (codes "CredentialProviderResponse")),
        ground (arith, text_eq_iff gvk.kind (codes "CredentialProviderResponse")),
        ground (
          arith,
          text_eq_iff gvk.kind (codes "CredentialProviderResponse"),
          text_eq_iff gvk.group_version.group codec.group_name,
        ),
      )
      go (inr (request_object _, gvk)) q = absurd (ground arith)
      go (inr (config_object _, gvk)) q = absurd (ground arith)
      go (inr (unknown_object, gvk)) q = absurd (ground arith)

  -- ExecPlugin answers with a response exactly if the request could be encoded, the command ended
  -- in time and without an error, and its output is that response, of the version the plugin is
  -- configured for.
  pub exec_plugin_iff :
      (image : Text) (response : CredentialProviderResponse)
      → (exec_plugin codec runner p image ≡ ok response) ↔ Executed codec runner p image response
  unfolding exec_plugin read_response hide_error encode_plugin_request check_run
      decode_plugin_response
  exec_plugin_iff image response = (there, back)
    where
      there :
          exec_plugin codec runner p image ≡ ok response → Executed codec runner p image response
      there h =
          let (request, e1, h1) = bind-ok _ _ h in
          let (_, e2, h2) = bind-ok _ _ h1 in
          let (in_time, succeeds) =
            check_run-eq-ok image (runner.run (command_for runner p request)) e2 in
          let (gvk, e3, h3) = bind-ok _ _ h2 in
          let (right, h4) = guarded-eq-ok _ _ _ h3 in
          let (decoded, decodes, kind, group) =
            decode_plugin_response-eq-ok _ response (hide_error-eq-ok _ h4) in
          record {
            request = request;
            encodes = from_sum-eq-ok _ (wrapping-eq-ok _ _ _ (wrapping-eq-ok _ _ _ e1));
            in_time = in_time;
            succeeds = succeeds;
            interpreted = gvk;
            interprets = from_sum-eq-ok _ (wrapping-eq-ok _ _ _ e3);
            expected_version =
                ground (arith, text_eq_iff (gv_string gvk.group_version) p.api_version);
            decoded = decoded;
            decodes = decodes;
            expected_kind = kind;
            expected_group = group;
          }

      back : Executed codec runner p image response → exec_plugin codec runner p image ≡ ok response
      back x = ground (
        arith,
        x.encodes,
        x.in_time,
        x.succeeds,
        x.interprets,
        x.decodes,
        x.expected_version,
        x.expected_kind,
        x.expected_group,
        text_eq_iff (gv_string x.interpreted.group_version) p.api_version,
        text_eq_iff x.decoded.kind (codes "CredentialProviderResponse"),
        text_eq_iff x.decoded.group_version.group codec.group_name,
      )

  -- Where the request is encoded, the command ends well and its output is of the expected version
  -- but cannot be decoded, ExecPlugin reports one fixed error, whatever the output and the
  -- decoder's error.
  pub exec_plugin-undecodable :
      (image request : Text) (gvk : GroupVersionKind) (e : GoError)
      → codec.encode_request p.encoder image ≡ inr request
      → (runner.run (command_for runner p request)).context_error ≡ none
      → (runner.run (command_for runner p request)).run_error ≡ none
      → codec.interpret (runner.run (command_for runner p request)).stdout ≡ inr gvk
      → gv_string gvk.group_version ≡ p.api_version
      → decode_plugin_response codec (runner.run (command_for runner p request)).stdout ≡ err e
      → exec_plugin codec runner p image
        ≡ err (leaf "error decoding credential provider plugin response from stdout" [])
  unfolding exec_plugin read_response hide_error encode_plugin_request check_run
  exec_plugin-undecodable image request gvk e h1 h2 h3 h4 h5 h6 =
      ground (arith, text_eq_iff (gv_string gvk.group_version) p.api_version)
