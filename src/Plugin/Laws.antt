-- ===== src/Plugin/Laws.antt =====
-- When the kubelet gets an answer, what it is, and what the errors are.
use dynamic_credential_provi.Base.{
  Bool-cases, GoError, List, Option, Option-cases, Result, Sentinel, Text, Wraps, [], ap, arith,
  bind-ok, conversion_failure, crash, empty_image_in_request, err, false, guarded-eq-ok,
  if◌then◌else◌, inl, inr, invalid_credential_provider_response, invalid_image_reference, length,
  ltb, nil_credential_provider_response, none, not, ok, refl, sentinel, some, text_eq,
  text_eq-false, text_eq_iff, text_eq_refl, text_eq→ne, true, unsupported_api_version,
  unsupported_mirror_credential_strategy, unsupported_request_kind, wrap, ◌↔◌, ◌∙◌, ◌∷◌, ◌≡◌, ◌≢◌,
  ◌≤◌, ◌⊎◌,
}
use dynamic_credential_provi.Kubernetes.{
  Codec, gv_string, from_sum, GroupVersionKind, same_group_version, from_sum-eq-ok,
}
use dynamic_credential_provi.Api.{CredentialProviderResponse}
use dynamic_credential_provi.Plugin.{
  BufferedWriter, new_writer, write, flush, buffer_size, run_plugin, respond, encode_response,
  CredentialSource, write_buffered, Writer, decode_request,
}
use dynamic_credential_provi.Plugin.Answers.{
  Requests-decode_request, Answers, true_of_not, decode_request-Requests, encode_response-eq-ok,
}

-- The request is refused for this reason: another version than v1, a request without an image, or a
-- source without a response.
abbrev pub IsRefused : Codec → CredentialSource → List Text → Text → Sentinel → Type 0
IsRefused codec source args request unsupported_api_version =
    (gvk : GroupVersionKind) × (codec.interpret request ≡ inr gvk)
    × (same_group_version gvk.group_version codec.v1 ≡ false)
IsRefused codec source args request empty_image_in_request =
    (gvk : GroupVersionKind) × (codec.interpret request ≡ inr gvk)
    × (same_group_version gvk.group_version codec.v1 ≡ true)
    × (decode_request codec request ≡ ok [])
IsRefused codec source args request nil_credential_provider_response =
    (gvk : GroupVersionKind) × (image : Text) × (codec.interpret request ≡ inr gvk)
    × (same_group_version gvk.group_version codec.v1 ≡ true)
    × (decode_request codec request ≡ ok image)
    × (image ≢ [])
    × (source image args ≡ ok none)
IsRefused codec source args request _ = ⊥

-- The error of the write is reported, and only that.
write_buffered-reports_iff :
    (w : Writer) (text : Text)
    → ((write_buffered w text).1 ≡ ok tt) ↔ ((length text ≤ buffer_size) ⊎ ((w text).1 ≡ none))
unfolding write_buffered write flush
write_buffered-reports_iff w text = elim (Option-cases (w text).1) [
  | inl e ↦ (λ h. inr e, λ h. ground arith)
  | inr (x, e) ↦ (λ h. inl (ground arith), λ h. ground arith)
]

write_buffered-lossless :
    (w : Writer) (text : Text) → w text ≡ (text, none) → write_buffered w text ≡ (text, ok tt)
unfolding write_buffered write flush text_eq
write_buffered-lossless w [] h = ground arith
write_buffered-lossless w (c ∷ text) h = elim (Bool-cases (ltb buffer_size (length (c ∷ text)))) [
  | inl long ↦ ground arith
  | inr fits ↦
      let waits : write w (c ∷ text) new_writer
          ≡ record { pending = c ∷ text; arrived = []; failure = none } =
        rw (write, fits) refl in
      ap
        (λ (b : BufferedWriter).
          ((flush w b).arrived, elim b.failure [ none ↦ ok tt | some e ↦ err e ]))
        waits
      ∙ ap (λ (sent : Text × Option GoError). (sent.0, ok tt)) h
]

module _ (codec : Codec) (source : CredentialSource) (args : List Text) where
  abbrev checked_image : Text → GroupVersionKind → Result Text
  checked_image request gvk =
      if not (same_group_version gvk.group_version codec.v1)
      then err (
          wrap "%w: %s" (gv_string gvk.group_version ∷ gvk.kind ∷ [])
            (sentinel unsupported_api_version))
      else decode_request codec request

  abbrev checked_answer : Text → Result (Option CredentialProviderResponse)
  checked_answer image =
      if text_eq image []
      then err (wrap "%w" [] (sentinel empty_image_in_request))
      else source image args

  abbrev encoded_response : Option CredentialProviderResponse → Result Text
  encoded_response answer = elim answer [
    | none ↦ err (wrap "%w" [] (sentinel nil_credential_provider_response))
    | some response ↦ encode_response codec response
  ]

  encoded_answer :
      (request encoded : Text) (gvk : GroupVersionKind) (image : Text)
      (answer : Option CredentialProviderResponse)
      → codec.interpret request ≡ inr gvk
      → same_group_version gvk.group_version codec.v1 ≡ true
      → decode_request codec request ≡ ok image
      → image ≢ []
      → source image args ≡ ok answer
      → encoded_response answer ≡ ok encoded
      → Answers codec source args request encoded
  encoded_answer request encoded gvk image none p v q n r h = absurd (ground arith)
  encoded_answer request encoded gvk image (some response) p v q n r h = record {
    interpreted = gvk;
    interprets = p;
    is_v1 = v;
    image = image;
    requests = decode_request-Requests codec request image q;
    has_image = n;
    response = response;
    responds = r;
    has_encoder = (encode_response-eq-ok codec response encoded h).0;
    encodes = (encode_response-eq-ok codec response encoded h).1;
  }

  respond-Answers :
      (request encoded : Text)
      → respond codec source (inr request) args ≡ ok encoded
      → Answers codec source args request encoded
  unfolding respond
  respond-Answers request encoded h =
      let (gvk, p, h1) = bind-ok (from_sum (codec.interpret request)) _ h in
      let (image, q, h2) = bind-ok (checked_image request gvk) _ h1 in
      let (answer, r, h3) = bind-ok (checked_answer image) _ h2 in
      let (v, q') = guarded-eq-ok _ _ _ q in
      let (n, r') =
        guarded-eq-ok (text_eq image []) (wrap "%w" [] (sentinel empty_image_in_request))
          (source image args) r in
      encoded_answer request encoded gvk image answer (from_sum-eq-ok _ p) (true_of_not _ v) q'
        (text_eq→ne image [] n) r' h3

  Answers-respond :
      (request encoded : Text)
      → Answers codec source args request encoded
      → respond codec source (inr request) args ≡ ok encoded
  unfolding respond encode_response
  Answers-respond request encoded a = ground (
    arith,
    a.interprets,
    Requests-decode_request codec request a.image a.requests,
    text_eq_iff a.image [],
    a.has_encoder,
    a.encodes,
  )

  -- The encoded response is computed exactly when the request is a v1 request for an image and the
  -- source has a response for that image which can be encoded.
  pub respond_iff :
      (request encoded : Text)
      → (respond codec source (inr request) args ≡ ok encoded)
        ↔ Answers codec source args request encoded
  respond_iff request encoded = (respond-Answers request encoded, Answers-respond request encoded)

  -- A request of any other version than v1 is refused with an error that is
  -- ErrUnsupportedAPIVersion, a v1 request without an image with one that is
  -- ErrEmptyImageInRequest, and a v1 request for an image for which the source has no response with
  -- one that is ErrNilCredentialProviderResponse; the error is none of the others, and nothing is
  -- written.
  pub run_plugin-refused :
      (request : Text) (w : Writer) (reason : Sentinel)
      → IsRefused codec source args request reason
      → (e : GoError) × (run_plugin codec source (inr request) w args ≡ ([], err e))
        × ((s : Sentinel) → Wraps s e ↔ (s ≡ reason))
  unfolding run_plugin respond
  run_plugin-refused request w unsupported_api_version (gvk, p, v) = (
    wrap "%w: %s" (gv_string gvk.group_version ∷ gvk.kind ∷ []) (sentinel unsupported_api_version),
    ground arith,
    λ s. (λ h. h, λ h. h),
  )
  run_plugin-refused request w empty_image_in_request (gvk, p, v, q) = (
    wrap "%w" [] (sentinel empty_image_in_request),
    ground (arith, text_eq_refl []),
    λ s. (λ h. h, λ h. h),
  )
  run_plugin-refused request w nil_credential_provider_response (gvk, image, p, v, q, n, r) = (
    wrap "%w" [] (sentinel nil_credential_provider_response),
    ground (arith, text_eq-false image [] n),
    λ s. (λ h. h, λ h. h),
  )
  run_plugin-refused request w unsupported_mirror_credential_strategy h = absurd h
  run_plugin-refused request w invalid_image_reference h = absurd h
  run_plugin-refused request w invalid_credential_provider_response h = absurd h
  run_plugin-refused request w unsupported_request_kind h = absurd h
  run_plugin-refused request w conversion_failure h = absurd h

  -- Where the response is encoded, the call reports a success exactly when the encoded response
  -- fits the buffer, whatever happens to it, or the writer takes it without an error.
  pub run_plugin-reports_iff :
      (input : GoError ⊎ Text) (w : Writer) (encoded : Text)
      → respond codec source input args ≡ ok encoded
      → ((run_plugin codec source input w args).1 ≡ ok tt)
        ↔ ((length encoded ≤ buffer_size) ⊎ ((w encoded).1 ≡ none))
  unfolding run_plugin
  run_plugin-reports_iff input w encoded p =
      rw (run_plugin, p) (write_buffered-reports_iff w encoded)

  -- With a writer that takes everything, the call succeeds and writes a text exactly if that is the
  -- encoded response.
  pub run_plugin_iff :
      (input : GoError ⊎ Text) (w : Writer) (out : Text)
      → ((text : Text) → w text ≡ (text, none))
      → (run_plugin codec source input w args ≡ (out, ok tt))
        ↔ (respond codec source input args ≡ ok out)
  unfolding run_plugin
  run_plugin_iff input w out lossless = go (respond codec source input args) refl
    where
      go :
          (r : Result Text)
          → respond codec source input args ≡ r
          → (run_plugin codec source input w args ≡ (out, ok tt))
            ↔ (respond codec source input args ≡ ok out)
      go (ok text) p = ground (arith, write_buffered-lossless w text (lossless text))
      go (err e) p = ground arith
      go (crash c) p = ground arith
