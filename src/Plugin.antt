-- ===== src/Plugin.antt =====
-- pkg/credentialprovider/plugin/plugin.go: what the kubelet runs.
pub mod Answers
pub mod Laws
use dynamic_credential_provi.Base.{
  GoError, List, Option, Result, Text, [], both, codes, conversion_failure, crash,
  empty_image_in_request, err, if◌then◌else◌, inl, inr, leaf, length, ltb,
  nil_credential_provider_response, none, not, ok, sentinel, some, text_eq, unsupported_api_version,
  unsupported_request_kind, wrap, wrapping, ℕ, ◌++◌, ◌>>=◌, ◌∷◌, ◌⊎◌,
}
use dynamic_credential_provi.Kubernetes.{
  Codec, request_object, same_group_version, from_sum, gv_string,
}
use dynamic_credential_provi.Api.{CredentialProviderResponse}

-- A `CredentialProvider`: its GetCredentials, with the image and the arguments. `none` is nil.
abbrev pub CredentialSource : Type 0
CredentialSource = Text → List Text → Result (Option CredentialProviderResponse)

-- The writer under the buffer: what arrives of a text, and the error if there is one.
abbrev pub Writer : Type 0
Writer = Text → Text × Option GoError

-- A process that the kubelet starts: its standard streams, and `os.Args[1:]`.
pub record Process : Type 0 where
  pub stdin : GoError ⊎ Text
  pub stdout : Writer
  pub arguments : List Text

-- The size of a `bufio.Writer`.
abbrev pub buffer_size : ℕ
buffer_size = 4096

-- A `bufio.Writer`: the bytes in its buffer, what has arrived at the writer under it, and the first
-- error of that writer.
pub record BufferedWriter : Type 0 where
  pub pending : Text
  pub arrived : Text
  pub failure : Option GoError

-- `bufio.NewWriter`
abbrev pub new_writer : BufferedWriter
new_writer = record { pending = []; arrived = []; failure = none }

-- `Flush`: what is pending goes to the writer, unless an error stopped that before.
unfoldable pub flush : Writer → BufferedWriter → BufferedWriter
flush w b = elim b.failure [
  | some e ↦ b
  | none ↦
      if text_eq b.pending []
      then b
      else (let (arrived, failure) = w b.pending in
          record { pending = []; arrived = b.arrived ++ arrived; failure = failure })
]

-- `Write` with an empty buffer: a text that does not fit goes to the writer at once.
unfoldable pub write : Writer → Text → BufferedWriter → BufferedWriter
write w text b =
    if ltb buffer_size (length text)
    then (let (arrived, failure) = w text in
        record { pending = []; arrived = b.arrived ++ arrived; failure = failure })
    else record b { pending = text }

-- The end of runPlugin: the error of `Write` is returned, that of the deferred `Flush` is not.
unfoldable pub write_buffered : Writer → Text → Text × Result (Unit {0})
unfolding flush write
write_buffered w text =
    let written = write w text new_writer in
    let flushed = flush w written in
    (flushed.arrived, elim written.failure [ none ↦ ok tt | some e ↦ err e ])

module _ (codec : Codec) where
  unfoldable pub decode_request : Text → Result Text
  decode_request request = elim (codec.decode request) [
    | inl e ↦
        if codec.is_not_registered e
        then err (both (sentinel unsupported_request_kind) e)
        else err e
    | inr (obj, gvk) ↦
        if not (text_eq gvk.kind (codes "CredentialProviderRequest"))
        then err (
            wrap "%w: %s (expected CredentialProviderRequest)" (gvk.kind ∷ [])
              (sentinel unsupported_request_kind))
        else if not (text_eq gvk.group_version.group codec.group_name)
        then err (
            wrap "%w: %s (expected %s)" (gv_string gvk.group_version ∷ gv_string codec.v1 ∷ [])
              (sentinel unsupported_api_version))
        else elim obj [
          | request_object image ↦ ok image
          | _ ↦ err (
              wrap "%w: unable to convert %T to *CredentialProviderRequest" []
                (sentinel conversion_failure))
        ]
  ]

  unfoldable pub encode_response : CredentialProviderResponse → Result Text
  encode_response response =
      if not codec.supports_json
      then err (leaf "unsupported media type %q" (codes "application/json" ∷ []))
      else wrapping "failed to encode response: %w" [] (from_sum (codec.encode response))

  -- Everything before the write: the encoded response.
  unfoldable pub respond : CredentialSource → GoError ⊎ Text → List Text → Result Text
  respond source input args = do
    request ← from_sum input
    gvk ← from_sum (codec.interpret request)
    image ←
        (if not (same_group_version gvk.group_version codec.v1)
          then err (
              wrap "%w: %s" (gv_string gvk.group_version ∷ gvk.kind ∷ [])
                (sentinel unsupported_api_version))
          else decode_request request)
    answer ←
        (if text_eq image []
          then err (wrap "%w" [] (sentinel empty_image_in_request))
          else source image args)
    elim answer [
      | none ↦ err (wrap "%w" [] (sentinel nil_credential_provider_response))
      | some response ↦ encode_response response
    ]

  -- What reaches the writer, and how the call ends.
  unfoldable pub run_plugin :
      CredentialSource → GoError ⊎ Text → Writer → List Text → Text × Result (Unit {0})
  run_plugin source input w args = elim (respond source input args) [
    | ok encoded ↦ write_buffered w encoded
    | err e ↦ ([], err e)
    | crash c ↦ ([], crash c)
  ]

  -- Run
  unfoldable pub run : CredentialSource → Process → Text × Result (Unit {0})
  run source p = run_plugin source p.stdin p.stdout p.arguments
