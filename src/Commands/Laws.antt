-- ===== src/Commands/Laws.antt =====
-- What the two commands write, and when they succeed.
use dynamic_credential_provi.Base.{
  GoError, List, Result, String, Text, [], arith, crash, err, inr, none, ok, ok-injective, refl,
  subst, sym, wrapping, ◌↔◌, ◌∙◌, ◌≡◌, ◌⊎◌,
}
use dynamic_credential_provi.Static
use dynamic_credential_provi.Plugin
use dynamic_credential_provi.Commands.{
  run_get_credentials, run_static, credentials_file_for, Setup, dynamic_source,
}
use dynamic_credential_provi.Kubernetes.{Codec}
use dynamic_credential_provi.Plugin.{Writer, run_plugin}
use dynamic_credential_provi.Dynamic.Register.{new_provider_from_config_file, DynamicProvider}
use dynamic_credential_provi.Plugin.Laws.{respond_iff, run_plugin_iff}
use dynamic_credential_provi.Plugin.Answers.{Answers}
use dynamic_credential_provi.Static.{new_provider}

-- What a command returns for what it runs: an error is wrapped.
abbrev returned : String → Text × Result (Unit {0}) → Text × Result (Unit {0})
returned format run = (run.0, wrapping format [] run.1)

wrapping_run :
    (format : String) (run : Text × Result (Unit {0})) (out : Text)
    → (returned format run ≡ (out, ok tt)) ↔ (run ≡ (out, ok tt))
wrapping_run format (text, ok u) out = (λ h. h, λ h. h)
wrapping_run format (text, err e) out = (λ h. absurd (ground arith), λ h. absurd (ground arith))
wrapping_run format (text, crash c) out = (λ h. absurd (ground arith), λ h. absurd (ground arith))

abbrev pub IsLossless : Writer → Type 0
IsLossless w = (text : Text) → w text ≡ (text, none)

-- static-credential-provider succeeds with an output exactly if that is the encoded answer of its
-- credentials file to the request.
pub run_static_iff :
    (codec : Codec) (read_file : Text → GoError ⊎ Text) (args : List Text) (request : Text)
    (w : Writer) (os_args : List Text) (out : Text)
    → IsLossless w
    → (run_static codec read_file args (inr request) w os_args ≡ (out, ok tt))
      ↔ Answers codec
          (Static.get_credentials codec read_file
            (record { credentials_file = credentials_file_for args }))
          os_args
          request
          out
unfolding run_static Static.new_provider Plugin.run
run_static_iff codec read_file args request w os_args out lossless =
    let source =
      Static.get_credentials codec read_file
        (record { credentials_file = credentials_file_for args }) in
    let ran =
      wrapping_run "error running static credential provider: %w"
        (run_plugin codec source (inr request) w os_args) out in
    let written = run_plugin_iff codec source os_args (inr request) w out lossless in
    let answers = respond_iff codec source os_args request out in
    (λ h. answers.0 (written.0 (ran.0 h)), λ h. ran.1 (written.1 (answers.1 h)))

-- With a writer that takes everything, get-credentials succeeds with an output exactly if the
-- configuration file leads to a registered provider, which asks its plugins in the order of their
-- registration, and the output is the encoded answer of that provider to the request.
pub run_get_credentials_iff :
    (s : Setup) (config_file request : Text) (w : Writer) (os_args : List Text) (out : Text)
    → IsLossless w
    → (run_get_credentials s config_file (inr request) w os_args ≡ (out, ok tt)) ↔ (
        (prov : DynamicProvider) × (new_provider_from_config_file s.codec s.files config_file
          ≡ ok prov)
        × Answers s.plugin_codec (dynamic_source s prov) os_args request out)
unfolding run_get_credentials Plugin.run
run_get_credentials_iff s config_file request w os_args out lossless =
    go (new_provider_from_config_file s.codec s.files config_file) refl
  where
    go :
        (loaded : Result DynamicProvider)
        → new_provider_from_config_file s.codec s.files config_file ≡ loaded
        → (run_get_credentials s config_file (inr request) w os_args ≡ (out, ok tt)) ↔ (
            (prov : DynamicProvider) × (new_provider_from_config_file s.codec s.files config_file
              ≡ ok prov)
            × Answers s.plugin_codec (dynamic_source s prov) os_args request out)
    go (err e) p = (λ h. absurd (ground arith), λ (x, q, a). absurd (ground arith))
    go (crash c) p = (λ h. absurd (ground arith), λ (x, q, a). absurd (ground arith))
    go (ok prov) p =
        let source = dynamic_source s prov in
        let ran =
          wrapping_run "error running dynamic credential provider: %w"
            (run_plugin s.plugin_codec source (inr request) w os_args) out in
        let written = run_plugin_iff s.plugin_codec source os_args (inr request) w out lossless in
        let answers = respond_iff s.plugin_codec source os_args request out in
        (
          λ h. (prov, p, answers.0 (written.0 (ran.0 (rw (p, run_get_credentials) at h)))),
          λ (x, q, a).
              let same : x ≡ prov = ok-injective (sym q ∙ p) in
              rw (p, run_get_credentials)
                (ran.1 (
                  written.1 (
                    answers.1 (
                      subst
                        (λ (y : DynamicProvider).
                          Answers s.plugin_codec (dynamic_source s y) os_args request out)
                        same a)))),
        )
