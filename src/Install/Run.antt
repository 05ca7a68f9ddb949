-- ===== src/Install/Run.antt =====
-- `Install`: configuration, target directory, and the loop over the source directory.
pub mod Laws
use dynamic_credential_provi.Base.{
  Bool, GoError, List, Result, Text, [], crash, err, false, if◌then◌else◌, inl, inr, none, not, ok,
  some, text_eq, true, wrap, wrapping, ◌&&◌, ◌∷◌, ◌⊎◌,
}
use dynamic_credential_provi.Install.Files.{
  Os, stat_failure, stat_missing, stat, Files, is_dir, stat_info,
}
use dynamic_credential_provi.Go.Strings.{join}
use dynamic_credential_provi.Install.Copy.{copy_file_and_permissions}

pub record Config : Type 0 where
  pub skip_credential_provider_binaries : List Text
  pub update_credential_provider_binaries : Bool
  pub credential_provider_source_dir : Text
  pub credential_provider_target_dir : Text

skip_names : List Text → Text → Bool
skip_names [] binary = false
skip_names (name ∷ names) binary = if text_eq name binary then true else skip_names names binary

unfoldable pub skip_binary : Config → Text → Bool
unfolding skip_names
skip_binary c binary = skip_names c.skip_credential_provider_binaries binary

-- A directory does not count as a file that exists.
unfoldable pub file_exists : Os → Files → Text → Result Bool
file_exists os fs p = elim (stat os fs p) [
  | stat_missing ↦ ok false
  | stat_failure e ↦ err (wrap "failed to check if file %q exists: %w" (p ∷ []) e)
  | stat_info info ↦ ok (not (is_dir info))
]

unfoldable pub ensure_dir_exists : Os → Text → Files → Files × Result (Unit {0})
ensure_dir_exists os dir fs =
    let (made, failure) = os.mkdir_all dir fs in
    elim failure [
      | some e ↦ (made, err (wrap "failed to create target directory: %w" [] e))
      | none ↦
          let (probed, unwriteable) = os.is_dir_writeable dir made in
          elim unwriteable [
            | some e ↦ (probed, err (wrap "directory is not writeable: %w" [] e))
            | none ↦ (probed, ok tt)
          ]
    ]

abbrev pub target_of : Os → Config → Text → Text
target_of os c binary = os.join c.credential_provider_target_dir binary

abbrev pub source_of : Os → Config → Text → Text
source_of os c binary = os.join c.credential_provider_source_dir binary

-- One round of the loop.
unfoldable pub install_binary : Os → Config → Text → Files → Files × Result (Unit {0})
install_binary os c binary fs =
    let target = target_of os c binary in
    if skip_binary c binary then (fs, ok tt) else elim (file_exists os fs target) [
      | err e ↦ (fs, err e)
      | crash x ↦ (fs, crash x)
      | ok exists ↦
          if exists && not c.update_credential_provider_binaries
          then (fs, ok tt)
          else (let (fs', result) =
                copy_file_and_permissions os (source_of os c binary) target fs in
              (fs', wrapping "failed to install %q: %w" (target ∷ []) result))
    ]

-- Goes on in the files that a call leaves, if it succeeds.
abbrev pub and_then :
    Files × Result (Unit {0}) → (Files → Files × Result (Unit {0})) → Files × Result (Unit {0})
and_then (fs, ok _) next = next fs
and_then (fs, err e) next = (fs, err e)
and_then (fs, crash c) next = (fs, crash c)

unfoldable pub install_binaries : Os → Config → List Text → Files → Files × Result (Unit {0})
install_binaries os c [] fs = (fs, ok tt)
install_binaries os c (binary ∷ binaries) fs =
    and_then (install_binary os c binary fs) (install_binaries os c binaries)

-- `config` is what `envconfig.Process` gives.
unfoldable pub install : Os → GoError ⊎ Config → Files → Files × Result (Unit {0})
install os (inl e) fs = (fs, err (wrap "failed to parse env config: %w" [] e))
install os (inr c) fs =
    let (fs', result) = ensure_dir_exists os c.credential_provider_target_dir fs in
    and_then
      (fs', wrapping "failed to ensure target directory exists and is writable: %w" [] result)
      (λ files. elim (os.read_dir c.credential_provider_source_dir files) [
        | inl e ↦ (files, err (wrap "failed to read source binaries: %w" [] e))
        | inr binaries ↦ install_binaries os c binaries files
      ])
