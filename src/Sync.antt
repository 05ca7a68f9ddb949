-- ===== src/Sync.antt =====
-- cmd/dynamic-credential-provider/sync_config.go: the files to watch, and the callback that copies
-- one.
pub mod Laws
pub mod System
pub mod Worker
pub mod Group
use dynamic_credential_provi.Base.{
  Bool, Dict, GoError, List, Option, Result, Text, [], codes, crash, err, if◌then◌else◌, inl, inr,
  none, not, ok, some, ◌++◌, ◌∷◌, ◌⊎◌,
}
use dynamic_credential_provi.Filewatcher.{start_watching, new_file_watcher, Signal}
use dynamic_credential_provi.Go.Strings.{join}

-- What the callback uses of `os`, `path/filepath` and the copy library, on a file system `S`.
-- `is_symlink` is `os.Lstat` with the test of the mode.
pub record SyncFiles (S : Type 0) : Type 0 where
  pub is_symlink : Text → S → GoError ⊎ Bool
  pub readlink : Text → S → GoError ⊎ Text
  pub is_abs : Text → Bool
  pub join_to_dir : Text → Text → Text
  pub copy_to : Text → Text → S → S × Option GoError

module _ {S : Type 0} (files : SyncFiles S) (src : Text) where
  -- The file to copy: a symbolic link is followed once, from the directory of the source.
  unfoldable pub resolve : Text → S → Result Text
  resolve fp s = elim (files.is_symlink fp s) [
    | inl e ↦ err e
    | inr link ↦ if not link then ok fp else elim (files.readlink fp s) [
      | inl e ↦ err e
      | inr target ↦ ok (if not (files.is_abs target) then files.join_to_dir src target else target)
    ]
  ]

  unfoldable pub sync_file : Text → Text → S → S × Result (Unit {0})
  sync_file dest fp s = elim (resolve fp s) [
    | err e ↦ (s, err e)
    | crash c ↦ (s, crash c)
    | ok from ↦
        let (s', failure) = files.copy_to from dest s in
        elim failure [ none ↦ (s', ok tt) | some e ↦ (s', err e) ]
  ]

abbrev default_credential_provider_dir : Text
default_credential_provider_dir = codes "/etc/kubernetes/image-credential-provider"

abbrev pub default_dynamic_credential_provider_config_path : Text
default_dynamic_credential_provider_config_path =
    default_credential_provider_dir ++ codes "/dynamic-credential-provider-config.yaml"

abbrev pub default_static_credentials_path : Text
default_static_credentials_path =
    default_credential_provider_dir ++ codes "/static-image-credentials.json"

-- `filesToSync` where no flag sets it; `join` is `path.Join`.
unfoldable pub default_files_to_sync : (Text → Text → Text) → Dict Text
default_files_to_sync join =
    (
      default_dynamic_credential_provider_config_path,
      join (codes "/host") default_dynamic_credential_provider_config_path,
    )
    ∷ (default_static_credentials_path, join (codes "/host") default_static_credentials_path)
    ∷ []

-- What one file's watch uses of the system, and what it is told there; see `start_watching`.
pub record WatchSystem : Type 0 where
  pub abs : Text → GoError ⊎ Text
  pub base_name : Text → Text
  pub watcher_error : Option GoError
  pub add_error : Option GoError
  pub close_error : Option GoError
  pub signals : List Signal

-- The function that the group runs for one entry of `filesToSync`.
unfoldable pub sync_worker :
    {S : Type 0} → SyncFiles S → WatchSystem → Text → Text → S → S × Result (Unit {0})
sync_worker files sys src dest s =
    elim (new_file_watcher sys.abs sys.watcher_error src (sync_file files src dest)) [
      | err e ↦ (s, err e)
      | crash c ↦ (s, crash c)
      | ok fw ↦
          start_watching sys.base_name fw.callback fw.watched_filepath sys.add_error sys.close_error
            sys.signals s
    ]
