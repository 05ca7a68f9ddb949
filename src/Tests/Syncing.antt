-- ===== src/Tests/Syncing.antt =====
-- The synchronisation of a small file system, with its watcher.
use dynamic_credential_provi.Base.{
  Dict, Option-cases, Text, [], arith, codes, inl, inr, insert, length, lookup, lookup-insert, none,
  ok, ok-injective, refl, some, suc, sym, text_eq, ◌<◌, ◌∷◌, ◌≡◌, ◌⊎◌,
}
use dynamic_credential_provi.Sync.{sync_file, sync_worker, WatchSystem, resolve}
use dynamic_credential_provi.Filewatcher.{
  watch, run_callback, handle_event, is_write, event_signal, start_watching, new_file_watcher,
  write_only,
}
use dynamic_credential_provi.Tests.Watching.{
  small_files-CopiesContent, content_of, stored, copy_text, own_name, small_files,
}
use dynamic_credential_provi.Filewatcher.Laws.{runs, relevant}
use dynamic_credential_provi.Filewatcher.System.{later, started, changed, Reach, System, Drains}
use dynamic_credential_provi.Sync.System.{Synced, KeepsSource, sync_file-drain, Undisturbed}
use dynamic_credential_provi.Sync.Worker.{sync_worker-eq-ok}

-- The watched file is no link: a file of its own.
abbrev watched_file : Text
watched_file = codes "c/file"

abbrev target_file : Text
target_file = codes "h/file"

source_of_watched :
    (from : Text) (s : Dict Text)
    → resolve small_files watched_file watched_file s ≡ ok from
    → from ≡ watched_file
unfolding small_files resolve text_eq
source_of_watched from s e = sym (ok-injective e)

watched_file-kept :
    (s : Dict Text)
    → content_of (copy_text watched_file target_file s).0 watched_file ≡ content_of s watched_file
unfolding content_of copy_text text_eq
watched_file-kept s = elim (Option-cases (lookup watched_file s)) [
  | inl e ↦ ground arith
  | inr (t, e) ↦ ground (arith, lookup-insert target_file watched_file t s)
]

small_files-KeepsSource : KeepsSource small_files content_of watched_file target_file watched_file
unfolding small_files content_of copy_text
small_files-KeepsSource = record {
  keeps_link = λ from s. refl;
  keeps_target = λ from s. refl;
  keeps_content = λ from s e. rw (source_of_watched from s e) (watched_file-kept s);
}

abbrev edited : System (Dict Text)
edited = record {
  world =
      insert watched_file (codes "newer")
        (run_callback own_name (some (sync_file small_files watched_file target_file)) watched_file
          stored).0;
  pending = event_signal (record { event_name = watched_file; op = write_only }) ∷ [];
  failures = [];
}

-- The file was edited once after the watch had started.
edited-Reach :
    Reach own_name
      (some (sync_file small_files watched_file target_file))
      watched_file
      (Undisturbed small_files content_of watched_file target_file watched_file)
      edited
unfolding sync_file resolve small_files copy_text lookup text_eq insert
edited-Reach = later (started stored [] refl) (
    changed _
      (insert watched_file (codes "newer")
        (run_callback own_name (some (sync_file small_files watched_file target_file)) watched_file
          stored).0)
      (event_signal (record { event_name = watched_file; op = write_only })) refl)

sync_file-drain_example :
    (t : System (Dict Text)) × Drains own_name
      (some (sync_file small_files watched_file target_file))
      watched_file
      edited
      t
    × (t.pending ≡ [])
    × (Synced small_files content_of watched_file target_file watched_file t.world
        ⊎ (0 < length t.failures))
sync_file-drain_example =
    sync_file-drain small_files content_of watched_file target_file watched_file
      small_files-CopiesContent small_files-KeepsSource own_name edited-Reach

abbrev small_system : WatchSystem
small_system = record {
  abs = λ p. inr p;
  base_name = own_name;
  watcher_error = none;
  add_error = none;
  close_error = none;
  signals = event_signal (record { event_name = watched_file; op = write_only }) ∷ [];
}

sync_worker-eq-ok_example :
    (fp : Text) × (small_system.abs watched_file ≡ inr fp)
    × ((sync_file small_files watched_file target_file fp stored).1 ≡ ok tt)
    × ((sync_worker small_files small_system watched_file target_file stored).0
        ≡ runs small_system.base_name
            (some (sync_file small_files watched_file target_file))
            fp
            (suc (relevant small_system.base_name fp small_system.signals))
            stored)
unfolding sync_worker new_file_watcher start_watching watch handle_event is_write sync_file resolve
    small_files copy_text lookup text_eq insert
sync_worker-eq-ok_example =
    sync_worker-eq-ok small_files watched_file target_file small_system stored refl
