-- ===== src/Tests/Watching.antt =====
-- A watched file in a small file system.
use dynamic_credential_provi.Base.{
  Dict, GoError, Option, Option-cases, Result, Text, [], arith, codes, has_prefix, inl, inr, insert,
  leaf, lookup, lookup-insert, none, ok, refl, some, text_eq, text_eq_refl, ◌++◌, ◌∷◌, ◌≡◌,
}
use dynamic_credential_provi.Filewatcher.{event_signal, error_signal, write_only, Event, watch}
use dynamic_credential_provi.Sync.{SyncFiles, resolve, sync_file}
use dynamic_credential_provi.Sync.Laws.{CopiesContent, watch-synced}

unfoldable pub copy_text : Text → Text → Dict Text → Dict Text × Option GoError
copy_text from to s = elim (lookup from s) [
  | none ↦ (s, some (leaf "no such file" []))
  | some t ↦ (insert to t s, none)
]

unfoldable pub small_files : SyncFiles (Dict Text)
unfolding copy_text
small_files = record {
  is_symlink = λ fp s. inr (text_eq fp (codes "c/link"));
  readlink = λ fp s. inr (codes "file");
  is_abs = λ fp. has_prefix (codes "/") fp;
  join_to_dir = λ source fp. codes "c/" ++ fp;
  copy_to = copy_text;
}

unfoldable pub content_of : Dict Text → Text → Option Text
content_of s p = lookup p s

pub small_files-CopiesContent : CopiesContent small_files content_of
unfolding small_files copy_text content_of
small_files-CopiesContent from to s h = elim (Option-cases (lookup from s)) [
  | inl e ↦ absurd (ground arith)
  | inr (t, e) ↦ ground (arith, lookup-insert to to t s, text_eq_refl to)
]

abbrev written : Event
written = record { event_name = codes "c/link"; op = write_only }

abbrev other_file : Event
other_file = record { event_name = codes "c/other"; op = write_only }

abbrev pub stored : Dict Text
stored = (codes "c/file", codes "new") ∷ (codes "h/link", codes "old") ∷ []

abbrev syncing : Option (Text → Dict Text → Dict Text × Result (Unit {0}))
syncing = some (sync_file small_files (codes "c/link") (codes "h/link"))

abbrev pub own_name : Text → Text
own_name p = p

watch-synced_example :
    (from : Text) × (resolve small_files (codes "c/link") (codes "c/link") stored ≡ ok from)
    × (content_of
          (watch own_name syncing
            (codes "c/link")
            (error_signal (leaf "overflow" [])
              ∷ event_signal written
              ∷ event_signal other_file
              ∷ [])
            stored).0
          (codes "h/link")
        ≡ content_of stored from)
unfolding small_files copy_text text_eq lookup has_prefix insert resolve sync_file watch
watch-synced_example =
    watch-synced small_files content_of (codes "c/link") (codes "h/link") own_name (codes "c/link")
      small_files-CopiesContent (error_signal (leaf "overflow" []) ∷ [])
      (event_signal other_file ∷ []) written stored stored refl refl refl refl
