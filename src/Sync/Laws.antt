-- ===== src/Sync/Laws.antt =====
-- After the last event of a file its copy is up to date.
use dynamic_credential_provi.Base.{
  Crash, List, Option, Result-cases, Text, arith, crash, inl, inr, none, ok, some, true, ◌++◌, ◌∷◌,
  ◌≡◌, ◌≢◌,
}
use dynamic_credential_provi.Filewatcher.{event_signal, Event, watch, Signal}
use dynamic_credential_provi.Sync.{SyncFiles, sync_file, resolve}
use dynamic_credential_provi.Filewatcher.Laws.{
  relevant, NeverCrashes, is_relevant, watch-runs, runs, runs-append,
}

-- A copy that reports no error has the source's content.
abbrev pub CopiesContent : {S : Type 0} → SyncFiles S → (S → Text → Option Text) → Type 0
CopiesContent files content =
    (from to : Text) (s : _)
    → (files.copy_to from to s).1 ≡ none
    → content (files.copy_to from to s).0 to ≡ content s from

module _ {S : Type 0} (files : SyncFiles S) (content : S → Text → Option Text)
    (src dest : Text) where
  -- A run of the callback that reports no error leaves in the destination the content of the file
  -- that is watched, or of the file that it links to.
  sync_file-done :
      CopiesContent files content
      → (fp : Text) (s : S) → (sync_file files src dest fp s).1 ≡ ok tt
      → (from : Text) × (resolve files src fp s ≡ ok from)
        × (content (sync_file files src dest fp s).0 dest ≡ content s from)
  unfolding sync_file
  sync_file-done copies fp s h = elim (Result-cases (resolve files src fp s)) [
    | inl (c, e) ↦ absurd (ground arith)
    | inr (inl (e, q)) ↦ absurd (ground arith)
    | inr (inr (from, q)) ↦ (from, q, ground (arith, copies from dest s))
  ]

  sync_file-total : (fp : Text) (s : S) (c : Crash) → (sync_file files src dest fp s).1 ≢ crash c
  unfolding sync_file resolve
  sync_file-total fp s c h = ground arith

  module _ (base_name : Text → Text) (watched : Text) where
    pub sync_file-NeverCrashes : NeverCrashes base_name (some (sync_file files src dest)) watched
    sync_file-NeverCrashes s c h = ground (arith, sync_file-total watched s c)

    -- If the callback for the last relevant event reports no error, the destination ends with the
    -- content that the watched file, or the file it links to, then had, whatever came before, given
    -- a copy that copies contents.
    pub watch-synced :
        CopiesContent files content
        → (before after : List Signal) (event : Event) (s now : S)
        → watch base_name (some (sync_file files src dest)) watched before s ≡ (now, ok tt)
        → is_relevant base_name watched event ≡ true
        → relevant base_name watched after ≡ 0
        → (sync_file files src dest watched now).1 ≡ ok tt
        → (from : Text) × (resolve files src watched now ≡ ok from)
          × (content
                (watch base_name
                  (some (sync_file files src dest))
                  watched
                  (before ++ event_signal event ∷ after)
                  s).0
                dest
              ≡ content now from)
    watch-synced copies before after event s now b r a h =
        let count = relevant base_name watched before in
        let (from, q, e) = sync_file-done copies watched now h in
        let ran : watch base_name (some (sync_file files src dest)) watched before s
            ≡ (runs base_name (some (sync_file files src dest)) watched count s, ok tt) =
          watch-runs base_name (some (sync_file files src dest)) watched sync_file-NeverCrashes
            before s in
        (
          from,
          q,
          ground (
            arith,
            e,
            b,
            ran,
            r,
            a,
            watch-runs base_name (some (sync_file files src dest)) watched sync_file-NeverCrashes
                (before ++ event_signal event ∷ after) s,
            runs-append base_name (some (sync_file files src dest)) watched before
                (event_signal event ∷ after) s,
          ),
        )
