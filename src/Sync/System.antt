-- ===== src/Sync/System.antt =====
-- A watched file and its copy, while the file changes under the watch.
use dynamic_credential_provi.Base.{
  Option, Result-cases, Text, [], arith, inl, inr, length, none, ok, refl, some, subst, sym, ◌<◌,
  ◌∙◌, ◌≡◌, ◌⊎◌,
}
use dynamic_credential_provi.Sync.{resolve, sync_file, SyncFiles}
use dynamic_credential_provi.Filewatcher.System.{
  Reach-drain, System, Reach-Covered, Reach, Covered, Drains, Establishes,
}
use dynamic_credential_provi.Sync.Laws.{CopiesContent, sync_file-NeverCrashes}
use dynamic_credential_provi.Filewatcher.{run_callback}

module _ {S : Type 0} (files : SyncFiles S) (content : S → Text → Option Text)
    (src dest watched : Text) where
  -- The destination has the content of the watched file, or of the file that it links to.
  abbrev pub Synced : S → Type 0
  Synced s =
      (from : Text) × (resolve files src watched s ≡ ok from) × (content s dest ≡ content s from)

  -- Between these states neither the watched file nor its copy changed.
  pub record Undisturbed (s s' : S) : Type 0 where
    pub same_link : resolve files src watched s' ≡ resolve files src watched s
    pub same_content :
        (from : Text) → resolve files src watched s ≡ ok from → content s' from ≡ content s from
    pub same_copy : content s' dest ≡ content s dest

  Synced-Undisturbed : (s s' : S) → Undisturbed s s' → Synced s → Synced s'
  Synced-Undisturbed s s' same (from, q, e) =
      (from, same.same_link ∙ q, same.same_copy ∙ e ∙ sym (same.same_content from q))

  -- The callback of another file does not disturb this one, if copies to its destination do not.
  pub sync_file-Undisturbed :
      (other_src other_dest fp : Text) (s : S)
      → ((from : Text) → Undisturbed s (files.copy_to from other_dest s).0)
      → Undisturbed s (sync_file files other_src other_dest fp s).0
  unfolding sync_file
  sync_file-Undisturbed other_src other_dest fp s apart =
      elim (Result-cases (resolve files other_src fp s)) [
        | inl (c, e) ↦ unchanged (ground arith)
        | inr (inl (x, e)) ↦ unchanged (ground arith)
        | inr (inr (from, e)) ↦
            let copied : (sync_file files other_src other_dest fp s).0
                ≡ (files.copy_to from other_dest s).0 =
              ground arith in
            subst (Undisturbed s) (sym copied) (apart from)
      ]
    where
      still : Undisturbed s s
      still = record { same_link = refl; same_content = λ from q. refl; same_copy = refl }

      unchanged :
          (sync_file files other_src other_dest fp s).0 ≡ s
          → Undisturbed s (sync_file files other_src other_dest fp s).0
      unchanged e = subst (Undisturbed s) (sym e) still

  -- Copying to the destination writes neither the watched file nor the file that it links to.
  pub record KeepsSource : Type 0 where
    pub keeps_link :
        (from : Text) (s : S)
        → files.is_symlink watched (files.copy_to from dest s).0 ≡ files.is_symlink watched s
    pub keeps_target :
        (from : Text) (s : S)
        → files.readlink watched (files.copy_to from dest s).0 ≡ files.readlink watched s
    pub keeps_content :
        (from : Text) (s : S)
        → resolve files src watched s ≡ ok from
        → content (files.copy_to from dest s).0 from ≡ content s from

  module _ (copies : CopiesContent files content) (keeps : KeepsSource) where
    resolve-copy :
        (from : Text) (s : S)
        → resolve files src watched (files.copy_to from dest s).0 ≡ resolve files src watched s
    unfolding resolve
    resolve-copy from s = ground (arith, keeps.keeps_link from s, keeps.keeps_target from s)

    copied :
        (from : Text) (s : S)
        → resolve files src watched s ≡ ok from
        → (sync_file files src dest watched s).1 ≡ ok tt
        → ((sync_file files src dest watched s).0 ≡ (files.copy_to from dest s).0)
          × ((files.copy_to from dest s).1 ≡ none)
    unfolding sync_file
    copied from s q h = ground arith

    sync_file-Synced :
        (s : S)
        → (sync_file files src dest watched s).1 ≡ ok tt
        → Synced (sync_file files src dest watched s).0
    unfolding sync_file
    sync_file-Synced s h = elim (Result-cases (resolve files src watched s)) [
      | inl (c, e) ↦ absurd (ground arith)
      | inr (inl (e, q)) ↦ absurd (ground arith)
      | inr (inr (from, q)) ↦
          let (left, p) = copied from s q h in
          rw left (
            from,
            resolve-copy from s ∙ q,
            copies from dest s p ∙ sym (keeps.keeps_content from s q),
          )
    ]

    run_callback-Synced :
        (base_name : Text → Text) (s : S)
        → (run_callback base_name (some (sync_file files src dest)) watched s).1 ≡ ok tt
        → Synced (run_callback base_name (some (sync_file files src dest)) watched s).0
    run_callback-Synced base_name s h = elim (Result-cases (sync_file files src dest watched s).1) [
      | inl (c, e) ↦ absurd (ground arith)
      | inr (inl (e, q)) ↦ absurd (ground arith)
      | inr (inr (u, q)) ↦
          let same : (run_callback base_name (some (sync_file files src dest)) watched s).0
              ≡ (sync_file files src dest watched s).0 =
            ground arith in
          rw same (sync_file-Synced s q)
    ]

    sync_file-Establishes :
        (base_name : Text → Text)
        → Establishes base_name (some (sync_file files src dest)) watched Synced
    sync_file-Establishes base_name = record {
      never_crashes = sync_file-NeverCrashes files content src dest base_name watched;
      establishes = λ s h. run_callback-Synced base_name s h;
    }

    -- In every state that a started watch reaches, however the watched file changed, signals
    -- arrived and other changes left the file and its copy alone, the destination has the content
    -- of the watched file, or of the file it links to, or a relevant event or an error of the
    -- watcher is pending, or an error was logged after the last success of the callback, given a
    -- copy that copies contents and leaves its source alone, and a watcher that sends a relevant
    -- event or an error for every change.
    pub sync_file-Covered :
        (base_name : Text → Text) {s : System S}
        → Reach base_name (some (sync_file files src dest)) watched Undisturbed s
        → Covered base_name (some (sync_file files src dest)) watched Synced s
    sync_file-Covered base_name r =
        Reach-Covered base_name (some (sync_file files src dest)) watched Synced
          (sync_file-Establishes base_name) Undisturbed Synced-Undisturbed r

    -- From every state that a started watch reaches, however the watched file changed, signals
    -- arrived and other changes left the file and its copy alone, the loop can receive all that is
    -- pending, and then the destination has the content of the watched file, or of the file it
    -- links to, or an error was logged after the last success of the callback, given a copy that
    -- copies contents and leaves its source alone, and a watcher that sends a relevant event or an
    -- error for every change.
    pub sync_file-drain :
        (base_name : Text → Text) {s : System S}
        → Reach base_name (some (sync_file files src dest)) watched Undisturbed s
        → (t : System S) × Drains base_name (some (sync_file files src dest)) watched s t
          × (t.pending ≡ [])
          × (Synced t.world ⊎ (0 < length t.failures))
    sync_file-drain base_name r =
        Reach-drain base_name (some (sync_file files src dest)) watched Synced
          (sync_file-Establishes base_name) Undisturbed Synced-Undisturbed r
