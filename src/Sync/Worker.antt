-- ===== src/Sync/Worker.antt =====
-- What a worker that ends without an error has done.
use dynamic_credential_provi.Base.{
  GoError, Option, Result, Text, ap, arith, err, inl, inr, none, ok, refl, some, suc, sym, ◌∙◌, ◌≡◌,
  ◌⊎◌,
}
use dynamic_credential_provi.Sync.{SyncFiles, sync_worker, WatchSystem, sync_file}
use dynamic_credential_provi.Filewatcher.{new_file_watcher, run_callback, start_watching}
use dynamic_credential_provi.Filewatcher.Laws.{start_watching_lem, relevant, runs}
use dynamic_credential_provi.Sync.Laws.{sync_file-NeverCrashes}

module _ {S : Type 0} (files : SyncFiles S) (src dest : Text) where
  abbrev pub callback_of : Option (Text → S → S × Result (Unit {0}))
  callback_of = some (sync_file files src dest)

  started-ok :
      (sys : WatchSystem) (fp : Text) (s : S)
      → (start_watching sys.base_name callback_of fp none sys.close_error sys.signals s).1 ≡ ok tt
      → ((run_callback sys.base_name callback_of fp s).1 ≡ ok tt)
        × ((start_watching sys.base_name callback_of fp none sys.close_error sys.signals s).0
            ≡ runs sys.base_name callback_of fp (suc (relevant sys.base_name fp sys.signals)) s)
  started-ok sys fp s h =
      elim (start_watching_lem sys.base_name callback_of fp
        (sync_file-NeverCrashes files (λ s p. none) src dest sys.base_name fp) sys.close_error
        sys.signals s) [
          | inl (first, e) ↦ (first, ap (λ (r : S × Result (Unit {0})). r.0) e)
          | inr (x, first, e) ↦ absurd (ground arith)
        ]

  added :
      (sys : WatchSystem) (fp : Text) (s : S)
      → sys.abs src ≡ inr fp
      → sys.watcher_error ≡ none
      → sys.add_error ≡ none
      → sync_worker files sys src dest s
        ≡ start_watching sys.base_name callback_of fp none sys.close_error sys.signals s
  unfolding sync_worker new_file_watcher
  added sys fp s p q r = ground arith

  not_added :
      (sys : WatchSystem) (fp : Text) (s : S) (e : GoError)
      → sys.abs src ≡ inr fp
      → sys.watcher_error ≡ none
      → sys.add_error ≡ some e
      → (sync_worker files sys src dest s).1 ≡ err e
  unfolding sync_worker new_file_watcher start_watching
  not_added sys fp s e p q r = ground arith

  no_watcher :
      (sys : WatchSystem) (fp : Text) (s : S) (e : GoError)
      → sys.abs src ≡ inr fp
      → sys.watcher_error ≡ some e
      → (sync_worker files sys src dest s).1 ≡ err e
  unfolding sync_worker new_file_watcher
  no_watcher sys fp s e p q = ground arith

  no_path :
      (sys : WatchSystem) (s : S) (e : GoError)
      → sys.abs src ≡ inl e
      → (sync_worker files sys src dest s).1 ≡ err e
  unfolding sync_worker new_file_watcher
  no_path sys s e p = ground arith

  called :
      (base_name : Text → Text) (fp : Text) (s : S)
      → (run_callback base_name callback_of fp s).1 ≡ ok tt
      → (sync_file files src dest fp s).1 ≡ ok tt
  called base_name fp s h = ground arith

  -- If the function for one file ends without an error, the absolute path was found, the first copy
  -- succeeded, and the callback has run once at the start and once for each relevant event, and for
  -- nothing else.
  pub sync_worker-eq-ok :
      (sys : WatchSystem) (s : S)
      → (sync_worker files sys src dest s).1 ≡ ok tt
      → (fp : Text) × (sys.abs src ≡ inr fp)
        × ((sync_file files src dest fp s).1 ≡ ok tt)
        × ((sync_worker files sys src dest s).0
            ≡ runs sys.base_name callback_of fp (suc (relevant sys.base_name fp sys.signals)) s)
  sync_worker-eq-ok sys s h = go (sys.abs src) refl sys.watcher_error refl sys.add_error refl
    where
      go :
          (a : GoError ⊎ Text)
          → sys.abs src ≡ a
          → (w : Option GoError) → sys.watcher_error ≡ w
          → (d : Option GoError) → sys.add_error ≡ d
          → (fp : Text) × (sys.abs src ≡ inr fp)
            × ((sync_file files src dest fp s).1 ≡ ok tt)
            × ((sync_worker files sys src dest s).0
                ≡ runs sys.base_name callback_of fp (suc (relevant sys.base_name fp sys.signals)) s)
      go (inl e) p w q d r = let end = no_path sys s e p in absurd (ground arith)
      go (inr fp) p (some e) q d r = let end = no_watcher sys fp s e p q in absurd (ground arith)
      go (inr fp) p none q (some e) r =
          let end = not_added sys fp s e p q r in absurd (ground arith)
      go (inr fp) p none q none r =
          let (first, end) =
            started-ok sys fp s
              (sym (ap (λ (x : S × Result (Unit {0})). x.1) (added sys fp s p q r)) ∙ h) in
          (
            fp,
            p,
            called sys.base_name fp s first,
            ap (λ (x : S × Result (Unit {0})). x.0) (added sys fp s p q r) ∙ end,
          )
