-- ===== src/Sync/Group/Begin.antt =====
-- How a worker begins, and what it does to the files.
use dynamic_credential_provi.Base.{
  Bool-cases, GoError, List, Option, Result, Result-cases, Text, ap, arith, crash, err, inl, inr,
  none, ok, ok-injective, refl, some, subst, sym, text_eq, text_eq→eq, text_eq→ne, ◌∙◌, ◌≡◌, ◌≢◌,
  ◌⊎◌,
}
use dynamic_credential_provi.Filewatcher.{
  event_signal, error_signal, start_watching, new_file_watcher, Signal, closing, watch,
  run_callback,
}
use dynamic_credential_provi.Sync.{sync_worker, sync_file, WatchSystem, SyncFiles}
use dynamic_credential_provi.Filewatcher.Laws.{
  handle_event-irrelevant, first_event, handle_event-relevant, is_relevant,
}
use dynamic_credential_provi.Filewatcher.System.{receive, System}
use dynamic_credential_provi.Sync.Group.{Phase, begin_worker, set_phase}

pub set_phase-cases :
    (src other : Text) (new : Phase) (phases : Text → Phase)
    → ((src ≡ other) × (set_phase src new phases other ≡ new))
      ⊎ ((src ≢ other) × (set_phase src new phases other ≡ phases other))
set_phase-cases src other new phases = elim (Bool-cases (text_eq src other)) [
  | inl e ↦ inl (text_eq→eq src other e, ground arith)
  | inr e ↦ inr (text_eq→ne src other e, ground arith)
]

module _ {S : Type 0} (files : SyncFiles S) (abs : Text → GoError ⊎ Text)
    (base_name : Text → Text) where
  pub begin_worker-ok :
      (src dest : Text) (we ae ce : Option GoError) (s s' : S) (fp : Text)
      → begin_worker files abs base_name we ae ce src dest s ≡ (s', ok fp)
      → (abs src ≡ inr fp)
        × (run_callback base_name (some (sync_file files src dest)) fp s ≡ (s', ok tt))
  unfolding begin_worker new_file_watcher
  begin_worker-ok src dest we ae ce s s' fp h = go (abs src) refl we refl ae refl
    where
      go :
          (a : GoError ⊎ Text)
          → abs src ≡ a
          → (w : Option GoError) → we ≡ w
          → (d : Option GoError) → ae ≡ d
          → (abs src ≡ inr fp)
            × (run_callback base_name (some (sync_file files src dest)) fp s ≡ (s', ok tt))
      go (inl e) p w q d r = absurd (ground arith)
      go (inr found) p (some e) q d r = absurd (ground arith)
      go (inr found) p none q (some e) r = absurd (ground arith)
      go (inr found) p none q none r =
          let first = first_event base_name (some (sync_file files src dest)) found s in
          elim (Result-cases (sync_file files src dest found s).1) [
            | inl (c, x) ↦ absurd (ground arith)
            | inr (inl (e, x)) ↦ absurd (ground arith)
            | inr (inr (u, x)) ↦
                let ran : begin_worker files abs base_name we ae ce src dest s
                    ≡ ((sync_file files src dest found s).0, ok found) =
                  ground arith in
                let same : found ≡ fp =
                  ok-injective (ap (λ (run : S × Result Text). run.1) (sym ran ∙ h)) in
                let left : (sync_file files src dest found s).0 ≡ s' =
                  ap (λ (run : S × Result Text). run.0) (sym ran ∙ h) in
                (
                  p ∙ ap inr same,
                  subst
                      (λ q.
                        run_callback base_name (some (sync_file files src dest)) q s ≡ (s', ok tt))
                      same (ground (arith, left)),
                )
          ]

  -- What a worker does to the files is what its callback does, if it does anything.
  begin_worker-writes :
      (src dest : Text) (we ae ce : Option GoError) (s : S)
      → ((begin_worker files abs base_name we ae ce src dest s).0 ≡ s)
        ⊎ ((fp : Text) × ((begin_worker files abs base_name we ae ce src dest s).0
              ≡ (sync_file files src dest fp s).0))
  unfolding begin_worker new_file_watcher
  begin_worker-writes src dest we ae ce s = go (abs src) refl we refl ae refl
    where
      go :
          (a : GoError ⊎ Text)
          → abs src ≡ a
          → (w : Option GoError) → we ≡ w
          → (d : Option GoError) → ae ≡ d
          → ((begin_worker files abs base_name we ae ce src dest s).0 ≡ s)
            ⊎ ((fp : Text) × ((begin_worker files abs base_name we ae ce src dest s).0
                  ≡ (sync_file files src dest fp s).0))
      go (inl e) p w q d r = inl (ground arith)
      go (inr found) p (some e) q d r = inl (ground arith)
      go (inr found) p none q (some e) r = inl (ground arith)
      go (inr found) p none q none r =
          let first = first_event base_name (some (sync_file files src dest)) found s in
          inr (found, ground arith)

  pub begin_worker-left :
      (src dest : Text) (we ae ce : Option GoError) (s s' : S) (result : Result Text)
      → begin_worker files abs base_name we ae ce src dest s ≡ (s', result)
      → (s' ≡ s) ⊎ ((fp : Text) × (s' ≡ (sync_file files src dest fp s).0))
  begin_worker-left src dest we ae ce s s' result e =
      subst (λ w. (w ≡ s) ⊎ ((fp : Text) × (w ≡ (sync_file files src dest fp s).0)))
        (ap (λ (x : S × Result Text). x.0) e) (begin_worker-writes src dest we ae ce s)

  pub receive-writes :
      (src dest fp : Text) (signal : Signal) (rest : List Signal) (s : System S)
      → ((receive base_name (some (sync_file files src dest)) fp signal rest s).world ≡ s.world)
        ⊎ ((receive base_name (some (sync_file files src dest)) fp signal rest s).world
            ≡ (sync_file files src dest fp s.world).0)
  unfolding watch
  receive-writes src dest fp (error_signal e) rest s = inl refl
  receive-writes src dest fp (event_signal event) rest s =
      elim (Bool-cases (is_relevant base_name fp event)) [
        | inl h ↦ inr (
            ground (
              arith,
              handle_event-relevant base_name (some (sync_file files src dest)) fp event s.world h,
            ))
        | inr h ↦ inl (
            ground (
              arith,
              handle_event-irrelevant base_name (some (sync_file files src dest)) fp event s.world
                  h,
            ))
      ]

-- The rest of a worker that has begun, up to the end of the context.
abbrev rest_of_worker :
    {S : Type 0} → SyncFiles S → WatchSystem → Text → Text → S × Result Text → S × Result (Unit {0})
rest_of_worker files sys src dest (s, err e) = (s, err e)
rest_of_worker files sys src dest (s, crash c) = (s, crash c)
rest_of_worker files sys src dest (s, ok fp) =
    let (s', watched) = watch sys.base_name (some (sync_file files src dest)) fp sys.signals s in
    elim watched [
      | crash c ↦ (s', crash c)
      | err e ↦ (s', closing sys.base_name (some (sync_file files src dest)) fp sys.close_error)
      | ok _ ↦ (s', closing sys.base_name (some (sync_file files src dest)) fp sys.close_error)
    ]

-- The parts make up the function that the group runs.
pub rest_of_worker-begin_worker :
    {S : Type 0} (files : SyncFiles S) (sys : WatchSystem) (src dest : Text) (s : S)
    → sync_worker files sys src dest s
      ≡ rest_of_worker files sys src dest (
          begin_worker files sys.abs sys.base_name sys.watcher_error sys.add_error sys.close_error
            src dest s)
unfolding sync_worker begin_worker new_file_watcher start_watching
rest_of_worker-begin_worker files sys src dest s = ground arith
