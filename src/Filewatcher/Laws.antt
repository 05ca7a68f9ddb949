-- ===== src/Filewatcher/Laws.antt =====
-- Which events run the callback, and that its errors do not end the watch.
use dynamic_credential_provi.Base.{
  Bool, Bool-cases, Crash, GoError, List, Option, Result, Result-cases, Text, [], arith, both,
  codes, crash, err, false, if◌then◌else◌, inl, inr, none, ok, refl, some, suc, text_eq,
  text_eq_refl, true, zero, ℕ, ◌&&◌, ◌++◌, ◌||◌, ◌∷◌, ◌≡◌, ◌≢◌, ◌⊎◌,
}
use dynamic_credential_provi.Filewatcher.{
  event_signal, error_signal, is_write, handle_event, Signal, Event, run_callback, watch, is_create,
  start_watching, is_remove, write_only,
}

-- The event may change what the file holds: it writes, removes or creates the file itself, or a
-- link `..data`, by which Kubernetes exchanges mounted files.
abbrev pub is_relevant : (Text → Text) → Text → Event → Bool
is_relevant base_name watched event =
    (event.op.write || (event.op.remove || event.op.create))
    && (text_eq event.event_name watched || text_eq (base_name event.event_name) (codes "..data"))

abbrev pub relevant : (Text → Text) → Text → List Signal → ℕ
relevant base_name watched [] = 0
relevant base_name watched (error_signal e ∷ signals) = relevant base_name watched signals
relevant base_name watched (event_signal event ∷ signals) =
    if is_relevant base_name watched event
    then suc (relevant base_name watched signals)
    else relevant base_name watched signals

module _ {S : Type 0} (base_name : Text → Text)
    (callback : Option (Text → S → S × Result (Unit {0}))) (watched : Text) where
  -- The state after so many runs of the callback, whatever they report.
  abbrev pub runs : ℕ → S → S
  runs zero s = s
  runs (suc n) s = runs n (run_callback base_name callback watched s).0

  pub runs-append :
      (before after : List Signal) (s : S)
      → runs (relevant base_name watched (before ++ after)) s
        ≡ runs (relevant base_name watched after) (runs (relevant base_name watched before) s)
  runs-append [] after s = refl
  runs-append (error_signal e ∷ before) after s = runs-append before after s
  runs-append (event_signal event ∷ before) after s =
      elim (Bool-cases (is_relevant base_name watched event)) [
        | inl h ↦ rw h (runs-append before after (run_callback base_name callback watched s).0)
        | inr h ↦ rw h (runs-append before after s)
      ]

  abbrev pub NeverCrashes : Type 0
  NeverCrashes = (s : S) (c : Crash) → (run_callback base_name callback watched s).1 ≢ crash c

  pub handle_event-relevant :
      (event : Event) (s : S)
      → is_relevant base_name watched event ≡ true
      → handle_event base_name callback watched event s ≡ run_callback base_name callback watched s
  unfolding handle_event is_write is_create is_remove
  handle_event-relevant event s h = ground arith

  pub handle_event-irrelevant :
      (event : Event) (s : S)
      → is_relevant base_name watched event ≡ false
      → handle_event base_name callback watched event s ≡ (s, ok tt)
  unfolding handle_event is_write is_create is_remove
  handle_event-irrelevant event s h = ground arith

  -- With a callback that never crashes, the watch runs it once for each relevant event and for
  -- nothing else, and goes on to the end whatever errors it reports.
  pub watch-runs :
      NeverCrashes
      → (signals : List Signal) (s : S)
      → watch base_name callback watched signals s
        ≡ (runs (relevant base_name watched signals) s, ok tt)
  unfolding watch
  watch-runs safe [] s = refl
  watch-runs safe (error_signal e ∷ signals) s = watch-runs safe signals s
  watch-runs safe (event_signal event ∷ signals) s =
      elim (Bool-cases (is_relevant base_name watched event)) [
        | inl h ↦ elim (Result-cases (run_callback base_name callback watched s).1) [
          | inl (c, e) ↦ absurd (safe s c e)
          | inr e ↦ ground (
            arith,
            handle_event-relevant event s h,
            watch-runs safe signals (run_callback base_name callback watched s).0,
          )
        ]
        | inr h ↦ ground (arith, handle_event-irrelevant event s h, watch-runs safe signals s)
      ]

  pub first_event :
      (s : S)
      → handle_event base_name callback watched (record { event_name = watched; op = write_only }) s
        ≡ run_callback base_name callback watched s
  first_event s =
      handle_event-relevant (record { event_name = watched; op = write_only }) s
        (rw (text_eq_refl watched))

  -- With a callback that never crashes, and once the directory is watched, starting a watch runs
  -- the callback once before any event; if that reports an error the watch ends with it, and
  -- otherwise with the answer of closing the watcher.
  pub start_watching_lem :
      NeverCrashes
      → (close_error : Option GoError) (signals : List Signal) (s : S)
      → (((run_callback base_name callback watched s).1 ≡ ok tt)
          × (start_watching base_name callback watched none close_error signals s ≡ (
            runs (suc (relevant base_name watched signals)) s,
            elim close_error [ none ↦ ok tt | some e ↦ err e ],
          )))
        ⊎ ((e : GoError) × ((run_callback base_name callback watched s).1 ≡ err e)
            × (start_watching base_name callback watched none close_error signals s ≡ (
              (run_callback base_name callback watched s).0,
              err (elim close_error [ none ↦ e | some f ↦ both e f ]),
            )))
  unfolding start_watching
  start_watching_lem safe close_error signals s =
      elim (Result-cases (run_callback base_name callback watched s).1) [
        | inl (c, e) ↦ absurd (safe s c e)
        | inr (inl (e, q)) ↦ inr (e, q, ground (arith, first_event s))
        | inr (inr (u, q)) ↦ inl (
          ground arith,
          ground (
            arith,
            first_event s,
            watch-runs safe signals (run_callback base_name callback watched s).0,
          ),
        )
      ]
