-- ===== src/Filewatcher.antt =====
-- pkg/filewatcher/watcher.go: a callback that runs on the events of a file.
pub mod Laws
pub mod System
use dynamic_credential_provi.Base.{
  Bool, GoError, List, Option, Result, Text, [], both, codes, crash, err, false, if◌then◌else◌, inl,
  inr, none, not, ok, some, text_eq, true, wrap, ◌&&◌, ◌∷◌, ◌⊎◌,
}

-- An `fsnotify.Op` is a set of flags.
pub record Op : Type 0 where
  pub create : Bool
  pub write : Bool
  pub remove : Bool
  pub rename : Bool
  pub chmod : Bool

pub record Event : Type 0 where
  pub event_name : Text
  pub op : Op

abbrev pub write_only : Op
write_only = record { create = false; write = true; remove = false; rename = false; chmod = false }

-- What the watcher's two channels deliver, one after the other.
pub data Signal : Type 0 where
  event_signal : Event → Signal
  error_signal : GoError → Signal

unfoldable pub is_write : Event → Bool
is_write event = event.op.write

unfoldable pub is_create : Event → Bool
is_create event = event.op.create

unfoldable pub is_remove : Event → Bool
is_remove event = event.op.remove

-- `base_name` is `filepath.Base`, and `S` the state that the callback works on. `callback` is
-- `none` if it is nil.
module _ {S : Type 0} (base_name : Text → Text)
    (callback : Option (Text → S → S × Result (Unit {0}))) (watched_filepath : Text) where
  abbrev pub run_callback : S → S × Result (Unit {0})
  run_callback s = elim callback [
    | none ↦ (s, ok tt)
    | some call ↦
        let (s', result) = call watched_filepath s in
        elim result [
          | ok _ ↦ (s', ok tt)
          | err e ↦
              (s', err (wrap "error running callback for file %q: %w" (watched_filepath ∷ []) e))
          | crash c ↦ (s', crash c)
        ]
  ]

  unfoldable pub handle_event : Event → S → S × Result (Unit {0})
  handle_event event s =
      if not (is_write event) && not (is_remove event) && not (is_create event)
      then (s, ok tt)
      else if not (text_eq event.event_name watched_filepath)
          && not (text_eq (base_name event.event_name) (codes "..data"))
      then (s, ok tt)
      else run_callback s

  -- What one round of the loop logs as an error.
  unfoldable pub logged : Signal → S → List GoError
  logged (error_signal e) s = e ∷ []
  logged (event_signal event) s = elim (handle_event event s).1 [ err e ↦ e ∷ [] | _ ↦ [] ]

  -- The loop, until the channels are closed. An error is logged and the loop goes on.
  unfoldable pub watch : List Signal → S → S × Result (Unit {0})
  watch [] s = (s, ok tt)
  watch (error_signal e ∷ signals) s = watch signals s
  watch (event_signal event ∷ signals) s =
      let (s', result) = handle_event event s in
      elim result [ crash c ↦ (s', crash c) | ok _ ↦ watch signals s' | err e ↦ watch signals s' ]

  abbrev pub join_errors : GoError → Option GoError → GoError
  join_errors e none = e
  join_errors e (some close_error) = both e close_error

  abbrev pub closing : Option GoError → Result (Unit {0})
  closing none = ok tt
  closing (some e) = err e

  -- The signals are those that arrive before the context is done; `add_error` and `close_error` are
  -- the answers of `watcher.Add` and `watcher.Close`.
  unfoldable pub start_watching :
      Option GoError → Option GoError → List Signal → S → S × Result (Unit {0})
  start_watching (some e) close_error signals s = (s, err e)
  start_watching none close_error signals s =
      let (s', result) =
        handle_event (record { event_name = watched_filepath; op = write_only }) s in
      elim result [
        | err e ↦ (s', err (join_errors e close_error))
        | crash c ↦ (s', crash c)
        | ok _ ↦
            let (s'', watched) = watch signals s' in
            elim watched [
              | crash c ↦ (s'', crash c)
              | err e ↦ (s'', closing close_error)
              | ok _ ↦ (s'', closing close_error)
            ]
      ]

-- A FileWatcher but for the watcher below it.
pub record FileWatcher (S : Type 0) : Type 0 where
  pub watched_filepath : Text
  pub callback : Option (Text → S → S × Result (Unit {0}))

-- `New`: `abs` is `filepath.Abs`, and `watcher_error` the error of `fsnotify.NewWatcher`.
unfoldable pub new_file_watcher :
    {S : Type 0}
    → (Text → GoError ⊎ Text)
    → Option GoError
    → Text
    → (Text → S → S × Result (Unit {0}))
    → Result (FileWatcher S)
new_file_watcher abs watcher_error fp callback = elim (abs fp) [
  | inl e ↦ err e
  | inr abs_fp ↦ elim watcher_error [
    | some e ↦ err e
    | none ↦ ok (record { watched_filepath = abs_fp; callback = some callback })
  ]
]
