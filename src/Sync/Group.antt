-- ===== src/Sync/Group.antt =====
-- The whole of sync-config: a worker for each file, run at once by an errgroup on one file system.
pub mod Begin
pub mod Seen
pub mod Ending
use dynamic_credential_provi.Base.{
  Bool, Dict, GoError, In, List, Option, Result, Text, [], crash, err, false, if◌then◌else◌, inr,
  lookup, none, ok, some, text_eq, true, ◌++◌, ◌∷◌, ◌≡◌, ◌≢◌, ◌⊎◌,
}
use dynamic_credential_provi.Filewatcher.System.{matters, receive, System}
use dynamic_credential_provi.Sync.{sync_file, SyncFiles}
use dynamic_credential_provi.Filewatcher.{
  closing, handle_event, write_only, join_errors, Signal, new_file_watcher,
}
use dynamic_credential_provi.Sync.System.{Undisturbed}

-- The first part of a worker, New and Start up to `go cw.Watch()`: the path that is watched, or the
-- error with which the worker returns. See `WatchSystem` for the answers of the system.
unfoldable pub begin_worker :
    {S : Type 0}
    → SyncFiles S
    → (Text → GoError ⊎ Text)
    → (Text → Text)
    → Option GoError
    → Option GoError
    → Option GoError
    → Text
    → Text
    → S
    → S × Result Text
begin_worker files abs base_name watcher_error add_error close_error src dest s =
    elim (new_file_watcher abs watcher_error src (sync_file files src dest)) [
      | err e ↦ (s, err e)
      | crash c ↦ (s, crash c)
      | ok fw ↦ elim add_error [
        | some e ↦ (s, err e)
        | none ↦
            let (s', result) =
              handle_event base_name fw.callback fw.watched_filepath
                (record { event_name = fw.watched_filepath; op = write_only }) s in
            elim result [
              | err e ↦
                  (s', err (join_errors base_name fw.callback fw.watched_filepath e close_error))
              | crash c ↦ (s', crash c)
              | ok _ ↦ (s', ok fw.watched_filepath)
            ]
      ]
    ]

-- A worker that runs has its path, the signals it has not received, and the errors it has logged
-- since its last success.
pub data Phase : Type 0 where
  not_started : Phase
  running : Text → List Signal → List GoError → Phase
  returned_with : Result (Unit {0}) → Phase

-- `phase` is by source, `results` what the workers have returned, one after the other, and
-- `interrupted` says that the process was.
pub record Group (S : Type 0) : Type 0 where
  pub state : S
  pub phase : Text → Phase
  pub results : List (Result (Unit {0}))
  pub interrupted : Bool

abbrev pub set_phase : Text → Phase → (Text → Phase) → Text → Phase
set_phase src new phases other = if text_eq src other then new else phases other

abbrev pub IsRunning : Phase → Type 0
IsRunning not_started = ⊥
IsRunning (running fp pending failures) = Unit
IsRunning (returned_with result) = ⊥

abbrev pub HasError : List (Result (Unit {0})) → Type 0
HasError results = (e : GoError) × In (err e) results

-- `entries` is `filesToSync`.
module _ {S : Type 0} (files : SyncFiles S) (content : S → Text → Option Text)
    (abs : Text → GoError ⊎ Text) (base_name : Text → Text) (entries : Dict Text) where
  abbrev pub Listed : Text → Type 0
  Listed src = (dest : Text) × (lookup src entries ≡ some dest)

  abbrev pub destination : Text → Text
  destination src = elim (lookup src entries) [ none ↦ [] | some dest ↦ dest ]

  abbrev pub worker_callback : Text → Option (Text → S → S × Result (Unit {0}))
  worker_callback src = some (sync_file files src (destination src))

  -- Nothing changed that the worker of this source has to do with.
  abbrev pub Apart : Text → S → S → Type 0
  Apart src s s' =
      (fp : Text) → abs src ≡ inr fp → Undisturbed files content src (destination src) fp s s'

  -- A worker begins, or returns with an error. A file is edited, which its worker is told, or
  -- something else changes. A worker is sent a signal, or receives the first. The process is
  -- interrupted. Once it is, or some worker has returned an error, the context of the group is
  -- done, and a worker may return.
  pub data Move : Group S → Group S → Type 0 where
    begun :
        (g : Group S) (src fp : Text) (watcher_error add_error close_error : Option GoError)
        (state' : S) (pending : List Signal)
        → Listed src
        → g.phase src ≡ not_started
        → begin_worker files abs base_name watcher_error add_error close_error src
            (destination src)
            g.state
          ≡ (state', ok fp)
        → Move g
            (record g { state = state'; phase = set_phase src (running fp pending []) g.phase })
    gave_up :
        (g : Group S) (src : Text) (watcher_error add_error close_error : Option GoError)
        (state' : S) (e : GoError)
        → Listed src
        → g.phase src ≡ not_started
        → begin_worker files abs base_name watcher_error add_error close_error src
            (destination src)
            g.state
          ≡ (state', err e)
        → Move g (record g {
          state = state';
          phase = set_phase src (returned_with (err e)) g.phase;
          results = g.results ++ err e ∷ [];
        })
    edited :
        (g : Group S) (src fp : Text) (pending : List Signal) (failures : List GoError) (state' : S)
        (signal : Signal)
        → Listed src
        → g.phase src ≡ running fp pending failures
        → matters base_name (worker_callback src) fp signal ≡ true
        → ((other : Text)
            → Listed other
            → src ≢ other
            → IsRunning (g.phase other)
            → Apart other g.state state')
        → Move g (record g {
          state = state';
          phase = set_phase src (running fp (pending ++ signal ∷ []) failures) g.phase;
        })
    changed_elsewhere :
        (g : Group S) (state' : S)
        → ((src : Text) → Listed src → IsRunning (g.phase src) → Apart src g.state state')
        → Move g (record g { state = state' })
    sent :
        (g : Group S) (src fp : Text) (pending : List Signal) (failures : List GoError)
        (signal : Signal)
        → Listed src
        → g.phase src ≡ running fp pending failures
        → Move g (record g {
          phase = set_phase src (running fp (pending ++ signal ∷ []) failures) g.phase;
        })
    taken :
        (g : Group S) (src fp : Text) (signal : Signal) (rest : List Signal)
        (failures : List GoError) (t : System S)
        → Listed src
        → g.phase src ≡ running fp (signal ∷ rest) failures
        → t
          ≡ receive base_name
              (worker_callback src)
              fp
              signal
              rest
              (record { world = g.state; pending = signal ∷ rest; failures = failures })
        → Move g (record g {
          state = t.world;
          phase = set_phase src (running fp t.pending t.failures) g.phase;
        })
    stopped_by_user : (g : Group S) → Move g (record g { interrupted = true })
    cancelled :
        (g : Group S) (src fp : Text) (pending : List Signal) (failures : List GoError)
        (close_error : Option GoError)
        → Listed src
        → g.phase src ≡ running fp pending failures
        → (g.interrupted ≡ true) ⊎ HasError g.results
        → Move g (record g {
          phase =
              set_phase src
                (returned_with (closing base_name (worker_callback src) fp close_error))
                g.phase;
          results = g.results ++ closing base_name (worker_callback src) fp close_error ∷ [];
        })

  pub data GroupReach : Group S → Type 0 where
    at_start :
        (s : S)
        → GroupReach
            (record { state = s; phase = λ src. not_started; results = []; interrupted = false })
    moved : {g h : Group S} → GroupReach g → Move g h → GroupReach h
