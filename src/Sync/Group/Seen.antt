-- ===== src/Sync/Group/Seen.antt =====
-- The whole of sync-config, seen from one of its files.
use dynamic_credential_provi.Base.{
  Dict, GoError, List, Option, Result, Text, [], ap, err, inl, inr, ok, refl, some, subst, sym,
  ◌++◌, ◌∷◌, ◌≡◌, ◌≢◌, ◌⊎◌,
}
use dynamic_credential_provi.Filewatcher.System.{
  started, received, later, changed, signalled, elsewhere, Reach, System, Covered,
}
use dynamic_credential_provi.Sync.Group.{
  at_start, moved, begun, gave_up, edited, changed_elsewhere, sent, taken, stopped_by_user,
  cancelled, not_started, running, returned_with, destination, set_phase, Listed, Apart, IsRunning,
  worker_callback, Phase, Group, Move, GroupReach,
}
use dynamic_credential_provi.Sync.{sync_file, SyncFiles}
use dynamic_credential_provi.Filewatcher.{closing, Signal}
use dynamic_credential_provi.Sync.System.{
  Undisturbed, sync_file-Undisturbed, sync_file-Covered, Synced, KeepsSource,
}
use dynamic_credential_provi.Sync.Group.Begin.{
  set_phase-cases, begin_worker-left, receive-writes, begin_worker-ok,
}
use dynamic_credential_provi.Sync.Laws.{CopiesContent}

module _ {S : Type 0} (files : SyncFiles S) (content : S → Text → Option Text)
    (abs : Text → GoError ⊎ Text) (base_name : Text → Text) (entries : Dict Text) where
  abbrev pub IsEntry : Text → Type 0
  IsEntry = Listed files content abs base_name entries

  abbrev pub entry_target : Text → Text
  entry_target = destination files content abs base_name entries

  -- The states that the watch of this source reaches.
  abbrev pub Seen : Text → Text → System S → Type 0
  Seen src fp =
      Reach base_name (some (sync_file files src (entry_target src))) fp
        (Undisturbed files content src (entry_target src) fp)

  -- The worker of this source, if it runs, is in a state that its watch reaches.
  abbrev pub Follows : S → Text → Phase → Type 0
  Follows s src not_started = Unit
  Follows s src (returned_with result) = Unit
  Follows s src (running fp pending failures) =
      (abs src ≡ inr fp)
      × Seen src fp (record { world = s; pending = pending; failures = failures })

  abbrev pub Leaves : Text → S → S → Type 0
  Leaves = Apart files content abs base_name entries

  -- Copies for one entry leave what the other workers watch, and their copies, alone.
  abbrev pub AreApart : Type 0
  AreApart =
      (src other from : Text) (s : S)
      → IsEntry src
      → IsEntry other
      → src ≢ other
      → Leaves other s (files.copy_to from (entry_target src) s).0

  Follows-Apart :
      (s s' : S) (src : Text) (ph : Phase)
      → (IsRunning ph → Leaves src s s')
      → Follows s src ph
      → Follows s' src ph
  Follows-Apart s s' src not_started a f = tt
  Follows-Apart s s' src (returned_with result) a f = tt
  Follows-Apart s s' src (running fp pending failures) a (e, r) =
      (e, later r (elsewhere _ s' (a tt fp e)))

  module _ (apart : AreApart) where
    writes-Apart :
        (src other : Text) (s s' : S)
        → IsEntry src
        → IsEntry other
        → src ≢ other
        → (s' ≡ s) ⊎ ((fp : Text) × (s' ≡ (sync_file files src (entry_target src) fp s).0))
        → Leaves other s s'
    writes-Apart src other s s' l m n (inl e) watched p =
        subst (Undisturbed files content other (entry_target other) watched s) (sym e)
          (record { same_link = refl; same_content = λ from q. refl; same_copy = refl })
    writes-Apart src other s s' l m n (inr (fp, e)) watched p =
        subst (Undisturbed files content other (entry_target other) watched s) (sym e) (
          sync_file-Undisturbed files content other (entry_target other) watched src
            (entry_target src) fp s (λ from. apart src other from s l m n watched p))

    -- A move of one worker: it follows itself, and the others see a change elsewhere.
    set_phase-Follows :
        (src : Text) (new : Phase) (g : Group S) (s' : S)
        → Follows s' src new
        → ((other : Text)
            → IsEntry other
            → src ≢ other
            → IsRunning (g.phase other)
            → Leaves other g.state s')
        → ((other : Text) → IsEntry other → Follows g.state other (g.phase other))
        → (other : Text) → IsEntry other
        → Follows s' other (set_phase src new g.phase other)
    set_phase-Follows src new g s' f a all other m = elim (set_phase-cases src other new g.phase) [
      | inl (e, q) ↦ subst (Follows s' other) (sym q) (subst (λ name. Follows s' name new) e f)
      | inr (n, q) ↦
          subst (Follows s' other) (sym q)
            (Follows-Apart g.state s' other (g.phase other) (a other m n) (all other m))
    ]

    Move-Follows :
        {g h : Group S}
        → Move files content abs base_name entries g h
        → ((src : Text) → IsEntry src → Follows g.state src (g.phase src))
        → (src : Text) → IsEntry src
        → Follows h.state src (h.phase src)
    Move-Follows (begun g src fp we ae ce s' pending l ph e) all other m =
        let (path, ran) =
          begin_worker-ok files abs base_name src (entry_target src) we ae ce g.state s' fp e in
        set_phase-Follows src (running fp pending []) g s'
          (
            path,
            subst (λ w. Seen src fp (record { world = w; pending = pending; failures = [] }))
                (ap (λ (x : S × Result (Unit {0})). x.0) ran)
                (started g.state pending (ap (λ (x : S × Result (Unit {0})). x.1) ran)),
          )
          (λ q k n x. writes-Apart src q g.state s' l k n (
            begin_worker-left files abs base_name src (entry_target src) we ae ce g.state s' (ok fp)
              e))
          all other m
    Move-Follows (gave_up g src we ae ce s' e l ph begins) all other m =
        set_phase-Follows src (returned_with (err e)) g s' tt
          (λ q k n x. writes-Apart src q g.state s' l k n (
            begin_worker-left files abs base_name src (entry_target src) we ae ce g.state s' (err e)
              begins))
          all other m
    Move-Follows (edited g src fp pending failures s' signal l ph t a) all other m =
        let (path, r) = subst (Follows g.state src) ph (all src l) in
        set_phase-Follows src (running fp (pending ++ signal ∷ []) failures) g s'
          (path, later r (changed _ s' signal t)) a all other m
    Move-Follows (changed_elsewhere g s' a) all src l =
        Follows-Apart g.state s' src (g.phase src) (a src l) (all src l)
    Move-Follows (sent g src fp pending failures signal l ph) all other m =
        let (path, r) = subst (Follows g.state src) ph (all src l) in
        set_phase-Follows src (running fp (pending ++ signal ∷ []) failures) g g.state
          (path, later r (signalled _ signal))
          (λ q k n x. writes-Apart src q g.state g.state l k n (inl refl)) all other m
    Move-Follows (taken g src fp signal rest failures t l ph e) all other m =
        let (path, r) = subst (Follows g.state src) ph (all src l) in
        set_phase-Follows src (running fp t.pending t.failures) g t.world
          (path, subst (Seen src fp) (sym e) (later r (received _ signal rest refl)))
          (λ q k n x. writes-Apart src q g.state t.world l k n (
            subst
              (λ (x : System S).
                (x.world ≡ g.state)
                ⊎ ((path : Text) × (x.world
                      ≡ (sync_file files src (entry_target src) path g.state).0)))
              (sym e)
              (elim (receive-writes files abs base_name src (entry_target src) fp signal rest
                (record { world = g.state; pending = signal ∷ rest; failures = failures })) [
                  | inl d ↦ inl d
                  | inr d ↦ inr (fp, d)
                ])))
          all other m
    Move-Follows (stopped_by_user g) all other m = all other m
    Move-Follows (cancelled g src fp pending failures ce l ph c) all other m =
        set_phase-Follows src
          (returned_with
            (closing base_name (worker_callback files content abs base_name entries src) fp ce))
          g g.state tt (λ q k n x. writes-Apart src q g.state g.state l k n (inl refl)) all other m

    -- In every state that sync-config reaches with a worker for each file, each worker that runs
    -- watches the absolute path of its source and is in a state that its watch reaches alone in an
    -- environment, if the copies of one file leave the others and their copies alone.
    pub GroupReach-Reach :
        {g : Group S}
        → GroupReach files content abs base_name entries g
        → (src : Text) → IsEntry src
        → Follows g.state src (g.phase src)
    GroupReach-Reach (at_start s) src l = tt
    GroupReach-Reach (moved r m) src l = Move-Follows m (GroupReach-Reach r) src l

    -- In every state that sync-config reaches with a worker for each file, for each file that is
    -- watched the destination has its content, or that of the file it links to, or a relevant event
    -- or an error of the watcher is pending, or an error was logged after the last success, given a
    -- copy that copies contents and leaves its source alone, copies of one file that leave the
    -- others alone, and watchers that send a relevant event or an error for every change.
    pub GroupReach-Covered :
        CopiesContent files content
        → ((src fp : Text)
            → IsEntry src
            → abs src ≡ inr fp
            → KeepsSource files content src (entry_target src) fp)
        → {g : Group S} → GroupReach files content abs base_name entries g
        → (src fp : Text) (pending : List Signal) (failures : List GoError) → IsEntry src
        → g.phase src ≡ running fp pending failures
        → Covered base_name
            (some (sync_file files src (entry_target src)))
            fp
            (Synced files content src (entry_target src) fp)
            (record { world = g.state; pending = pending; failures = failures })
    GroupReach-Covered copies keeps {g} reach src fp pending failures l ph =
        let (path, seen) = subst (Follows g.state src) ph (GroupReach-Reach reach src l) in
        sync_file-Covered files content src (entry_target src) fp copies (keeps src fp l path)
          base_name seen
