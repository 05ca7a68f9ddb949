-- ===== src/Filewatcher/System.antt =====
-- The watcher in its environment: files change, signals wait to be received, and the loop of Watch
-- receives them one by one while more arrive.
use dynamic_credential_provi.Base.{
  Bool, Bool-cases, GoError, List, Option, Result, Result-cases, Text, [], ap, arith, crash, err,
  false, if◌then◌else◌, inl, inr, length, length-append, ok, refl, suc, true, ℕ, ◌&&◌, ◌++◌, ◌+◌,
  ◌<◌, ◌∷◌, ◌≡◌, ◌≤◌, ◌⊎◌,
}
use dynamic_credential_provi.Filewatcher.{
  event_signal, error_signal, Signal, run_callback, watch, logged, Event,
}
use dynamic_credential_provi.Filewatcher.Laws.{
  is_relevant, NeverCrashes, handle_event-relevant, handle_event-irrelevant,
}

-- `world` is what the callback works on, `pending` the signals that Watch has not received, and
-- `failures` the errors that it has logged since the callback last returned without one.
pub record System (S : Type 0) : Type 0 where
  pub world : S
  pub pending : List Signal
  pub failures : List GoError

module _ {S : Type 0} (base_name : Text → Text)
    (callback : Option (Text → S → S × Result (Unit {0}))) (watched : Text) where
  -- A relevant event, or an error of the watcher.
  abbrev pub matters : Signal → Bool
  matters (error_signal e) = true
  matters (event_signal event) = is_relevant base_name watched event

  abbrev pub waiting : List Signal → ℕ
  waiting [] = 0
  waiting (signal ∷ signals) = if matters signal then suc (waiting signals) else waiting signals

  abbrev is_ok : Result (Unit {0}) → Bool
  is_ok (ok _) = true
  is_ok (err _) = false
  is_ok (crash _) = false

  -- The signal is an event on which the callback runs and returns without an error.
  abbrev works : Signal → S → Bool
  works (error_signal e) s = false
  works (event_signal event) s =
      is_relevant base_name watched event && is_ok (run_callback base_name callback watched s).1

  -- One round of the loop.
  abbrev pub receive : Signal → List Signal → System S → System S
  receive signal rest s = record {
    world = (watch base_name callback watched (signal ∷ []) s.world).0;
    pending = rest;
    failures =
        if works signal s.world
        then []
        else s.failures ++ logged base_name callback watched signal s.world;
  }

  -- A change of the watched file sends a relevant event, or the watcher's error if events were
  -- lost. Any other signal comes without a change that matters here. The loop receives the first
  -- signal. What else changes the world does not touch the file and its goal, which `Same` says.
  pub data Step (Same : S → S → Type 0) : System S → System S → Type 0 where
    changed :
        (s : System S) (world' : S) (signal : Signal)
        → matters signal ≡ true
        → Step Same s (record s { world = world'; pending = s.pending ++ signal ∷ [] })
    signalled :
        (s : System S) (signal : Signal)
        → Step Same s (record s { pending = s.pending ++ signal ∷ [] })
    received :
        (s : System S) (signal : Signal) (rest : List Signal)
        → s.pending ≡ signal ∷ rest
        → Step Same s (receive signal rest s)
    elsewhere :
        (s : System S) (world' : S)
        → Same s.world world'
        → Step Same s (record s { world = world' })

  -- Start adds the directory to the watcher, runs the callback, and starts the loop; signals may
  -- have come since the directory was added.
  pub data Reach (Same : S → S → Type 0) : System S → Type 0 where
    started :
        (world : S) (pending : List Signal)
        → (run_callback base_name callback watched world).1 ≡ ok tt
        → Reach Same (record {
          world = (run_callback base_name callback watched world).0;
          pending = pending;
          failures = [];
        })
    later : {s t : System S} → Reach Same s → Step Same s t → Reach Same t

  -- The loop goes on alone, until nothing is pending.
  pub data Drains : System S → System S → Type 0 where
    drained : (s : System S) → s.pending ≡ [] → Drains s s
    receives :
        (s : System S) (signal : Signal) (rest : List Signal) (t : System S)
        → s.pending ≡ signal ∷ rest
        → Drains (receive signal rest s) t
        → Drains s t

  -- The callback never crashes, and has reached its goal when it returns without an error.
  pub record Establishes (Goal : S → Type 0) : Type 0 where
    pub never_crashes : NeverCrashes base_name callback watched
    pub establishes :
        (s : S)
        → (run_callback base_name callback watched s).1 ≡ ok tt
        → Goal (run_callback base_name callback watched s).0

  -- The work is done, or a signal that will get it done is pending, or an error was logged
  -- after the last success.
  abbrev pub Covered : (S → Type 0) → System S → Type 0
  Covered Goal s = Goal s.world ⊎ (0 < waiting s.pending + length s.failures)

  waiting-more :
      (signals : List Signal) (signal : Signal) → waiting signals ≤ waiting (signals ++ signal ∷ [])
  waiting-more [] signal = omega arith
  waiting-more (other ∷ signals) signal = ground (arith, waiting-more signals signal)

  waiting-last :
      (signals : List Signal) (signal : Signal)
      → matters signal ≡ true
      → 0 < waiting (signals ++ signal ∷ [])
  waiting-last [] signal h = ground arith
  waiting-last (other ∷ signals) signal h = ground (arith, waiting-last signals signal h)

  watch-relevant :
      (event : Event) (s : S)
      → is_relevant base_name watched event ≡ true
      → (run_callback base_name callback watched s).1 ≡ ok tt
      → (watch base_name callback watched (event_signal event ∷ []) s).0
        ≡ (run_callback base_name callback watched s).0
  unfolding watch
  watch-relevant event s h q =
      ground (arith, handle_event-relevant base_name callback watched event s h)

  watch-irrelevant :
      (event : Event) (s : S)
      → is_relevant base_name watched event ≡ false
      → (watch base_name callback watched (event_signal event ∷ []) s).0 ≡ s
  unfolding watch
  watch-irrelevant event s h =
      ground (arith, handle_event-irrelevant base_name callback watched event s h)

  logged-failure :
      (event : Event) (s : S) (e : GoError)
      → is_relevant base_name watched event ≡ true
      → (run_callback base_name callback watched s).1 ≡ err e
      → logged base_name callback watched (event_signal event) s ≡ e ∷ []
  unfolding logged
  logged-failure event s e h q =
      ground (arith, handle_event-relevant base_name callback watched event s h)

  receive-failure :
      (event : Event) (s : System S) (rest : List Signal) (e : GoError)
      → is_relevant base_name watched event ≡ true
      → (run_callback base_name callback watched s.world).1 ≡ err e
      → (receive (event_signal event) rest s).failures ≡ s.failures ++ e ∷ []
  receive-failure event s rest e h q =
      rw (h, q) (ap (λ l. s.failures ++ l) (logged-failure event s.world e h q))

  module _ (Goal : S → Type 0) (sound : Establishes Goal) where
    receive-Covered :
        (s : System S) (signal : Signal) (rest : List Signal)
        → Covered Goal (record s { pending = signal ∷ rest })
        → Covered Goal (receive signal rest s)
    unfolding watch logged
    receive-Covered s (error_signal e) rest c =
        inr (omega (arith, length-append s.failures (e ∷ [])))
    receive-Covered s (event_signal event) rest c =
        elim (Bool-cases (is_relevant base_name watched event)) [
          | inl h ↦ elim (Result-cases (run_callback base_name callback watched s.world).1) [
            | inl (c, e) ↦ absurd (sound.never_crashes s.world c e)
            | inr (inl (e, q)) ↦ inr (
                omega (
                  arith,
                  length-append s.failures (e ∷ []),
                  ap (λ (l : List GoError). length l) (receive-failure event s rest e h q),
                ))
            | inr (inr (u, q)) ↦
                inl (rw (watch-relevant event s.world h q) (sound.establishes s.world q))
          ]
          | inr h ↦ rw (watch-irrelevant event s.world h) (elim c [
            | inl d ↦ inl d
            | inr p ↦ inr (
                ground (
                  arith,
                  h,
                  p,
                  length-append s.failures
                      (logged base_name callback watched (event_signal event) s.world),
                ))
          ])
        ]

    module _ (Same : S → S → Type 0) (stable : (w w' : S) → Same w w' → Goal w → Goal w') where
      Step-Covered : {s t : System S} → Step Same s t → Covered Goal s → Covered Goal t
      Step-Covered (changed s world' signal h) c =
          inr (omega (arith, waiting-last s.pending signal h))
      Step-Covered (signalled s signal) (inl d) = inl d
      Step-Covered (signalled s signal) (inr p) = inr (omega (arith, waiting-more s.pending signal))
      Step-Covered (elsewhere s world' same) (inl d) = inl (stable s.world world' same d)
      Step-Covered (elsewhere s world' same) (inr p) = inr p
      Step-Covered (received s signal rest e) c = receive-Covered s signal rest (rw e at c)

      -- In every state that is reached, the goal holds, or a signal that matters is pending, or an error
      -- was logged after the last success.
      pub Reach-Covered : {s : System S} → Reach Same s → Covered Goal s
      Reach-Covered (started world pending e) = inl (sound.establishes world e)
      Reach-Covered (later r st) = Step-Covered st (Reach-Covered r)

      drain :
          (pending : List Signal) (s : System S)
          → s.pending ≡ pending
          → Covered Goal s
          → (t : System S) × Drains s t
            × (t.pending ≡ [])
            × (Goal t.world ⊎ (0 < length t.failures))
      drain [] s e (inl d) = (s, drained s e, e, inl d)
      drain [] s e (inr p) = (s, drained s e, e, inr (ground (arith, e)))
      drain (signal ∷ rest) s e c =
          let (t, d, q, done) =
            drain rest (receive signal rest s) refl (receive-Covered s signal rest (rw e at c)) in
          (t, receives s signal rest t e d, q, done)

      -- From every state that is reached the loop can receive all that is pending, and then the goal
      -- holds or an error was logged after the last success.
      pub Reach-drain :
          {s : System S}
          → Reach Same s
          → (t : System S) × Drains s t
            × (t.pending ≡ [])
            × (Goal t.world ⊎ (0 < length t.failures))
      Reach-drain {s} r = drain s.pending s refl (Reach-Covered r)
