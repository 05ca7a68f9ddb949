-- ===== src/Sync/Group/Ending.antt =====
-- What the command returns, and when a worker does.
use dynamic_credential_provi.Base.{
  Dict, GoError, In, In-append, In-append-last, In-append-left, List, Option, Result, Text, [],
  crash, err, inl, inr, none, ok, refl, some, subst, sym, true, ◌++◌, ◌∙◌, ◌∷◌, ◌≡◌, ◌≢◌, ◌⊎◌,
}
use dynamic_credential_provi.Sync.Group.{
  begun, gave_up, edited, changed_elsewhere, sent, taken, stopped_by_user, cancelled, at_start,
  moved, not_started, running, returned_with, set_phase, HasError, Move, Group, GroupReach,
}
use dynamic_credential_provi.Sync.{SyncFiles}
use dynamic_credential_provi.Filewatcher.{Signal}
use dynamic_credential_provi.Sync.Group.Begin.{set_phase-cases}

-- `Wait` of an errgroup: the error of the group, from what its functions have returned in the order
-- in which they did.
pub record Errgroup : Type 0 where
  pub wait : List (Result (Unit {0})) → Option GoError

abbrev pub first_error : List (Result (Unit {0})) → Option GoError
first_error [] = none
first_error (err e ∷ results) = some e
first_error (ok _ ∷ results) = first_error results
first_error (crash _ ∷ results) = first_error results

-- What the documentation promises: Wait returns the first error that is not nil.
abbrev pub IsErrgroup : Errgroup → Type 0
IsErrgroup group = (results : List (Result (Unit {0}))) → group.wait results ≡ first_error results

no_first_error :
    (results : List (Result (Unit {0}))) → first_error results ≡ none → ¬ HasError results
no_first_error [] h (e, i) = absurd i
no_first_error (err x ∷ results) h e = cc
no_first_error (ok _ ∷ results) h (e, inl q) = cc
no_first_error (ok _ ∷ results) h (e, inr i) = no_first_error results h (e, i)
no_first_error (crash _ ∷ results) h (e, inl q) = cc
no_first_error (crash _ ∷ results) h (e, inr i) = no_first_error results h (e, i)

module _ {S : Type 0} (files : SyncFiles S) (content : S → Text → Option Text)
    (abs : Text → GoError ⊎ Text) (base_name : Text → Text) (entries : Dict Text) where
  -- A worker returns an error, or returns after the context was done.
  abbrev Fair : Group S → Result (Unit {0}) → Type 0
  Fair g r =
      ((e : GoError) × (r ≡ err e)) ⊎ ((r ≡ ok tt) × ((g.interrupted ≡ true) ⊎ HasError g.results))

  -- Every worker that has returned is among the results, and every result is accounted for.
  record Accounted (g : Group S) : Type 0 where
    kept : (src : Text) (r : Result (Unit {0})) → g.phase src ≡ returned_with r → In r g.results
    fair : (r : Result (Unit {0})) → In r g.results → Fair g r

  Fair-mono :
      (g h : Group S) (r : Result (Unit {0}))
      → (g.interrupted ≡ true → h.interrupted ≡ true)
      → (HasError g.results → HasError h.results)
      → Fair g r
      → Fair h r
  Fair-mono g h r i e (inl f) = inl f
  Fair-mono g h r i e (inr (q, inl f)) = inr (q, inl (i f))
  Fair-mono g h r i e (inr (q, inr f)) = inr (q, inr (e f))

  goes_on :
      (g : Group S) (s : S) (src fp : Text) (pending : List Signal) (failures : List GoError)
      → Accounted g
      → Accounted
          (record g { state = s; phase = set_phase src (running fp pending failures) g.phase })
  goes_on g s src fp pending failures a = record {
    kept = λ other r e. elim (set_phase-cases src other (running fp pending failures) g.phase) [
      | inl (n, q) ↦ absurd (running-ne (sym q ∙ e))
      | inr (n, q) ↦ a.kept other r (sym q ∙ e)
    ];
    fair = λ r i. a.fair r i;
  }
    where
      running-ne : {r : Result (Unit {0})} → running fp pending failures ≢ returned_with r
      running-ne q = cc

  returns :
      (g : Group S) (s : S) (src : Text) (r : Result (Unit {0}))
      → Fair (record g { results = g.results ++ r ∷ [] }) r
      → Accounted g
      → Accounted (record g {
        state = s;
        phase = set_phase src (returned_with r) g.phase;
        results = g.results ++ r ∷ [];
      })
  returns g s src r f a = record {
    kept = λ other x e. elim (set_phase-cases src other (returned_with r) g.phase) [
      | inl (n, q) ↦
          subst (λ y. In y (g.results ++ r ∷ [])) (returned_with-injective (sym q ∙ e))
            (In-append-last r g.results)
      | inr (n, q) ↦ In-append-left x g.results (r ∷ []) (a.kept other x (sym q ∙ e))
    ];
    fair = λ x i. elim (In-append x g.results (r ∷ []) i) [
      | inl j ↦
          Fair-mono g (record g { results = g.results ++ r ∷ [] }) x (λ h. h)
            (λ (e, k). (e, In-append-left (err e) g.results (r ∷ []) k)) (a.fair x j)
      | inr (inl q) ↦ subst (Fair (record g { results = g.results ++ r ∷ [] })) (sym q) f
      | inr (inr k) ↦ absurd k
    ];
  }
    where
      returned_with-injective :
          {x y : Result (Unit {0})} → returned_with x ≡ returned_with y → x ≡ y
      returned_with-injective q = cc

  Move-Accounted :
      {g h : Group S} → Move files content abs base_name entries g h → Accounted g → Accounted h
  Move-Accounted (begun g src fp we ae ce s' pending l ph e) a = goes_on g s' src fp pending [] a
  Move-Accounted (gave_up g src we ae ce s' e l ph q) a = returns g s' src (err e) (inl (e, refl)) a
  Move-Accounted (edited g src fp pending failures s' signal l ph t x) a =
      goes_on g s' src fp (pending ++ signal ∷ []) failures a
  Move-Accounted (changed_elsewhere g s' x) a = record { kept = a.kept; fair = λ r i. a.fair r i }
  Move-Accounted (sent g src fp pending failures signal l ph) a =
      goes_on g g.state src fp (pending ++ signal ∷ []) failures a
  Move-Accounted (taken g src fp signal rest failures t l ph e) a =
      goes_on g t.world src fp t.pending t.failures a
  Move-Accounted (stopped_by_user g) a = record {
    kept = a.kept;
    fair = λ r i. Fair-mono g (record g { interrupted = true }) r (λ h. refl) (λ h. h) (a.fair r i);
  }
  Move-Accounted (cancelled g src fp pending failures none l ph c) a =
      returns g g.state src (ok tt)
        (inr (
          refl,
          elim c [
            | inl i ↦ inl i
            | inr (e, i) ↦ inr (e, In-append-left (err e) g.results (ok tt ∷ []) i)
          ],
        ))
        a
  Move-Accounted (cancelled g src fp pending failures (some e) l ph c) a =
      returns g g.state src (err e) (inl (e, refl)) a

  GroupReach-Accounted :
      {g : Group S} → GroupReach files content abs base_name entries g → Accounted g
  GroupReach-Accounted (at_start s) = record {
    kept = λ src r e. absurd (not_yet e);
    fair = λ r i. absurd i;
  }
    where
      not_yet : {r : Result (Unit {0})} → not_started ≢ returned_with r
      not_yet q = cc
  GroupReach-Accounted (moved r m) = Move-Accounted m (GroupReach-Accounted r)

  -- If the group of sync-config reports no error, of an errgroup that reports the first error, then
  -- every worker that has returned did so without an error, and the process was interrupted.
  pub wait-eq-none :
      (group : Errgroup)
      → IsErrgroup group
      → {g : Group S} → GroupReach files content abs base_name entries g
      → group.wait g.results ≡ none
      → (src : Text) (r : Result (Unit {0})) → g.phase src ≡ returned_with r
      → (r ≡ ok tt) × (g.interrupted ≡ true)
  wait-eq-none group lawful {g} reach nothing src r e =
      let a = GroupReach-Accounted reach in
      let clean : ¬ HasError g.results =
        no_first_error g.results (sym (lawful g.results) ∙ nothing) in
      elim (a.fair r (a.kept src r e)) [
        | inl (x, q) ↦ absurd (clean (x, subst (λ y. In y g.results) q (a.kept src r e)))
        | inr (q, inl i) ↦ (q, i)
        | inr (q, inr f) ↦ absurd (clean f)
      ]
