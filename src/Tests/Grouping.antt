-- ===== src/Tests/Grouping.antt =====
-- Two files that are synchronised at once.
use dynamic_credential_provi.Base.{
  Bool-cases, Dict, GoError, Option-cases, Result, Text, [], arith, codes, false, inl, inr, insert,
  lookup, lookup-insert, none, ok, refl, some, subst, text_eq, text_eq→eq, true, ◌∷◌, ◌≡◌, ◌≢◌, ◌⊎◌,
}
use dynamic_credential_provi.Sync.{resolve, sync_file}
use dynamic_credential_provi.Tests.Watching.{
  own_name, content_of, copy_text, small_files, small_files-CopiesContent,
}
use dynamic_credential_provi.Sync.System.{Undisturbed, Synced, KeepsSource}
use dynamic_credential_provi.Sync.Group.{
  begun, stopped_by_user, cancelled, at_start, moved, not_started, running, returned_with,
  destination, Listed, Apart, begin_worker, GroupReach, Group, set_phase,
}
use dynamic_credential_provi.Sync.Group.Seen.{
  AreApart, GroupReach-Reach, Follows, entry_target, GroupReach-Covered,
}
use dynamic_credential_provi.Filewatcher.{new_file_watcher, handle_event, is_write}
use dynamic_credential_provi.Sync.Group.Ending.{Errgroup, wait-eq-none, first_error}
use dynamic_credential_provi.Filewatcher.System.{Covered}

abbrev own_path : Text → GoError ⊎ Text
own_path p = inr p

abbrev two_entries : Dict Text
two_entries = (codes "c/file", codes "h/file") ∷ (codes "c/other", codes "h/other") ∷ []

abbrev two_files : Dict Text
two_files = (codes "c/file", codes "one") ∷ (codes "c/other", codes "two") ∷ []

-- What holds of both sources holds of each of them.
each_entry :
    (P : Text → Type 0)
    → P (codes "c/file")
    → P (codes "c/other")
    → (src : Text) → Listed small_files content_of own_path own_name two_entries src
    → P src
unfolding lookup
each_entry P p q src (dest, e) = elim (Bool-cases (text_eq (codes "c/file") src)) [
  | inl t ↦ subst P (text_eq→eq (codes "c/file") src t) p
  | inr f ↦ elim (Bool-cases (text_eq (codes "c/other") src)) [
    | inl t ↦ subst P (text_eq→eq (codes "c/other") src t) q
    | inr g ↦ absurd (ground arith)
  ]
]

copy_text-elsewhere :
    (from to p : Text) (s : Dict Text)
    → text_eq to p ≡ false
    → content_of (copy_text from to s).0 p ≡ content_of s p
unfolding content_of copy_text
copy_text-elsewhere from to p s n = elim (Option-cases (lookup from s)) [
  | inl e ↦ ground arith
  | inr (t, e) ↦ ground (arith, lookup-insert to p t s)
]

-- A copy to another place leaves a file that is no link, and its copy, alone.
leaves :
    (from to src dest fp : Text) (s : Dict Text)
    → own_path src ≡ inr fp
    → text_eq src (codes "c/link") ≡ false
    → text_eq to src ≡ false
    → text_eq to dest ≡ false
    → Undisturbed small_files content_of src dest fp s (small_files.copy_to from to s).0
unfolding small_files resolve
leaves from to src dest fp s path no_link n m =
    let same : src ≡ fp = ground arith in
    subst (λ q. Undisturbed small_files content_of src dest q s (small_files.copy_to from to s).0)
      same
      (record {
        same_link = refl;
        same_content = λ q e.
            subst (λ q. content_of (copy_text from to s).0 q ≡ content_of s q) (ground arith)
              (copy_text-elsewhere from to src s n);
        same_copy = copy_text-elsewhere from to dest s m;
      })

two_entries-AreApart : AreApart small_files content_of own_path own_name two_entries
unfolding lookup text_eq
two_entries-AreApart src other from s l m n =
    each_entry
      (λ src.
        src ≢ other
        → Apart small_files content_of own_path own_name two_entries other s
            (small_files.copy_to from
              (destination small_files content_of own_path own_name two_entries src) s).0)
      (each_entry
        (λ other.
          codes "c/file" ≢ other
          → Apart small_files content_of own_path own_name two_entries other s
              (small_files.copy_to from (codes "h/file") s).0)
        (λ q. absurd (q refl))
        (λ q fp e.
          leaves from (codes "h/file") (codes "c/other") (codes "h/other") fp s e refl refl refl)
        other m)
      (each_entry
        (λ other.
          codes "c/other" ≢ other
          → Apart small_files content_of own_path own_name two_entries other s
              (small_files.copy_to from (codes "h/other") s).0)
        (λ q fp e.
          leaves from (codes "h/other") (codes "c/file") (codes "h/file") fp s e refl refl refl)
        (λ q. absurd (q refl)) other m)
      src l n

abbrev GroupRun : Group (Dict Text) → Type 0
GroupRun = GroupReach small_files content_of own_path own_name two_entries

abbrev resting : Group (Dict Text)
resting = record {
  state = two_files;
  phase = λ src. not_started;
  results = [];
  interrupted = false;
}

abbrev one_runs : Group (Dict Text)
one_runs = record {
  state = (sync_file small_files (codes "c/file") (codes "h/file") (codes "c/file") two_files).0;
  phase = set_phase (codes "c/file") (running (codes "c/file") [] []) resting.phase;
  results = [];
  interrupted = false;
}

abbrev both_run : Group (Dict Text)
both_run = record {
  state =
      (sync_file small_files (codes "c/other") (codes "h/other") (codes "c/other")
        one_runs.state).0;
  phase = set_phase (codes "c/other") (running (codes "c/other") [] []) one_runs.phase;
  results = [];
  interrupted = false;
}

both_run-GroupReach : GroupRun both_run
unfolding begin_worker new_file_watcher handle_event is_write sync_file resolve small_files
    copy_text lookup text_eq insert
both_run-GroupReach =
    moved
      (moved (at_start two_files) (
        begun resting (codes "c/file") (codes "c/file") none none none one_runs.state []
          (codes "h/file", refl) refl refl))
      (begun one_runs (codes "c/other") (codes "c/other") none none none both_run.state []
        (codes "h/other", refl) refl refl)

GroupReach-Reach_example :
    Follows small_files content_of own_path own_name two_entries both_run.state
      (codes "c/file")
      (both_run.phase (codes "c/file"))
unfolding lookup text_eq
GroupReach-Reach_example =
    GroupReach-Reach small_files content_of own_path own_name two_entries two_entries-AreApart
      both_run-GroupReach (codes "c/file") (codes "h/file", refl)

-- The group as documented.
abbrev documented : Errgroup
documented = record { wait = first_error }

-- The user stops both.
abbrev one_left : Group (Dict Text)
one_left = record both_run {
  phase = set_phase (codes "c/file") (returned_with (ok tt)) both_run.phase;
  results = ok tt ∷ [];
  interrupted = true;
}

one_left-GroupReach : GroupRun one_left
unfolding lookup text_eq
one_left-GroupReach = moved (moved both_run-GroupReach (stopped_by_user both_run)) (
    cancelled (record both_run { interrupted = true }) (codes "c/file") (codes "c/file") [] [] none
      (codes "h/file", refl) refl (inl refl))

wait-eq-none_example : (◌≡◌ {A = Result (Unit {0})} (ok tt) (ok tt)) × (one_left.interrupted ≡ true)
unfolding text_eq
wait-eq-none_example =
    wait-eq-none small_files content_of own_path own_name two_entries documented (λ results. refl)
      one_left-GroupReach refl (codes "c/file") (ok tt) refl

keeps_source :
    (src dest fp : Text)
    → own_path src ≡ inr fp
    → text_eq src (codes "c/link") ≡ false
    → text_eq dest src ≡ false
    → KeepsSource small_files content_of src dest fp
unfolding small_files resolve
keeps_source src dest fp path no_link n =
    let same : src ≡ fp = ground arith in
    subst (λ q. KeepsSource small_files content_of src dest q) same
      (record {
        keeps_link = λ from s. refl;
        keeps_target = λ from s. refl;
        keeps_content = λ q s e.
            subst (λ q. content_of (copy_text q dest s).0 q ≡ content_of s q) (ground arith)
              (copy_text-elsewhere src dest src s n);
      })

GroupReach-Covered_example :
    Covered own_name
      (some (sync_file small_files (codes "c/file") (codes "h/file")))
      (codes "c/file")
      (Synced small_files content_of (codes "c/file") (codes "h/file") (codes "c/file"))
      (record { world = both_run.state; pending = []; failures = [] })
unfolding lookup text_eq
GroupReach-Covered_example =
    GroupReach-Covered small_files content_of own_path own_name two_entries two_entries-AreApart
      small_files-CopiesContent
      (λ src fp l.
        each_entry
          (λ src.
            own_path src ≡ inr fp
            → KeepsSource small_files content_of src
                (entry_target small_files content_of own_path own_name two_entries src) fp)
          (λ e. keeps_source (codes "c/file") (codes "h/file") fp e refl refl)
          (λ e. keeps_source (codes "c/other") (codes "h/other") fp e refl refl) src l)
      both_run-GroupReach (codes "c/file") (codes "c/file") [] [] (codes "h/file", refl) refl
