-- ===== src/Install/Atomic.antt =====
-- An installation that may fail at any point.
use dynamic_credential_provi.Base.{
  All, All-of_In, Bool-cases, Crash, GoError, In, List, Option-cases, Result, Result-cases, Text,
  [], ap, arith, crash, err, inl, inr, ok, refl, some, subst, sym, text_eq, text_eq→eq, text_eq→ne,
  ◌∙◌, ◌∷◌, ◌≡◌, ◌≢◌, ◌⊎◌,
}
use dynamic_credential_provi.Install.Files.{file, Os, File, IsLawful, Files, IsOutside}
use dynamic_credential_provi.Install.Copy.{
  copy_file_and_permissions, copy_over, move_into_place, temporary,
}
use dynamic_credential_provi.Install.Run.{
  install_binary, Config, source_of, target_of, ensure_dir_exists, install_binaries, and_then,
  install,
}
use dynamic_credential_provi.Install.Copy.Laws.{
  copy_file_and_permissions-failed, copy_file_and_permissions-done,
}
use dynamic_credential_provi.Install.Whole.{
  files_with_target-frame, files_with_target-keeps, KeepsFiles, files_with_target, IsApart,
}
use dynamic_credential_provi.Install.Run.Laws.{install_binary-frame, Untouched}

-- The file at a place is what it was, or else this one.
abbrev pub OldOrNew : Files → Files → Text → File → Type 0
OldOrNew before after p f = (after p ≡ before p) ⊎ (after p ≡ some (file f))

either-then :
    (fs mid after : Files) (p : Text) (f : File)
    → OldOrNew fs mid p f
    → OldOrNew mid after p f
    → OldOrNew fs after p f
either-then fs mid after p f m (inr e) = inr e
either-then fs mid after p f (inl d) (inl e) = inl (e ∙ d)
either-then fs mid after p f (inr d) (inl e) = inr (e ∙ d)

module _ (os : Os) (lawful : IsLawful os) (c : Config) where
  copy_over-ne-crash :
      (src dst : Text) (fs : Files) (x : Crash) → (copy_over os src dst fs).1 ≢ crash x
  unfolding copy_over move_into_place
  copy_over-ne-crash src dst fs x h = ground arith

  copy_file_and_permissions-crashed :
      (src dst : Text) (fs : Files) (x : Crash)
      → (copy_file_and_permissions os src dst fs).1 ≡ crash x
      → (copy_file_and_permissions os src dst fs).0 ≡ fs
  unfolding copy_file_and_permissions
  copy_file_and_permissions-crashed src dst fs x h = ground (arith, copy_over-ne-crash src dst fs x)

  copy_file_and_permissions-either :
      (src dst : Text) (fs : Files) (f : File)
      → fs src ≡ some (file f)
      → OldOrNew fs (copy_file_and_permissions os src dst fs).0 dst f
  copy_file_and_permissions-either src dst fs f e =
      elim (Result-cases (copy_file_and_permissions os src dst fs).1) [
        | inl (x, h) ↦
            inl
              (ap (λ (files : Files). files dst) (copy_file_and_permissions-crashed src dst fs x h))
        | inr (inl (x, h)) ↦ inl (copy_file_and_permissions-failed os lawful src dst fs x h)
        | inr (inr (u, h)) ↦ inr (copy_file_and_permissions-done os lawful src dst fs f e h)
      ]

  install_binary-copies :
      (binary : Text) (fs : Files)
      → ((install_binary os c binary fs).0 ≡ fs)
        ⊎ ((install_binary os c binary fs).0
            ≡ (copy_file_and_permissions os (source_of os c binary) (target_of os c binary) fs).0)
  unfolding install_binary
  install_binary-copies binary fs = ground arith

  install_binary-either :
      (binary : Text) (fs : Files) (f : File)
      → fs (source_of os c binary) ≡ some (file f)
      → OldOrNew fs (install_binary os c binary fs).0 (target_of os c binary) f
  install_binary-either binary fs f e = elim (install_binary-copies binary fs) [
    | inl q ↦ inl (ap (λ (files : Files). files (target_of os c binary)) q)
    | inr q ↦
        subst (λ (files : Files). OldOrNew fs files (target_of os c binary) f) (sym q)
          (copy_file_and_permissions-either (source_of os c binary) (target_of os c binary) fs f e)
  ]

  -- The target of a binary is not written on behalf of another name.
  abbrev OnlyTarget : Text → List Text → Type 0
  OnlyTarget binary = All (λ other.
      (binary ≡ other)
      ⊎ (IsOutside (target_of os c binary) (target_of os c other)
          × IsOutside (target_of os c binary) (temporary (target_of os c other))))

  and_then-either :
      (r : Files × Result (Unit {0})) (next : Files → Files × Result (Unit {0})) (fs : Files)
      (p : Text) (f : File)
      → OldOrNew fs r.0 p f
      → OldOrNew r.0 (next r.0).0 p f
      → OldOrNew fs (and_then r next).0 p f
  and_then-either (mid, ok u) next fs p f m n = either-then fs mid (next mid).0 p f m n
  and_then-either (mid, err e) next fs p f m n = m
  and_then-either (mid, crash x) next fs p f m n = m

  install_binary-target :
      (binary other : Text) (fs : Files) (f : File)
      → fs (source_of os c binary) ≡ some (file f)
      → (binary ≡ other)
        ⊎ (IsOutside (target_of os c binary) (target_of os c other)
            × IsOutside (target_of os c binary) (temporary (target_of os c other)))
      → OldOrNew fs (install_binary os c other fs).0 (target_of os c binary) f
  install_binary-target binary other fs f e (inr (n, m)) =
      inl (install_binary-frame os lawful c other (target_of os c binary) fs n m)
  install_binary-target binary other fs f e (inl q) =
      subst (λ b. OldOrNew fs (install_binary os c b fs).0 (target_of os c binary) f) q
        (install_binary-either binary fs f e)

  install_binaries-either :
      (binaries : List Text) (binary : Text) (fs : Files) (f : File)
      → fs (source_of os c binary) ≡ some (file f)
      → Untouched os c (source_of os c binary) binaries
      → OnlyTarget binary binaries
      → OldOrNew fs (install_binaries os c binaries fs).0 (target_of os c binary) f
  unfolding install_binaries
  install_binaries-either [] binary fs f e u t = inl refl
  install_binaries-either (other ∷ binaries) binary fs f e ((n, m), u) (t, ts) =
      and_then-either (install_binary os c other fs) (install_binaries os c binaries) fs
        (target_of os c binary) f (install_binary-target binary other fs f e t)
        (install_binaries-either binaries binary (install_binary os c other fs).0 f
          (install_binary-frame os lawful c other (source_of os c binary) fs n m ∙ e) u ts)

  apart-OnlyTarget :
      (binaries : List Text) (binary : Text)
      → IsApart os c binaries
      → In binary binaries
      → OnlyTarget binary binaries
  apart-OnlyTarget binaries binary apart i = All-of_In binaries (λ other j.
      elim (Bool-cases (text_eq binary other)) [
        | inl q ↦ inl (text_eq→eq binary other q)
        | inr n ↦ inr (apart.targets binary other i j (text_eq→ne binary other n))
      ])

  install-cases :
      (fs : Files)
      → ((install os (inr c) fs).0 ≡ files_with_target os lawful c fs)
        ⊎ ((binaries : List Text) × (os.read_dir c.credential_provider_source_dir
                (files_with_target os lawful c fs)
              ≡ inr binaries)
            × ((install os (inr c) fs).0
                ≡ (install_binaries os c binaries (files_with_target os lawful c fs)).0))
  unfolding install ensure_dir_exists
  install-cases fs =
      go (os.read_dir c.credential_provider_source_dir (files_with_target os lawful c fs)) refl
    where
      go :
          (r : GoError ⊎ List Text)
          → os.read_dir c.credential_provider_source_dir (files_with_target os lawful c fs) ≡ r
          → ((install os (inr c) fs).0 ≡ files_with_target os lawful c fs)
            ⊎ ((binaries : List Text) × (os.read_dir c.credential_provider_source_dir
                    (files_with_target os lawful c fs)
                  ≡ inr binaries)
                × ((install os (inr c) fs).0
                    ≡ (install_binaries os c binaries (files_with_target os lawful c fs)).0))
      go (inl e) p = inl (ground arith)
      go (inr binaries) p =
          elim (Option-cases (os.mkdir_all c.credential_provider_target_dir fs).1) [
            | inr (e, q) ↦ inl (ground arith)
            | inl q ↦
                elim (Option-cases
                  (os.is_dir_writeable c.credential_provider_target_dir
                    (os.mkdir_all c.credential_provider_target_dir fs).0).1) [
                      | inr (e, w) ↦ inl (ground arith)
                      | inl w ↦ inr (binaries, p, ground arith)
                    ]
          ]

  -- On a lawful file system where making a directory keeps the files, however an Install ends, with
  -- an error or with a fatal log entry, the target of every binary that the source directory lists
  -- and that is a file there is what it was once the directory was made, or the whole file of the
  -- source, if that target is not the file that the check of the target directory writes, all
  -- binaries have distinct names, no source is at or below a target or its temporary file or is the
  -- file that the check of the target directory writes, and no target is at or below another target
  -- or its temporary file.
  pub install-OldOrNew :
      KeepsFiles os
      → (fs : Files) (binaries : List Text)
      → os.read_dir c.credential_provider_source_dir (files_with_target os lawful c fs)
        ≡ inr binaries
      → IsApart os c binaries
      → (binary : Text) → In binary binaries
      → (f : File) → fs (source_of os c binary) ≡ some (file f)
      → target_of os c binary ≢ os.probe c.credential_provider_target_dir
      → OldOrNew
          (os.mkdir_all c.credential_provider_target_dir fs).0
          (install os (inr c) fs).0
          (target_of os c binary)
          f
  install-OldOrNew keeps fs binaries listed apart binary i f e unprobed =
      let ready = files_with_target os lawful c fs in
      let made = (os.mkdir_all c.credential_provider_target_dir fs).0 in
      let before : ready (target_of os c binary) ≡ made (target_of os c binary) =
        files_with_target-frame os lawful c fs (target_of os c binary) unprobed in
      elim (install-cases fs) [
        | inl q ↦ inl (ap (λ (files : Files). files (target_of os c binary)) q ∙ before)
        | inr (found, p, q) ↦
            let same : found ≡ binaries = cc (p, listed) in
            subst (λ (files : Files). OldOrNew made files (target_of os c binary) f)
              (sym (q ∙ ap (λ xs. (install_binaries os c xs ready).0) same))
              (either-then made ready (install_binaries os c binaries ready).0
                (target_of os c binary) f (inl before)
                (install_binaries-either binaries binary ready f
                  (files_with_target-keeps os lawful c keeps fs (source_of os c binary) f
                    (apart.unprobed binary i) e)
                  (All-of_In binaries (λ other j. apart.sources binary other i j))
                  (apart-OnlyTarget binaries binary apart i)))
      ]
