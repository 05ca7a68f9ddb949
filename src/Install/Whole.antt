-- ===== src/Install/Whole.antt =====
-- The whole installation, from the configuration to every binary of the source directory.
use dynamic_credential_provi.Base.{
  All, All-of_In, GoError, In, List, Text, [], ap, arith, false, inl, inr, ok, refl, some, subst,
  sym, true, ◌++◌, ◌∙◌, ◌∷◌, ◌≡◌, ◌≢◌, ◌⊎◌,
}
use dynamic_credential_provi.Install.Files.{Os, IsOutside}
use dynamic_credential_provi.Install.Files.{file, IsLawful, Files, File}
use dynamic_credential_provi.Install.Copy.{temporary}
use dynamic_credential_provi.Install.Run.{
  Config, skip_binary, source_of, install_binaries, target_of, ensure_dir_exists, install,
}
use dynamic_credential_provi.Install.Run.Laws.{
  Untouched, install_binaries-done, install_binaries-frame,
}

-- No name comes twice.
abbrev pub Distinct : List Text → Type 0
Distinct [] = Unit
Distinct (x ∷ xs) = All (λ y. x ≢ y) xs × Distinct xs

-- The place of a name in a list of distinct names.
record Place (a : Text) (xs : List Text) : Type 0 where
  first : List Text
  rest : List Text
  splits : xs ≡ first ++ a ∷ rest
  in_first : (x : Text) → In x first → In x xs
  in_rest : (x : Text) → In x rest → In x xs
  last : (x : Text) → In x rest → a ≢ x

All-In {κ} : {A : Type 0} (P : A → Type κ) (xs : List A) → All P xs → (x : A) → In x xs → P x
All-In P [] a x i = absurd i
All-In P (y ∷ xs) (p, a) x (inl e) = subst P (sym e) p
All-In P (y ∷ xs) (p, a) x (inr i) = All-In P xs a x i

place : (a : Text) (xs : List Text) → Distinct xs → In a xs → Place a xs
place a [] d i = absurd i
place a (x ∷ xs) (n, d) (inl e) = record {
  first = [];
  rest = xs;
  splits = ap (λ y. y ∷ xs) (sym e);
  in_first = λ y i. absurd i;
  in_rest = λ y i. inr i;
  last = λ y i. subst (λ z. z ≢ y) (sym e) (All-In (λ z. x ≢ z) xs n y i);
}
place a (x ∷ xs) (n, d) (inr i) =
    let p = place a xs d i in
    record {
      first = x ∷ p.first;
      rest = p.rest;
      splits = ap (λ ys. x ∷ ys) p.splits;
      in_first = λ y j. elim j [ inl e ↦ inl e | inr k ↦ inr (p.in_first y k) ];
      in_rest = λ y j. inr (p.in_rest y j);
      last = p.last;
    }

-- The binaries have distinct names, no source is at or below a target or its temporary file, no
-- target is at or below another or its temporary file, and no source is the file that the check of
-- the target directory writes.
pub record IsApart (os : Os) (c : Config) (binaries : List Text) : Type 0 where
  pub distinct : Distinct binaries
  pub sources :
      (b d : Text)
      → In b binaries
      → In d binaries
      → IsOutside (source_of os c b) (target_of os c d)
        × IsOutside (source_of os c b) (temporary (target_of os c d))
  pub targets :
      (b d : Text)
      → In b binaries
      → In d binaries
      → b ≢ d
      → IsOutside (target_of os c b) (target_of os c d)
        × IsOutside (target_of os c b) (temporary (target_of os c d))
  pub unprobed :
      (b : Text) → In b binaries → source_of os c b ≢ os.probe c.credential_provider_target_dir

-- Making a directory leaves every file where it is.
abbrev pub KeepsFiles : Os → Type 0
KeepsFiles os =
    (dir p : Text) (fs : Files) (f : File)
    → fs p ≡ some (file f)
    → (os.mkdir_all dir fs).0 p ≡ some (file f)

module _ (os : Os) (lawful : IsLawful os) (c : Config) where
  install_binaries-each :
      (binaries : List Text) (fs : Files)
      → IsApart os c binaries
      → c.update_credential_provider_binaries ≡ true
      → (install_binaries os c binaries fs).1 ≡ ok tt
      → (binary : Text) → In binary binaries
      → skip_binary c binary ≡ false
      → (f : File) → fs (source_of os c binary) ≡ some (file f)
      → (install_binaries os c binaries fs).0 (target_of os c binary) ≡ some (file f)
  install_binaries-each binaries fs apart update h binary i s f e =
      let p = place binary binaries apart.distinct i in
      let source : Untouched os c (source_of os c binary) p.first =
        All-of_In p.first (λ x j. apart.sources binary x i (p.in_first x j)) in
      let target : Untouched os c (target_of os c binary) p.rest =
        All-of_In p.rest (λ x j. apart.targets binary x i (p.in_rest x j) (p.last x j)) in
      subst (λ xs. (install_binaries os c xs fs).0 (target_of os c binary) ≡ some (file f))
        (sym p.splits)
        (install_binaries-done os lawful c p.first p.rest binary fs f source target e s update
          (subst (λ xs. (install_binaries os c xs fs).1 ≡ ok tt) p.splits h))

  -- The files once the target directory is made and checked, or one of both has failed.
  abbrev pub files_with_target : Files → Files
  files_with_target fs = (ensure_dir_exists os c.credential_provider_target_dir fs).0

  -- The check changes its own file alone.
  pub files_with_target-frame :
      (fs : Files) (p : Text)
      → p ≢ os.probe c.credential_provider_target_dir
      → files_with_target fs p ≡ (os.mkdir_all c.credential_provider_target_dir fs).0 p
  unfolding ensure_dir_exists
  files_with_target-frame fs p n = ground (
    arith,
    lawful.probe_frame c.credential_provider_target_dir p
        (os.mkdir_all c.credential_provider_target_dir fs).0 n,
  )

  pub files_with_target-keeps :
      KeepsFiles os
      → (fs : Files) (p : Text) (f : File) → p ≢ os.probe c.credential_provider_target_dir
      → fs p ≡ some (file f)
      → files_with_target fs p ≡ some (file f)
  files_with_target-keeps keeps fs p f n e =
      files_with_target-frame fs p n ∙ keeps c.credential_provider_target_dir p fs f e

  install-eq-ok :
      (fs : Files)
      → (install os (inr c) fs).1 ≡ ok tt
      → (binaries : List Text) × (os.read_dir c.credential_provider_source_dir
            (files_with_target fs)
          ≡ inr binaries)
        × (install os (inr c) fs ≡ install_binaries os c binaries (files_with_target fs))
  unfolding install ensure_dir_exists
  install-eq-ok fs h = go (os.read_dir c.credential_provider_source_dir (files_with_target fs)) refl
    where
      go :
          (r : GoError ⊎ List Text)
          → os.read_dir c.credential_provider_source_dir (files_with_target fs) ≡ r
          → (binaries : List Text) × (os.read_dir c.credential_provider_source_dir
                (files_with_target fs)
              ≡ inr binaries)
            × (install os (inr c) fs ≡ install_binaries os c binaries (files_with_target fs))
      go (inl e) p = absurd (ground arith)
      go (inr binaries) p = (binaries, p, ground arith)

  -- An installation leaves the sources alone.
  pub install-source :
      KeepsFiles os
      → (fs : Files) (binaries : List Text)
      → os.read_dir c.credential_provider_source_dir (files_with_target fs) ≡ inr binaries
      → IsApart os c binaries
      → (install os (inr c) fs).1 ≡ ok tt
      → (binary : Text) → In binary binaries
      → (f : File) → fs (source_of os c binary) ≡ some (file f)
      → (install os (inr c) fs).0 (source_of os c binary) ≡ some (file f)
  install-source keeps fs binaries listed apart h binary i f q =
      let (found, p, e) = install-eq-ok fs h in
      let same : found ≡ binaries = cc (p, listed) in
      let ran : install os (inr c) fs ≡ install_binaries os c binaries (files_with_target fs) =
        e ∙ ap (λ xs. install_binaries os c xs (files_with_target fs)) same in
      let source : Untouched os c (source_of os c binary) binaries =
        All-of_In binaries (λ x j. apart.sources binary x i j) in
      rw ran (
        install_binaries-frame os lawful c binaries (source_of os c binary) (files_with_target fs)
          source
        ∙ files_with_target-keeps keeps fs (source_of os c binary) f (apart.unprobed binary i) q)

  -- On a lawful file system where making a directory keeps the files, after an Install that
  -- succeeds and may overwrite, every binary of the source directory that is a file and is not to
  -- be skipped stands in the target directory with the content and mode it had in the source, if
  -- the binaries have distinct names, no source is at or below a target or its temporary file or is
  -- the file that the check of the target directory writes, and no target is at or below another
  -- target or its temporary file.
  pub install-done :
      KeepsFiles os
      → (fs : Files) (binaries : List Text)
      → os.read_dir c.credential_provider_source_dir (files_with_target fs) ≡ inr binaries
      → IsApart os c binaries
      → c.update_credential_provider_binaries ≡ true
      → (install os (inr c) fs).1 ≡ ok tt
      → (binary : Text) → In binary binaries
      → skip_binary c binary ≡ false
      → (f : File) → fs (source_of os c binary) ≡ some (file f)
      → (install os (inr c) fs).0 (target_of os c binary) ≡ some (file f)
  install-done keeps fs binaries listed apart update h binary i s f q =
      let (found, p, e) = install-eq-ok fs h in
      let same : found ≡ binaries = cc (p, listed) in
      let ran : install os (inr c) fs ≡ install_binaries os c binaries (files_with_target fs) =
        e ∙ ap (λ xs. install_binaries os c xs (files_with_target fs)) same in
      rw ran (
        install_binaries-each binaries (files_with_target fs) apart update (rw ran at h) binary i s
          f
          (files_with_target-keeps keeps fs (source_of os c binary) f (apart.unprobed binary i) q))
