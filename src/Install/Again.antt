-- ===== src/Install/Again.antt =====
-- A second installation, on the files that the first has left.
use dynamic_credential_provi.Base.{
  Bool-cases, In, List, Result, Text, [], ap, arith, false, inl, inr, none, ok, refl, some, true,
  ◌∙◌, ◌∷◌, ◌≡◌, ◌≢◌,
}
use dynamic_credential_provi.Install.Files.{file, Os, Files, IsLawful, File, Reads}
use dynamic_credential_provi.Install.Whole.{
  KeepsFiles, files_with_target, install-done, IsApart, install-source,
}
use dynamic_credential_provi.Install.Run.{
  ensure_dir_exists, install, Config, skip_binary, install_binary, file_exists, install_binaries,
  source_of, target_of,
}
use dynamic_credential_provi.Install.Copy.Laws.{IsReadable, copy_file_and_permissions-unchanged}

-- The files once the check of the target directory has run.
abbrev pub files_probed : Os → Config → Files → Files
files_probed os c fs = (os.is_dir_writeable c.credential_provider_target_dir fs).0

-- The file system as the second installation finds it: the target directory is there and can be
-- written, and after that check files of one content are read without an error and in the same
-- pieces, and the source directory has the same binaries.
pub record IsSettled (os : Os) (c : Config) (binaries : List Text) (fs : Files) : Type 0 where
  pub rereads :
      (p q : Text) (f : File)
      → files_probed os c fs p ≡ some (file f)
      → files_probed os c fs q ≡ some (file f)
      → (reads : Reads) × IsReadable os (files_probed os c fs) p f reads
        × IsReadable os (files_probed os c fs) q f reads
  pub made : os.mkdir_all c.credential_provider_target_dir fs ≡ (fs, none)
  pub writeable : (os.is_dir_writeable c.credential_provider_target_dir fs).1 ≡ none
  pub listed : os.read_dir c.credential_provider_source_dir (files_probed os c fs) ≡ inr binaries

module _ (os : Os) (c : Config) where
  -- The target of a binary is its source's file.
  abbrev IsCurrent : Files → Text → Type 0
  IsCurrent fs binary =
      (f : File) × (fs (source_of os c binary) ≡ some (file f))
      × (fs (target_of os c binary) ≡ some (file f))

  file_exists-file :
      (fs : Files) (p : Text) (f : File)
      → fs p ≡ some (file f)
      → os.stat_error fs p ≡ none
      → file_exists os fs p ≡ ok true
  unfolding file_exists
  file_exists-file fs p f e h = ground (arith, e, h)

  install_binary-current :
      (all : List Text) (binary : Text) (fs : Files)
      → IsSettled os c all fs
      → (skip_binary c binary ≡ false → IsCurrent (files_probed os c fs) binary)
      → install_binary os c binary (files_probed os c fs) ≡ (files_probed os c fs, ok tt)
  unfolding install_binary
  install_binary-current all binary fs settled current = elim (Bool-cases (skip_binary c binary)) [
    | inl s ↦ ground arith
    | inr s ↦
        let (f, from, to) = current s in
        let (reads, a, b) =
          settled.rereads (source_of os c binary) (target_of os c binary) f from to in
        ground (
          arith,
          s,
          file_exists-file (files_probed os c fs) (target_of os c binary) f to b.stats,
          copy_file_and_permissions-unchanged os (source_of os c binary) (target_of os c binary)
              (files_probed os c fs) f reads a b,
        )
  ]

  install_binaries-current :
      (all binaries : List Text) (fs : Files)
      → IsSettled os c all fs
      → ((binary : Text)
          → In binary binaries
          → skip_binary c binary ≡ false
          → IsCurrent (files_probed os c fs) binary)
      → install_binaries os c binaries (files_probed os c fs) ≡ (files_probed os c fs, ok tt)
  unfolding install_binaries
  install_binaries-current all [] fs settled current = refl
  install_binaries-current all (binary ∷ binaries) fs settled current =
      rw (install_binary-current all binary fs settled (current binary (inl refl)))
        (install_binaries-current all binaries fs settled (λ b i. current b (inr i)))

  install-current :
      (binaries : List Text) (fs : Files)
      → IsSettled os c binaries fs
      → ((binary : Text)
          → In binary binaries
          → skip_binary c binary ≡ false
          → IsCurrent (files_probed os c fs) binary)
      → install os (inr c) fs ≡ (files_probed os c fs, ok tt)
  unfolding install ensure_dir_exists
  install-current binaries fs settled current = ground (
    arith,
    settled.made,
    settled.writeable,
    settled.listed,
    install_binaries-current binaries binaries fs settled current,
  )

  -- On a lawful file system where making a directory keeps the files, after an Install that
  -- succeeds and may overwrite, an Install on the files it leaves succeeds and changes no file but
  -- the one that the check of the target directory writes, if the binaries that are not to be
  -- skipped are files, all have distinct names, no source is at or below a target or its temporary
  -- file or is the file that the check of the target directory writes, no target is that file, or
  -- is at or below another target or its temporary file, and the second finds the same binaries, a
  -- target directory that is there and can be written, and files that can be read, those of one
  -- content in the same pieces.
  pub install-again :
      (lawful : IsLawful os)
      → KeepsFiles os
      → (fs : Files) (binaries : List Text)
      → os.read_dir c.credential_provider_source_dir (files_with_target os lawful c fs)
        ≡ inr binaries
      → IsApart os c binaries
      → ((binary : Text)
          → In binary binaries
          → target_of os c binary ≢ os.probe c.credential_provider_target_dir)
      → c.update_credential_provider_binaries ≡ true
      → ((binary : Text)
          → In binary binaries
          → skip_binary c binary ≡ false
          → (f : File) × (fs (source_of os c binary) ≡ some (file f)))
      → (install os (inr c) fs).1 ≡ ok tt
      → IsSettled os c binaries (install os (inr c) fs).0
      → (p : Text) → p ≢ os.probe c.credential_provider_target_dir
      → ((install os (inr c) (install os (inr c) fs).0).1 ≡ ok tt)
        × ((install os (inr c) (install os (inr c) fs).0).0 p ≡ (install os (inr c) fs).0 p)
  install-again lawful keeps fs binaries listed apart unprobed update sources h settled p n =
      let first = (install os (inr c) fs).0 in
      let second : install os (inr c) first ≡ (files_probed os c first, ok tt) =
        install-current binaries first settled (λ binary i s.
          let (f, e) = sources binary i s in
          (
            f,
            lawful.probe_frame c.credential_provider_target_dir _ first (apart.unprobed binary i)
                ∙ install-source os lawful c keeps fs binaries listed apart h binary i f e,
            lawful.probe_frame c.credential_provider_target_dir _ first (unprobed binary i)
                ∙ install-done os lawful c keeps fs binaries listed apart update h binary i s f e,
          )) in
      (
        ap (λ (r : Files × Result (Unit {0})). r.1) second,
        ap (λ (r : Files × Result (Unit {0})). r.0 p) second
            ∙ lawful.probe_frame c.credential_provider_target_dir p first n,
      )
