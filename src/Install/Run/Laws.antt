-- ===== src/Install/Run/Laws.antt =====
-- What an installation leaves in the target directory.
use dynamic_credential_provi.Base.{
  All, List, Result, Text, [], ap, arith, crash, err, false, ok, refl, some, true, ◌++◌, ◌∙◌, ◌∷◌,
  ◌≡◌,
}
use dynamic_credential_provi.Install.Files.{Os, file, File, IsLawful, Files, IsOutside}
use dynamic_credential_provi.Install.Copy.{temporary}
use dynamic_credential_provi.Install.Run.{
  skip_binary, file_exists, source_of, target_of, install_binary, and_then, install_binaries,
  Config,
}
use dynamic_credential_provi.Install.Copy.Laws.{
  copy_file_and_permissions-done, copy_file_and_permissions-frame,
}

-- No binary of the list is written to `p`, or to where it is below.
abbrev pub Untouched : Os → Config → Text → List Text → Type 0
Untouched os c p =
    All
      (λ other. IsOutside p (target_of os c other) × IsOutside p (temporary (target_of os c other)))

and_then-ok :
    (r : Files × Result (Unit {0})) (next : Files → Files × Result (Unit {0}))
    → (and_then r next).1 ≡ ok tt
    → (r.1 ≡ ok tt) × ((next r.0).1 ≡ ok tt) × ((and_then r next).0 ≡ (next r.0).0)
and_then-ok (fs, ok _) next h = (refl, h, refl)
and_then-ok (fs, err e) next h = absurd (ground arith)
and_then-ok (fs, crash x) next h = absurd (ground arith)

and_then-frame :
    (r : Files × Result (Unit {0})) (next : Files → Files × Result (Unit {0})) (p : Text)
    → ((fs : Files) → (next fs).0 p ≡ fs p)
    → (and_then r next).0 p ≡ r.0 p
and_then-frame (fs, ok _) next p h = h fs
and_then-frame (fs, err e) next p h = refl
and_then-frame (fs, crash x) next p h = refl

module _ (os : Os) (lawful : IsLawful os) (c : Config) where
  pub install_binary-frame :
      (binary p : Text) (fs : Files)
      → IsOutside p (target_of os c binary)
      → IsOutside p (temporary (target_of os c binary))
      → (install_binary os c binary fs).0 p ≡ fs p
  unfolding install_binary
  install_binary-frame binary p fs n m = ground (
    arith,
    copy_file_and_permissions-frame os lawful (source_of os c binary) (target_of os c binary) fs p n
        m,
  )

  install_binaries-cons :
      (binary : Text) (binaries : List Text) (fs : Files)
      → install_binaries os c (binary ∷ binaries) fs
        ≡ and_then (install_binary os c binary fs) (install_binaries os c binaries)
  unfolding install_binaries
  install_binaries-cons binary binaries fs = refl

  -- On a lawful file system, a file that no binary of the list is written to stays as it was,
  -- however the loop ends.
  pub install_binaries-frame :
      (binaries : List Text) (p : Text) (fs : Files)
      → Untouched os c p binaries
      → (install_binaries os c binaries fs).0 p ≡ fs p
  unfolding install_binaries
  install_binaries-frame [] p fs u = refl
  install_binaries-frame (binary ∷ binaries) p fs u = ground (
    arith,
    install_binary-frame binary p fs u.0.0 u.0.1,
    install_binaries-frame binaries p (install_binary os c binary fs).0 u.1,
  )

  install_binaries-append :
      (first rest : List Text) (fs : Files)
      → install_binaries os c (first ++ rest) fs
        ≡ and_then (install_binaries os c first fs) (install_binaries os c rest)
  unfolding install_binaries
  install_binaries-append [] rest fs = refl
  install_binaries-append (binary ∷ first) rest fs =
      ground (arith, install_binaries-append first rest (install_binary os c binary fs).0)

  install_binary-done :
      (binary : Text) (fs : Files) (f : File)
      → fs (source_of os c binary) ≡ some (file f)
      → skip_binary c binary ≡ false
      → c.update_credential_provider_binaries ≡ true
      → (install_binary os c binary fs).1 ≡ ok tt
      → (install_binary os c binary fs).0 (target_of os c binary) ≡ some (file f)
  unfolding install_binary
  install_binary-done binary fs f p s u h = ground (
    arith,
    copy_file_and_permissions-done os lawful (source_of os c binary) (target_of os c binary) fs f p,
  )

  install_binary-kept :
      (binary : Text) (fs : Files)
      → skip_binary c binary ≡ true
      → (install_binary os c binary fs).0 ≡ fs
  unfolding install_binary
  install_binary-kept binary fs s = ground arith

  -- On a lawful file system, after the loop of an installation that succeeds and may overwrite, a
  -- binary that is not to be skipped stands in the target directory with the source's content and
  -- mode, if the others are written to other files than its source and its target.
  pub install_binaries-done :
      (first rest : List Text) (binary : Text) (fs : Files) (f : File)
      → Untouched os c (source_of os c binary) first
      → Untouched os c (target_of os c binary) rest
      → fs (source_of os c binary) ≡ some (file f)
      → skip_binary c binary ≡ false
      → c.update_credential_provider_binaries ≡ true
      → (install_binaries os c (first ++ binary ∷ rest) fs).1 ≡ ok tt
      → (install_binaries os c (first ++ binary ∷ rest) fs).0 (target_of os c binary)
        ≡ some (file f)
  install_binaries-done first rest binary fs f source target p s u h =
      let ready = (install_binaries os c first fs).0 in
      let (_, h1, e1) =
        and_then-ok (install_binaries os c first fs) (install_binaries os c (binary ∷ rest))
          (rw install_binaries-append at h) in
      let (h2, _, e2) =
        and_then-ok (install_binary os c binary ready) (install_binaries os c rest)
          (rw install_binaries-cons at h1) in
      let done =
        install_binary-done binary ready f (install_binaries-frame first _ fs source ∙ p) s u h2 in
      let at_target = λ (files : Files). files (target_of os c binary) in
      rw (install_binaries-append first (binary ∷ rest) fs) (
        ap at_target e1
        ∙ rw (install_binaries-cons binary rest ready)
            (ap at_target e2 ∙ install_binaries-frame rest _ _ target ∙ done))

  -- On a lawful file system, a binary that is to be skipped leaves its target as it was, if the
  -- others are written elsewhere.
  pub install_binaries-skipped :
      (first rest : List Text) (binary : Text) (fs : Files)
      → Untouched os c (target_of os c binary) first
      → Untouched os c (target_of os c binary) rest
      → skip_binary c binary ≡ true
      → (install_binaries os c (first ++ binary ∷ rest) fs).0 (target_of os c binary)
        ≡ fs (target_of os c binary)
  install_binaries-skipped first rest binary fs before after s =
      rw (install_binaries-append first (binary ∷ rest) fs) (
        and_then-frame (install_binaries os c first fs) (install_binaries os c (binary ∷ rest)) _
          (λ files. skipped-frame files)
        ∙ install_binaries-frame first _ fs before)
    where
      skipped-frame :
          (files : Files)
          → (install_binaries os c (binary ∷ rest) files).0 (target_of os c binary)
            ≡ files (target_of os c binary)
      skipped-frame files = rw (install_binaries-cons binary rest files) (
          and_then-frame (install_binary os c binary files) (install_binaries os c rest) _
            (λ later. install_binaries-frame rest _ later after)
          ∙ ap (λ (kept : Files). kept (target_of os c binary))
              (install_binary-kept binary files s))

  -- An existing file is left alone where binaries are not to be updated.
  pub install_binary-existing :
      (binary : Text) (fs : Files) (f : File)
      → fs (target_of os c binary) ≡ some (file f)
      → c.update_credential_provider_binaries ≡ false
      → (install_binary os c binary fs).0 ≡ fs
  unfolding install_binary file_exists
  install_binary-existing binary fs f p u = ground arith
