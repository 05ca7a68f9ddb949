-- ===== src/Install/Copy/Laws.antt =====
-- The destination is never seen half written, and no third file changes.
use dynamic_credential_provi.Base.{
  Bool-cases, GoError, Option-cases, Text, [], ap, arith, codes, err, has_prefix, inl, inr, length,
  length-append, none, ok, some, true, ◌++◌, ◌∷◌, ◌≡◌, ◌≢◌, ◌≤◌,
}
use dynamic_credential_provi.Install.Files.{
  Os, file, IsLawful, Files, File, contents, Reads, IsOutside,
}
use dynamic_credential_provi.Install.Copy.{
  temporary, copy_over, copy_file_and_permissions, move_into_place,
}
use dynamic_credential_provi.Install.Compare.Laws.{destination_up_to_date-same, compare_reads-same}
use dynamic_credential_provi.Install.Compare.{destination_up_to_date, compare_files}

pub temporary-ne : (dst : Text) → dst ≢ temporary dst
temporary-ne dst e = omega (arith, ap (λ (t : Text). length t) e, length-append dst (codes ".tmp"))

has_prefix-length : (p prefix : Text) → has_prefix p prefix ≡ true → length prefix ≤ length p
unfolding has_prefix
has_prefix-length p [] h = ground arith
has_prefix-length [] (c ∷ prefix) h = absurd (ground arith)
has_prefix-length (d ∷ p) (c ∷ prefix) h = ground (arith, has_prefix-length p prefix)

-- The destination is not below its temporary file.
temporary-IsOutside : (dst : Text) → IsOutside dst (temporary dst)
temporary-IsOutside dst = (
  temporary-ne dst,
  elim (Bool-cases (has_prefix dst (temporary dst ++ codes "/"))) [
    | inl h ↦ absurd (
        omega (
          arith,
          has_prefix-length dst (temporary dst ++ codes "/") h,
          length-append (temporary dst) (codes "/"),
          length-append dst (codes ".tmp"),
        ))
    | inr h ↦ h
  ],
)

module _ (os : Os) (lawful : IsLawful os) (src dst : Text) where
  move_into_place-frame :
      (fs : Files) (p : Text)
      → IsOutside p dst
      → IsOutside p (temporary dst)
      → (move_into_place os dst fs).0 p ≡ fs p
  unfolding move_into_place
  move_into_place-frame fs p n m = ground (arith, lawful.rename_frame (temporary dst) dst p fs m n)

  copy_over-frame :
      (fs : Files) (p : Text)
      → IsOutside p dst
      → IsOutside p (temporary dst)
      → (copy_over os src dst fs).0 p ≡ fs p
  unfolding copy_over
  copy_over-frame fs p n m = ground (
    arith,
    lawful.copy_frame src (temporary dst) p fs m,
    move_into_place-frame (os.copy src (temporary dst) fs).0 p n m,
  )

  -- Whatever happens, copyFileAndPermissions changes no file but the destination, the
  -- temporary file next to it, and what is below them.
  pub copy_file_and_permissions-frame :
      (fs : Files) (p : Text)
      → IsOutside p dst
      → IsOutside p (temporary dst)
      → (copy_file_and_permissions os src dst fs).0 p ≡ fs p
  unfolding copy_file_and_permissions
  copy_file_and_permissions-frame fs p n m = ground (arith, copy_over-frame fs p n m)

  copy_over-done :
      (fs : Files) (f : File)
      → fs src ≡ some (file f)
      → (copy_over os src dst fs).1 ≡ ok tt
      → (copy_over os src dst fs).0 dst ≡ some (file f)
  unfolding copy_over move_into_place
  copy_over-done fs f p h = ground (
    arith,
    lawful.copy_done src (temporary dst) fs f p,
    lawful.rename_done (temporary dst) dst (os.copy src (temporary dst) fs).0,
  )

  copy_over-failed :
      (fs : Files) (e : GoError)
      → (copy_over os src dst fs).1 ≡ err e
      → (copy_over os src dst fs).0 dst ≡ fs dst
  unfolding copy_over move_into_place
  copy_over-failed fs e h = elim (Option-cases (os.copy src (temporary dst) fs).1) [
    | inr (x, p) ↦
        ground (arith, lawful.copy_frame src (temporary dst) dst fs (temporary-IsOutside dst))
    | inl p ↦
        elim (Option-cases (os.rename (temporary dst) dst (os.copy src (temporary dst) fs).0).1) [
          | inl q ↦ absurd (ground arith)
          | inr (y, q) ↦ ground (
            arith,
            ap (λ (files : Files). files dst)
                (lawful.rename_failed (temporary dst) dst (os.copy src (temporary dst) fs).0 y q),
            lawful.copy_frame src (temporary dst) dst fs (temporary-IsOutside dst),
          )
        ]
  ]

  -- On a lawful file system, after a call of copyFileAndPermissions that succeeds the destination
  -- is the source's file, of the same content and mode.
  pub copy_file_and_permissions-done :
      (fs : Files) (f : File)
      → fs src ≡ some (file f)
      → (copy_file_and_permissions os src dst fs).1 ≡ ok tt
      → (copy_file_and_permissions os src dst fs).0 dst ≡ some (file f)
  unfolding copy_file_and_permissions
  copy_file_and_permissions-done fs f p h =
      ground (arith, destination_up_to_date-same os lawful fs src dst f p, copy_over-done fs f p)

  -- On a lawful file system, after a call of copyFileAndPermissions that reports an error the
  -- destination is what it was before.
  pub copy_file_and_permissions-failed :
      (fs : Files) (e : GoError)
      → (copy_file_and_permissions os src dst fs).1 ≡ err e
      → (copy_file_and_permissions os src dst fs).0 dst ≡ fs dst
  unfolding copy_file_and_permissions
  copy_file_and_permissions-failed fs e h = ground (arith, copy_over-failed fs e)

-- The whole file can be read at the path: each call succeeds, and the reads give this content.
pub record IsReadable (os : Os) (fs : Files) (p : Text) (f : File) (reads : Reads) : Type 0 where
  pub holds : fs p ≡ some (file f)
  pub stats : os.stat_error fs p ≡ none
  pub opens : os.open_error fs p ≡ none
  pub reads_as : os.reads p (file f) ≡ reads
  pub whole : contents reads ≡ some f.content

-- Where the destination already is the source's file, and both can be read, in the same pieces,
-- copyFileAndPermissions succeeds and writes nothing.
pub copy_file_and_permissions-unchanged :
    (os : Os) (src dst : Text) (fs : Files) (f : File) (reads : Reads)
    → IsReadable os fs src f reads
    → IsReadable os fs dst f reads
    → copy_file_and_permissions os src dst fs ≡ (fs, ok tt)
unfolding copy_file_and_permissions destination_up_to_date compare_files
copy_file_and_permissions-unchanged os src dst fs f reads a b = ground (
  arith,
  a.holds,
  a.stats,
  a.opens,
  a.reads_as,
  b.holds,
  b.stats,
  b.opens,
  b.reads_as,
  compare_reads-same reads f.content a.whole,
)
