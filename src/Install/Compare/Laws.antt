-- ===== src/Install/Compare/Laws.antt =====
-- A file that is reported up to date has the source's content and mode.
use dynamic_credential_provi.Base.{
  Option, Option-cases, Text, [], ap, arith, inl, inr, none, ok, refl, some, sym, text_eq_iff,
  text_eq_refl, true, ◌++◌, ◌∙◌, ◌∷◌, ◌≡◌,
}
use dynamic_credential_provi.Install.Files.{
  directory, more, ends, eof, Os, file, Files, IsLawful, Fails, File, read_failure, Reads, Node,
  contents,
}
use dynamic_credential_provi.Install.Compare.{
  destination_up_to_date, switch, compare_files, compare_reads,
}

contents-more :
    (s t : Text) (reads : Reads)
    → contents (more s reads) ≡ some t
    → (u : Text) × (contents reads ≡ some u) × (t ≡ s ++ u)
contents-more s t reads h = elim (Option-cases (contents reads)) [
  | inl e ↦ absurd (ground arith)
  | inr (u, e) ↦ (u, e, ground arith)
]

contents-eof : (s t : Text) → contents (ends s eof) ≡ some t → t ≡ []
contents-eof [] t h = ground arith
contents-eof (c ∷ s) t h = cc

-- Files that compare equal have the same content.
pub compare_reads-contents :
    (reads1 reads2 : Reads) (t1 t2 : Text)
    → compare_reads reads1 reads2 ≡ ok true
    → contents reads1 ≡ some t1
    → contents reads2 ≡ some t2
    → t1 ≡ t2
unfolding compare_reads switch
compare_reads-contents (more s1 reads1) (more s2 reads2) t1 t2 h p q =
    let (u1, p', e1) = contents-more s1 t1 reads1 p in
    let (u2, q', e2) = contents-more s2 t2 reads2 q in
    ground (arith, text_eq_iff s1 s2, compare_reads-contents reads1 reads2 u1 u2)
compare_reads-contents (more s1 reads1) (ends s2 eof) t1 t2 h p q = absurd (ground arith)
compare_reads-contents (more s1 reads1) (ends s2 (read_failure e)) t1 t2 h p q =
    absurd (ground arith)
compare_reads-contents (ends s1 eof) (more s2 reads2) t1 t2 h p q = absurd (ground arith)
compare_reads-contents (ends s1 (read_failure e)) (more s2 reads2) t1 t2 h p q =
    absurd (ground arith)
compare_reads-contents (ends s1 eof) (ends s2 eof) t1 t2 h p q =
    contents-eof s1 t1 p ∙ sym (contents-eof s2 t2 q)
compare_reads-contents (ends s1 eof) (ends s2 (read_failure e)) t1 t2 h p q = cc
compare_reads-contents (ends s1 (read_failure e)) (ends s2 end2) t1 t2 h p q = cc

-- A comparison that ends with yes has met no error in either file.
compare_reads-Fails :
    (reads1 reads2 : Reads)
    → compare_reads reads1 reads2 ≡ ok true
    → (¬ Fails reads1) × (¬ Fails reads2)
unfolding compare_reads switch
compare_reads-Fails (more s1 reads1) (more s2 reads2) h =
    compare_reads-Fails reads1 reads2 (ground arith)
compare_reads-Fails (more s1 reads1) (ends s2 eof) h = absurd (ground arith)
compare_reads-Fails (more s1 reads1) (ends s2 (read_failure e)) h = absurd (ground arith)
compare_reads-Fails (ends s1 eof) (more s2 reads2) h = absurd (ground arith)
compare_reads-Fails (ends s1 (read_failure e)) (more s2 reads2) h = absurd (ground arith)
compare_reads-Fails (ends s1 eof) (ends s2 eof) h = (λ f. f, λ f. f)
compare_reads-Fails (ends s1 eof) (ends s2 (read_failure e)) h = absurd (ground arith)
compare_reads-Fails (ends s1 (read_failure e)) (ends s2 end2) h = absurd (ground arith)

File-eq : (f g : File) → f.content ≡ g.content → f.mode ≡ g.mode → f ≡ g
File-eq f g p q = ground arith

module _ (os : Os) (lawful : IsLawful os) (fs : Files) (src dst : Text) where
  lawful_contents :
      (p : Text) (f : File)
      → ¬ Fails (os.reads p (file f))
      → contents (os.reads p (file f)) ≡ some f.content
  lawful_contents p f n = elim (lawful.reads_content p f) [ inl e ↦ e | inr b ↦ absurd (n b) ]

  compare_files-content :
      (f g : File) → compare_files os fs src dst (file f) (file g) ≡ ok true → f.content ≡ g.content
  unfolding compare_files
  compare_files-content f g h =
      let e : compare_reads (os.reads src (file f)) (os.reads dst (file g)) ≡ ok true =
        ground arith in
      let (n, m) = compare_reads-Fails _ _ e in
      compare_reads-contents _ _ f.content g.content e (lawful_contents src f n)
        (lawful_contents dst g m)

  -- On a lawful file system, if destinationUpToDate answers yes for a source that is a file, the
  -- destination is a file with the same mode and content.
  pub destination_up_to_date-same :
      (f : File)
      → fs src ≡ some (file f)
      → destination_up_to_date os fs src dst ≡ ok true
      → fs dst ≡ some (file f)
  unfolding destination_up_to_date
  destination_up_to_date-same f p h = go (fs dst) refl
    where
      go : (n : Option Node) → fs dst ≡ n → fs dst ≡ some (file f)
      go none q = absurd (ground arith)
      go (some (directory size mode)) q = absurd (ground arith)
      go (some (file g)) q =
          q ∙ ap (λ n. some (file n)) (sym (File-eq f g (checks g q).0 (checks g q).1))
        where
          checks : (g : File) → fs dst ≡ some (file g) → (f.content ≡ g.content) × (f.mode ≡ g.mode)
          checks g q = ground (arith, compare_files-content f g)

pub compare_reads-same :
    (reads : Reads) (t : Text) → contents reads ≡ some t → compare_reads reads reads ≡ ok true
unfolding compare_reads switch
compare_reads-same (more s reads) t h =
    let (u, e, _) = contents-more s t reads h in rw (text_eq_refl s) (compare_reads-same reads u e)
compare_reads-same (ends s eof) t h = refl
compare_reads-same (ends s (read_failure e)) t h = absurd (ground arith)
