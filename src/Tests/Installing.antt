-- ===== src/Tests/Installing.antt =====
-- A file system that keeps its promises, and the installation on it.
use dynamic_credential_provi.Base.{
  Bool, GoError, List, Option, Option-cases, Text, [], ap, arith, codes, if◌then◌else◌, inl, inr,
  leaf, none, refl, some, sym, text_eq, text_eq-false, text_eq_refl, ◌++◌, ◌∷◌, ◌≡◌, ◌≢◌,
}
use dynamic_credential_provi.Install.Files.{Os, IsOutside}
use dynamic_credential_provi.Install.Files.{
  more, ends, eof, file, directory, IsLawful, Node, Reads, read_failure, File, Files,
}
use dynamic_credential_provi.Install.Run.{Config}

unfoldable pub update : Text → Option Node → Files → Files
update p entry fs q = if text_eq p q then entry else fs q

unfoldable pub copy_node : Text → Text → Files → Files × Option GoError
copy_node src dst fs = elim (fs src) [
  | none ↦ (fs, some (leaf "no such file" []))
  | some n ↦ (update dst (some n) fs, none)
]

unfoldable pub rename_node : Text → Text → Files → Files × Option GoError
rename_node src dst fs = elim (fs src) [
  | none ↦ (fs, some (leaf "no such file" []))
  | some n ↦ (update dst (some n) (update src none fs), none)
]

unfoldable pub read_node : Text → Node → Reads
read_node p (file f) = more f.content (ends [] eof)
read_node p (directory size mode) = ends [] (read_failure (leaf "is a directory" []))

unfoldable pub disk : Os
unfolding copy_node rename_node read_node update
disk = record {
  stat_error = λ fs p. none;
  open_error = λ fs p. none;
  reads = read_node;
  copy = copy_node;
  rename = rename_node;
  mkdir_all = λ dir fs. (fs, none);
  is_dir_writeable = λ dir fs. (update (dir ++ codes "/.touch") none fs, none);
  probe = λ dir. dir ++ codes "/.touch";
  read_dir = λ dir fs. inr (codes "a" ∷ codes "b" ∷ []);
  join = λ dir name. dir ++ b'/' ∷ name;
}

update-same : (p : Text) (entry : Option Node) (fs : Files) → update p entry fs p ≡ entry
unfolding update
update-same p entry fs = rw (text_eq_refl p)

update-other : (p q : Text) (entry : Option Node) (fs : Files) → q ≢ p → update p entry fs q ≡ fs q
unfolding update
update-other p q entry fs n = rw (text_eq-false p q (λ e. n (sym e)))

copy_node-frame :
    (src dst p : Text) (fs : Files) → IsOutside p dst → (copy_node src dst fs).0 p ≡ fs p
unfolding copy_node
copy_node-frame src dst p fs n = elim (Option-cases (fs src)) [
  | inl e ↦ ground arith
  | inr (entry, e) ↦ ground (arith, update-other dst p (some entry) fs n.0)
]

rename_node-frame :
    (src dst p : Text) (fs : Files)
    → IsOutside p src
    → IsOutside p dst
    → (rename_node src dst fs).0 p ≡ fs p
unfolding rename_node
rename_node-frame src dst p fs n m = elim (Option-cases (fs src)) [
  | inl e ↦ ground arith
  | inr (entry, e) ↦ ground (
    arith,
    update-other dst p (some entry) (update src none fs) m.0,
    update-other src p none fs n.0,
  )
]

copy_node-done :
    (src dst : Text) (fs : Files) (f : File)
    → fs src ≡ some (file f)
    → (copy_node src dst fs).0 dst ≡ some (file f)
unfolding copy_node
copy_node-done src dst fs f e = ground (arith, update-same dst (some (file f)) fs)

rename_node-done :
    (src dst : Text) (fs : Files)
    → (rename_node src dst fs).1 ≡ none
    → (rename_node src dst fs).0 dst ≡ fs src
unfolding rename_node
rename_node-done src dst fs h = elim (Option-cases (fs src)) [
  | inl e ↦ absurd (ground arith)
  | inr (entry, e) ↦ ground (arith, update-same dst (some entry) (update src none fs))
]

rename_node-failed :
    (src dst : Text) (fs : Files) (e : GoError)
    → (rename_node src dst fs).1 ≡ some e
    → (rename_node src dst fs).0 ≡ fs
unfolding rename_node
rename_node-failed src dst fs x h = elim (Option-cases (fs src)) [
  | inl e ↦ ground arith
  | inr (entry, e) ↦ absurd (ground arith)
]

pub append_nil : (t : Text) → t ++ [] ≡ t
append_nil [] = refl
append_nil (c ∷ t) = ap (λ s. c ∷ s) (append_nil t)

pub disk-IsLawful : IsLawful disk
unfolding disk read_node
disk-IsLawful = record {
  reads_content = λ p f. inl (ap some (append_nil f.content));
  copy_frame = copy_node-frame;
  copy_done = λ src dst fs f e h. copy_node-done src dst fs f e;
  rename_failed = rename_node-failed;
  rename_frame = rename_node-frame;
  rename_done = rename_node-done;
  probe_frame = λ dir p fs n. update-other (dir ++ codes "/.touch") p none fs n;
}

abbrev pub tool : File
tool = record { content = codes "#!x"; mode = 493 }

abbrev old_tool : File
old_tool = record { content = codes "#!y"; mode = 493 }

-- The new binaries are in `s`, the old one of `b` is in `t`.
unfoldable pub initial_files : Files
unfolding update
initial_files = update (codes "s/a") (some (file tool)) (
    update (codes "s/b") (some (file tool))
      (update (codes "t/b") (some (file old_tool)) (λ p. none)))

abbrev pub updating : Bool → List Text → Config
updating update skip = record {
  skip_credential_provider_binaries = skip;
  update_credential_provider_binaries = update;
  credential_provider_source_dir = codes "s";
  credential_provider_target_dir = codes "t";
}
