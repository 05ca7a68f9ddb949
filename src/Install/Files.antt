-- ===== src/Install/Files.antt =====
-- The file system that the installation works on, and what it uses of `os` and of the libraries
-- around it, as an interface with the errors that each call can report.
use dynamic_credential_provi.Base.{
  Bool, GoError, List, Option, Text, [], codes, false, has_prefix, length, none, some, true, ℕ,
  ◌++◌, ◌==◌, ◌∷◌, ◌≡◌, ◌≢◌, ◌⊎◌,
}

pub record File : Type 0 where
  pub content : Text
  pub mode : ℕ

-- A directory has a size and a mode of its own. There are no symbolic links.
pub data Node : Type 0 where
  file : File → Node
  directory : ℕ → ℕ → Node

abbrev pub Files : Type 0
Files = Text → Option Node

-- `Size()`, `Mode()` and `IsDir()` of a `FileInfo`; the mode tells a directory from a file.
abbrev pub size_of : Node → ℕ
size_of (file f) = length f.content
size_of (directory size mode) = size

abbrev pub is_dir : Node → Bool
is_dir (file f) = false
is_dir (directory size mode) = true

abbrev pub same_mode : Node → Node → Bool
same_mode (file f) (file g) = f.mode == g.mode
same_mode (directory _ mode) (directory _ mode') = mode == mode'
same_mode _ _ = false

-- How a read ends that reports an error: at the end of the file, or with another error.
pub data ReadEnd : Type 0 where
  eof : ReadEnd
  read_failure : GoError → ReadEnd

-- The results of reading an open file again and again: the bytes of each read without an error,
-- and the first read with one.
pub data Reads : Type 0 where
  more : Text → Reads → Reads
  ends : Text → ReadEnd → Reads

-- The whole content, if reading gets to the end; at the end an `os.File` has no more bytes.
abbrev pub contents : Reads → Option Text
contents (more s reads) = elim (contents reads) [ none ↦ none | some t ↦ some (s ++ t) ]
contents (ends [] eof) = some []
contents (ends (_ ∷ _) eof) = none
contents (ends _ (read_failure _)) = none

-- Reading stops at an error other than the end of the file.
abbrev pub Fails : Reads → Type 0
Fails (more s reads) = Fails reads
Fails (ends s eof) = ⊥
Fails (ends s (read_failure e)) = Unit

-- `stat_error` and `open_error` are the errors but `IsNotExist`. `reads` are the reads of an open
-- file into a buffer of 64000 bytes. `copy` is `copy.Copy`, `join` is `path.Join`, and
-- `is_dir_writeable` is etcd's, which writes the file `probe` in the directory and removes it.
pub record Os : Type 0 where
  pub stat_error : Files → Text → Option GoError
  pub open_error : Files → Text → Option GoError
  pub reads : Text → Node → Reads
  pub copy : Text → Text → Files → Files × Option GoError
  pub rename : Text → Text → Files → Files × Option GoError
  pub mkdir_all : Text → Files → Files × Option GoError
  pub is_dir_writeable : Text → Files → Files × Option GoError
  pub probe : Text → Text
  pub read_dir : Text → Files → GoError ⊎ List Text
  pub join : Text → Text → Text

-- Neither the path itself nor one below it.
abbrev pub IsOutside : Text → Text → Type 0
IsOutside p q = (p ≢ q) × (has_prefix p (q ++ codes "/") ≡ false)

-- What the documentation of these calls promises. A copy changes its target and what is below it
-- alone, also when it fails half way; a rename that fails changes nothing, and one that succeeds
-- moves the file, or the directory with what is below it. The check of a directory changes its own
-- file alone.
pub record IsLawful (os : Os) : Type 0 where
  pub reads_content :
      (p : Text) (f : File)
      → (contents (os.reads p (file f)) ≡ some f.content) ⊎ Fails (os.reads p (file f))
  pub copy_frame :
      (src dst p : Text) (fs : Files) → IsOutside p dst → (os.copy src dst fs).0 p ≡ fs p
  pub copy_done :
      (src dst : Text) (fs : Files) (f : File)
      → fs src ≡ some (file f)
      → (os.copy src dst fs).1 ≡ none
      → (os.copy src dst fs).0 dst ≡ some (file f)
  pub rename_failed :
      (src dst : Text) (fs : Files) (e : GoError)
      → (os.rename src dst fs).1 ≡ some e
      → (os.rename src dst fs).0 ≡ fs
  pub rename_frame :
      (src dst p : Text) (fs : Files)
      → IsOutside p src
      → IsOutside p dst
      → (os.rename src dst fs).0 p ≡ fs p
  pub rename_done :
      (src dst : Text) (fs : Files)
      → (os.rename src dst fs).1 ≡ none
      → (os.rename src dst fs).0 dst ≡ fs src
  pub probe_frame :
      (dir p : Text) (fs : Files) → p ≢ os.probe dir → (os.is_dir_writeable dir fs).0 p ≡ fs p

-- `os.Stat`
pub data Stat : Type 0 where
  stat_missing : Stat
  stat_failure : GoError → Stat
  stat_info : Node → Stat

abbrev pub stat : Os → Files → Text → Stat
stat os fs p = elim (os.stat_error fs p) [
  | some e ↦ stat_failure e
  | none ↦ elim (fs p) [ none ↦ stat_missing | some n ↦ stat_info n ]
]
