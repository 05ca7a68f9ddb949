-- ===== src/Install/Compare.antt =====
-- destinationUpToDate: whether two files agree, without reading them where size or mode differ.
pub mod Laws
pub mod Loop
use dynamic_credential_provi.Base.{
  Bool, GoError, Option, Result, Text, [], arith, crash, err, false, fatal, if◌then◌else◌, inl, inr,
  leaf, length, none, not, ok, refl, some, text_eq, true, ℕ, ◌&&◌, ◌==◌, ◌||◌, ◌≡◌, ◌≢◌, ◌⊎◌,
}
use dynamic_credential_provi.Install.Files.{more, ends, eof, Os}
use dynamic_credential_provi.Install.Files.{
  stat_info, Node, same_mode, Files, stat_failure, read_failure, ReadEnd, size_of, stat_missing,
  stat, Reads,
}

-- The error of one round of reads; `none` is nil.
abbrev pub read_error : Reads → Option ReadEnd
read_error (more s reads) = none
read_error (ends s end) = some end

abbrev pub is_eof : Option ReadEnd → Bool
is_eof (some eof) = true
is_eof _ = false

-- The `switch` on the errors of the two reads and the numbers of bytes. `none` goes on to the
-- comparison of the bytes.
unfoldable pub switch : Option ReadEnd → Option ReadEnd → ℕ → ℕ → Option (Result Bool)
switch err1 err2 bytes_read bytes_read2 =
    if is_eof err1 && is_eof err2
    then some (ok true)
    else if is_eof err1 || is_eof err2
    then some (ok false)
    else elim err1 [
      | some (read_failure e) ↦ some (err e)
      | _ ↦ elim err2 [
        | some (read_failure e) ↦ some (err e)
        | _ ↦ if not (bytes_read == bytes_read2) then some (ok false) else none
      ]
    ]

-- The result of a round in which a read reports an error; the switch then always decides
-- (`switch_decides` below), so that the bytes are not looked at.
abbrev pub stopped : Option (Result Bool) → Text → Text → Result Bool
stopped (some result) s1 s2 = result
stopped none s1 s2 = ok (text_eq s1 s2)

-- Once a read has reported an error the switch of destinationUpToDate always decides, and the
-- numbers of bytes play no part: its last case is never reached.
pub switch_decides :
    (err1 err2 : Option ReadEnd) (n m k l : ℕ)
    → (err1 ≢ none) ⊎ (err2 ≢ none)
    → (switch err1 err2 n m ≢ none) × (switch err1 err2 n m ≡ switch err1 err2 k l)
unfolding switch
switch_decides (some eof) err2 n m k l h = ground arith
switch_decides (some (read_failure e)) err2 n m k l h = ground arith
switch_decides none (some eof) n m k l h = ground arith
switch_decides none (some (read_failure e)) n m k l h = ground arith
switch_decides none none n m k l h = elim h [ inl x ↦ absurd (x refl) | inr x ↦ absurd (x refl) ]

-- The loop. A round in which a read reports an error is the last one.
unfoldable pub compare_reads : Reads → Reads → Result Bool
compare_reads (more s1 reads1) (more s2 reads2) =
    let rest = compare_reads reads1 reads2 in if not (text_eq s1 s2) then ok false else rest
compare_reads (more s1 reads1) (ends s2 end2) =
    stopped (switch none (some end2) (length s1) (length s2)) s1 s2
compare_reads (ends s1 end1) (more s2 reads2) =
    stopped (switch (some end1) none (length s1) (length s2)) s1 s2
compare_reads (ends s1 end1) (ends s2 end2) =
    stopped (switch (some end1) (some end2) (length s1) (length s2)) s1 s2

not_exist : GoError
not_exist = leaf "file does not exist" []

-- Opening both files, once size and mode agree; a source that cannot be opened is fatal.
unfoldable pub compare_files : Os → Files → Text → Text → Node → Node → Result Bool
compare_files os fs src dst f1info f2info = elim (os.open_error fs src) [
  | some e ↦ crash fatal
  | none ↦ elim (os.open_error fs dst) [
    | some e ↦ err e
    | none ↦ compare_reads (os.reads src f1info) (os.reads dst f2info)
  ]
]

unfoldable pub destination_up_to_date : Os → Files → Text → Text → Result Bool
unfolding not_exist
destination_up_to_date os fs src dst = elim (stat os fs src) [
  | stat_missing ↦ err not_exist
  | stat_failure e ↦ err e
  | stat_info f1info ↦ elim (stat os fs dst) [
    | stat_missing ↦ ok false
    | stat_failure e ↦ err e
    | stat_info f2info ↦
        if not (size_of f1info == size_of f2info)
        then ok false
        else if not (same_mode f1info f2info)
        then ok false
        else compare_files os fs src dst f1info f2info
  ]
]
