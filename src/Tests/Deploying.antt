-- ===== src/Tests/Deploying.antt =====
-- A whole installation.
use dynamic_credential_provi.Base.{
  GoError, In, List, Text, [], ap, codes, err, false, has_prefix, inl, inr, none, ok, refl, some,
  subst, sym, text_eq, text_eq→ne, true, ◌++◌, ◌∷◌, ◌≡◌, ◌≢◌,
}
use dynamic_credential_provi.Install.Files.{file, more, ends, eof, File, Files, IsOutside}
use dynamic_credential_provi.Tests.Installing.{
  disk-IsLawful, copy_node, disk, rename_node, updating, read_node, update, tool, initial_files,
  append_nil,
}
use dynamic_credential_provi.Install.Copy.{
  copy_file_and_permissions, move_into_place, temporary, copy_over,
}
use dynamic_credential_provi.Install.Whole.{IsApart, install-done}
use dynamic_credential_provi.Install.Compare.{
  switch, destination_up_to_date, compare_files, compare_reads,
}
use dynamic_credential_provi.Install.Run.{
  skip_binary, install, file_exists, install_binaries, source_of, install_binary, ensure_dir_exists,
  target_of,
}
use dynamic_credential_provi.Install.Again.{install-again, IsSettled}
use dynamic_credential_provi.Install.Atomic.{OldOrNew, install-OldOrNew}

abbrev both_names : List Text
both_names = codes "a" ∷ codes "b" ∷ []

-- What holds of both names holds of each of them.
each_name : (P : Text → Type 0) → P (codes "a") → P (codes "b") → (x : Text) → In x both_names → P x
each_name P p q x (inl e) = subst P (sym e) p
each_name P p q x (inr (inl e)) = subst P (sym e) q
each_name P p q x (inr (inr i)) = absurd i

abbrev Apart : Text → Text → Type 0
Apart p target = IsOutside p target × IsOutside p (temporary target)

differ :
    (p target : Text)
    → text_eq p target ≡ false
    → text_eq p (temporary target) ≡ false
    → has_prefix p (target ++ codes "/") ≡ false
    → has_prefix p (temporary target ++ codes "/") ≡ false
    → Apart p target
differ p target e f g h = ((text_eq→ne p target e, g), (text_eq→ne p (temporary target) f, h))

apart : IsApart disk (updating true []) both_names
unfolding disk text_eq has_prefix
apart = record {
  distinct = ((text_eq→ne (codes "a") (codes "b") refl, tt), (tt, tt));
  sources = λ b d i j.
      each_name
        (λ b. Apart (source_of disk (updating true []) b) (target_of disk (updating true []) d))
        (each_name (λ d. Apart (codes "s/a") (target_of disk (updating true []) d))
          (differ (codes "s/a") (codes "t/a") refl refl refl refl)
          (differ (codes "s/a") (codes "t/b") refl refl refl refl) d j)
        (each_name (λ d. Apart (codes "s/b") (target_of disk (updating true []) d))
          (differ (codes "s/b") (codes "t/a") refl refl refl refl)
          (differ (codes "s/b") (codes "t/b") refl refl refl refl) d j)
        b i;
  targets = λ b d i j.
      each_name
        (λ b.
          b ≢ d → Apart (target_of disk (updating true []) b) (target_of disk (updating true []) d))
        (each_name (λ d. codes "a" ≢ d → Apart (codes "t/a") (target_of disk (updating true []) d))
          (λ n. absurd (n refl)) (λ n. differ (codes "t/a") (codes "t/b") refl refl refl refl) d j)
        (each_name (λ d. codes "b" ≢ d → Apart (codes "t/b") (target_of disk (updating true []) d))
          (λ n. differ (codes "t/b") (codes "t/a") refl refl refl refl) (λ n. absurd (n refl)) d j)
        b i;
  unprobed =
      each_name (λ b. source_of disk (updating true []) b ≢ disk.probe (codes "t"))
        (text_eq→ne (codes "s/a") (codes "t/.touch") refl)
        (text_eq→ne (codes "s/b") (codes "t/.touch") refl);
}

targets_unprobed :
    (b : Text) → In b both_names → target_of disk (updating true []) b ≢ disk.probe (codes "t")
unfolding disk text_eq
targets_unprobed =
    each_name (λ b. target_of disk (updating true []) b ≢ disk.probe (codes "t"))
      (text_eq→ne (codes "t/a") (codes "t/.touch") refl)
      (text_eq→ne (codes "t/b") (codes "t/.touch") refl)

install-done_example :
    (install disk (inr (updating true [])) initial_files).0 (codes "t/b") ≡ some (file tool)
unfolding initial_files update disk install ensure_dir_exists install_binaries install_binary
    skip_binary file_exists copy_file_and_permissions copy_over move_into_place copy_node
    rename_node destination_up_to_date compare_files compare_reads text_eq switch read_node
install-done_example =
    install-done disk disk-IsLawful (updating true []) (λ dir p fs f e. e) initial_files both_names
      refl apart refl refl (codes "b") (inr (inl refl)) refl tool refl

abbrev deployed : Files
deployed = (install disk (inr (updating true [])) initial_files).0

deployed-IsSettled : IsSettled disk (updating true []) both_names deployed
unfolding disk read_node
deployed-IsSettled = record {
  rereads = λ p q f e h. (
    more f.content (ends [] eof),
    record {
      holds = e;
      stats = refl;
      opens = refl;
      reads_as = refl;
      whole = ap some (append_nil f.content);
    },
    record {
      holds = h;
      stats = refl;
      opens = refl;
      reads_as = refl;
      whole = ap some (append_nil f.content);
    },
  );
  made = refl;
  writeable = refl;
  listed = refl;
}

install-again_example :
    ((install disk (inr (updating true [])) deployed).1 ≡ ok tt)
    × ((install disk (inr (updating true [])) deployed).0 (codes "t/b") ≡ deployed (codes "t/b"))
unfolding initial_files update disk install ensure_dir_exists install_binaries install_binary
    skip_binary file_exists copy_file_and_permissions copy_over move_into_place copy_node
    rename_node destination_up_to_date compare_files compare_reads text_eq switch read_node
install-again_example =
    install-again disk (updating true []) disk-IsLawful (λ dir p fs f e. e) initial_files both_names
      refl apart targets_unprobed refl
      (each_name
        (λ b.
          skip_binary (updating true []) b ≡ false
          → (f : File) × (initial_files (source_of disk (updating true []) b) ≡ some (file f)))
        (λ s. (tool, refl)) (λ s. (tool, refl)))
      refl deployed-IsSettled (codes "t/b") (text_eq→ne (codes "t/b") (codes "t/.touch") refl)

-- The binary `b` is gone, although its directory still lists it, and the installation fails there.
half_files : Files
unfolding update
half_files = update (codes "s/b") none initial_files

half_fails : (e : GoError) × ((install disk (inr (updating true [])) half_files).1 ≡ err e)
unfolding half_files initial_files update disk install ensure_dir_exists install_binaries
    install_binary skip_binary file_exists copy_file_and_permissions copy_over move_into_place
    copy_node rename_node destination_up_to_date compare_files compare_reads text_eq switch
    read_node
half_fails = (_, refl)

install-OldOrNew_example :
    OldOrNew
      (disk.mkdir_all (codes "t") half_files).0
      (install disk (inr (updating true [])) half_files).0
      (codes "t/a")
      tool
unfolding disk half_files initial_files update text_eq
install-OldOrNew_example =
    install-OldOrNew disk disk-IsLawful (updating true []) (λ dir p fs f e. e) half_files both_names
      refl apart (codes "a") (inl refl) tool refl (targets_unprobed (codes "a") (inl refl))
