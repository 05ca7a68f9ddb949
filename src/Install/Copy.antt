-- ===== src/Install/Copy.antt =====
-- copyFileAndPermissions: by way of a temporary file, which a rename moves into place.
pub mod Laws
use dynamic_credential_provi.Base.{
  Result, Text, [], codes, crash, err, false, none, ok, some, true, wrap, ◌++◌,
}
use dynamic_credential_provi.Install.Files.{Os, Files}
use dynamic_credential_provi.Install.Compare.{destination_up_to_date}

abbrev pub temporary : Text → Text
temporary dst = dst ++ codes ".tmp"

-- `os.Rename` behind the copy.
unfoldable pub move_into_place : Os → Text → Files → Files × Result (Unit {0})
move_into_place os dst fs =
    let (moved, failure) = os.rename (temporary dst) dst fs in
    elim failure [
      | some e ↦ (moved, err (wrap "failed to rename file: %w" [] e))
      | none ↦ (moved, ok tt)
    ]

unfoldable pub copy_over : Os → Text → Text → Files → Files × Result (Unit {0})
copy_over os src dst fs =
    let (copied, failure) = os.copy src (temporary dst) fs in
    elim failure [
      | some e ↦ (copied, err (wrap "failed to copy file: %w" [] e))
      | none ↦ move_into_place os dst copied
    ]

unfoldable pub copy_file_and_permissions : Os → Text → Text → Files → Files × Result (Unit {0})
copy_file_and_permissions os src dst fs = elim (destination_up_to_date os fs src dst) [
  | err e ↦ (fs, err e)
  | crash c ↦ (fs, crash c)
  | ok true ↦ (fs, ok tt)
  | ok false ↦ copy_over os src dst fs
]
