-- ===== src/Files/Open.antt =====
-- kernel/src/io/mod.rs: `prepare_file_path`, which takes the driver from an absolute path, and
-- `get_driver_id_by_name` of kernel/src/io/filesystem/mod.rs.
pub mod Named
pub mod Trimmed
use idos_nx.Base.{ℕ, Option, none, some, List, [], ◌∷◌, ltb, if◌then◌else◌, length, drop}
use idos_nx.Base.Results.{Result, ok, err}
use idos_nx.Io.Error.{IoError, not_found}
use idos_nx.Files.Path.{Str, same, is_absolute, split_absolute_path, from_str}

-- The installed drivers, by number, with their names.
abbrev pub Drivers : Type 0
Drivers = List (ℕ × Str)

abbrev pub get_driver_id_by_name : Drivers → Str → Option ℕ
get_driver_id_by_name [] name = none
get_driver_id_by_name ((id, drive_name) ∷ more) name =
    let rest = get_driver_id_by_name more name in if same drive_name name then some id else rest

abbrev pub dev : Str
dev = 68 ∷ 69 ∷ 86 ∷ []

-- The driver of a drive name, or of the device that the path names.
abbrev pub driver_of : Drivers → Str → Str → Option ℕ
driver_of drivers drive_name path_portion =
    if same drive_name dev
    then if ltb 1 (length path_portion)
      then get_driver_id_by_name drivers (drop 1 path_portion)
      else some 0
    else get_driver_id_by_name drivers drive_name

abbrev with_driver : Drivers → Str × Str → Result (ℕ × Str) IoError
with_driver drivers parts = elim (driver_of drivers parts.0 parts.1) [
  | some driver_id ↦ ok (driver_id, from_str parts.1)
  | none ↦ err not_found
]

unfoldable pub prepare_file_path : Drivers → Str → Result (ℕ × Str) IoError
unfolding is_absolute split_absolute_path
prepare_file_path drivers raw_path =
    if is_absolute raw_path
    then elim (split_absolute_path raw_path) [
      | some parts ↦ with_driver drivers parts
      | none ↦ err not_found
    ]
    else err not_found
