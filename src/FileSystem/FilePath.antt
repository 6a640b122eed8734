-- ===== src/FileSystem/FilePath.antt =====
-- The class `path`, without `move` (FileSystem/File.antt).
use ftps_server.Base.{Bool, false, [], ◌∷◌, ◌++◌, Option, none, some, if◌then◌else◌, ◌==◌, take, ℤ}
use ftps_server.Text.{Bytes, codes, equal}
use ftps_server.Status.{operation_success, operation_failure}
use ftps_server.FileSystem.Os.{Os}
use ftps_server.FileSystem.Directory.{exists}

-- The last byte is the separator. (`realpath` never resolves to an empty path.)
unfoldable pub ends_with_separator : Bytes → Bool
ends_with_separator [] = false
ends_with_separator (c ∷ []) = c == b'/'
ends_with_separator (c ∷ d ∷ ds) = ends_with_separator (d ∷ ds)

abbrev pub with_separator : Bytes → Bytes
with_separator p = if ends_with_separator p then p else p ++ codes "/"

-- `path.substr(0, 1) == "/"`.
unfoldable pub is_path_rooted : Bytes → Bool
unfolding equal
is_path_rooted p = equal (take 1 p) (codes "/")

unfoldable pub is_path_homed : Bytes → Bool
unfolding equal
is_path_homed p = equal (take 1 p) (codes "~")

-- What follows the first separator, if there is one.
unfoldable pub after_first_separator : Bytes → Option Bytes
after_first_separator [] = none
after_first_separator (c ∷ cs) =
    let rest = after_first_separator cs in if c == b'/' then some cs else rest

module _ {F : Type 0} (os : Os F) where
  -- The result, and what `canonical_path` holds behind the call.
  unfoldable pub get_canonical_full_path : F → Bytes → Bytes → ℤ × Bytes
  unfolding exists ends_with_separator
  get_canonical_full_path f p canonical = elim (os.realpath f p) [
    | none ↦ (operation_failure, [])
    | some resolved ↦
        (operation_success, if exists os f resolved then with_separator resolved else resolved)
  ]

  unfoldable pub get_file_name : F → Bytes → ℤ × Bytes
  unfolding get_canonical_full_path after_first_separator
  get_file_name f p = elim (after_first_separator (get_canonical_full_path f p []).1) [
    | none ↦ (operation_failure, [])
    | some name ↦ (operation_success, name)
  ]
