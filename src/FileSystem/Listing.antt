-- ===== src/FileSystem/Listing.antt =====
-- The class `directory`: the listing of a directory.
pub mod Sorted
pub mod Entries
use ftps_server.Base.{
  ℕ, Bool, true, false, ◌&&◌, List, [], ◌∷◌, ◌++◌, Option, none, some, if◌then◌else◌, ltb, ◌==◌,
  take, length, ℤ,
}
use ftps_server.Text.{Bytes, equal, is_empty}
use ftps_server.Status.{operation_success, operation_failure}
use ftps_server.FileSystem.Os.{Os}
use ftps_server.FileSystem.Directory.{FileType, file_directory, file_any, is_file_type}
use ftps_server.FileSystem.FilePath.{get_canonical_full_path}

-- `std::string::operator<`, by unsigned bytes.
unfoldable pub less : Bytes → Bytes → Bool
less [] [] = false
less [] (y ∷ ys) = true
less (x ∷ xs) [] = false
less (x ∷ xs) (y ∷ ys) = if x == y then less xs ys else ltb x y

-- `std::sort`: any sort by `less` gives this list, since texts that are not less are equal.
unfoldable pub insert : Bytes → List Bytes → List Bytes
unfolding less
insert a [] = a ∷ []
insert a (b ∷ bs) = if less b a then b ∷ insert a bs else a ∷ b ∷ bs

unfoldable pub sort : List Bytes → List Bytes
unfolding insert
sort [] = []
sort (a ∷ as') = insert a (sort as')

unfoldable pub is_file_pattern : Bytes → Bytes → Bool
unfolding equal
is_file_pattern name pattern_text =
    if ltb (length name) (length pattern_text)
    then false
    else equal (take (length pattern_text) name) pattern_text

module _ {F : Type 0} (os : Os F) where
  -- The test of the loop over the entries of `canonical`.
  unfoldable pub is_permitted : F → Bytes → Bytes → FileType → Bytes → Bool
  unfolding is_file_type is_file_pattern
  is_permitted f canonical pattern_text t name =
      is_file_type os f (canonical ++ name) t
      && (if is_empty pattern_text then true else is_file_pattern name pattern_text)

  unfoldable pub permitted : F → Bytes → Bytes → FileType → List Bytes → List Bytes
  unfolding is_permitted
  permitted f canonical pattern_text t [] = []
  permitted f canonical pattern_text t (name ∷ names) =
      let rest = permitted f canonical pattern_text t names in
      if is_permitted f canonical pattern_text t name then name ∷ rest else rest

  -- The list that `files` holds behind the call; it stays if the directory does not open.
  unfoldable pub get_specify_files : F → Bytes → Bytes → FileType → List Bytes → ℤ × List Bytes
  get_specify_files f p pattern_text t files =
      let canonical = (get_canonical_full_path os f p []).1 in
      elim (os.readdir f canonical) [
        | none ↦ (operation_failure, files)
        | some names ↦ (operation_success, sort (permitted f canonical pattern_text t names))
      ]

  abbrev pub get_files : F → Bytes → List Bytes → ℤ × List Bytes
  get_files f p files = get_specify_files f p [] file_any files

  abbrev pub get_files_like : F → Bytes → Bytes → List Bytes → ℤ × List Bytes
  get_files_like f p pattern_text files = get_specify_files f p pattern_text file_any files

  abbrev pub get_directories : F → Bytes → List Bytes → ℤ × List Bytes
  get_directories f p files = get_specify_files f p [] file_directory files

  abbrev pub get_directories_like : F → Bytes → Bytes → List Bytes → ℤ × List Bytes
  get_directories_like f p pattern_text files =
      get_specify_files f p pattern_text file_directory files
