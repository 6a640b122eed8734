-- ===== src/FileSystem/Listing/Entries.antt =====
-- What a listing gives back.
use mathlib.Core.List.{Perm}
use ftps_server.Base.{
  ◌≡◌, refl, Bool, List, [], ◌∷◌, arith, some, none, Option-cases, inl, inr, ◌⊎◌, if◌then◌else◌,
}
use ftps_server.Text.{Bytes}
use ftps_server.Status.{operation_success, operation_failure}
use ftps_server.FileSystem.Os.{Os}
use ftps_server.FileSystem.Directory.{FileType}
use ftps_server.FileSystem.FilePath.{get_canonical_full_path}
use ftps_server.FileSystem.Listing.{permitted, is_permitted, get_specify_files}
use ftps_server.FileSystem.Listing.Sorted.{IsSorted, sort-IsSorted, sort-perm}

-- How often a name stands in a list, for the names that a test lets through.
abbrev pub keep {ℓ} : {A : Type ℓ} → (A → Bool) → List A → List A
keep p [] = []
keep p (a ∷ as') = if p a then a ∷ keep p as' else keep p as'

module _ {F : Type 0} (os : Os F) where
  pub permitted-keep :
      (f : F) (canonical pattern_text : Bytes) (t : FileType) (names : List Bytes)
      → permitted os f canonical pattern_text t names
        ≡ keep (is_permitted os f canonical pattern_text t) names
  unfolding permitted
  permitted-keep f canonical pattern_text t [] = refl
  permitted-keep f canonical pattern_text t (name ∷ names) =
      ground (arith, permitted-keep f canonical pattern_text t names)

  -- A listing fails and leaves the list if the directory does not open. Otherwise it gives, in
  -- order, exactly the entries of the directory that have the type and begin with the pattern.
  get_specify_files_lem :
      (f : F) (p pattern_text : Bytes) (t : FileType) (files : List Bytes)
      → let canonical = (get_canonical_full_path os f p []).1 in
        let result = get_specify_files os f p pattern_text t files in
        ((os.readdir f canonical ≡ none) × (result ≡ (operation_failure, files)))
        ⊎ ((names : List Bytes) × (os.readdir f canonical ≡ some names)
            × (result.0 ≡ operation_success)
            × IsSorted result.1
            × Perm result.1 (keep (is_permitted os f canonical pattern_text t) names))
  unfolding get_specify_files
  get_specify_files_lem f p pattern_text t files =
      let canonical = (get_canonical_full_path os f p []).1 in
      elim (Option-cases (os.readdir f canonical)) [
        | inl e ↦ inl (e, rw (e, get_specify_files) refl)
        | inr (names, e) ↦
            let found = permitted os f canonical pattern_text t names in
            inr (
              names,
              e,
              rw (e, get_specify_files) refl,
              rw (e, get_specify_files) (sort-IsSorted found),
              rw (e, get_specify_files, ← permitted-keep f canonical pattern_text t names)
                  (sort-perm found),
            )
      ]
