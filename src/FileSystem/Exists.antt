-- ===== src/FileSystem/Exists.antt =====
-- What the classes `path` and `file` find, and what follows for `copy` and `erase`.
use ftps_server.Base.{
  ◌≡◌, ◌≢◌, refl, ◌⊎◌, inl, inr, true, false, [], ◌++◌, ◌∷◌, none, some, arith, Option-cases,
  Bool-cases,
}
use ftps_server.Text.{Bytes, codes, equal, equal_iff}
use ftps_server.Status.{operation_success, operation_failure}
use ftps_server.FileSystem.Os.{Os, RefusesEmpty}
use ftps_server.FileSystem.Directory
use ftps_server.FileSystem.FilePath.{ends_with_separator, with_separator, get_canonical_full_path}
use ftps_server.FileSystem.File.{exists, copy, copied}

ends_with_separator-append : (p : Bytes) → ends_with_separator (p ++ codes "/") ≡ true
unfolding ends_with_separator
ends_with_separator-append [] = refl
ends_with_separator-append (c ∷ []) = refl
ends_with_separator-append (c ∷ d ∷ ds) = ends_with_separator-append (d ∷ ds)

pub with_separator-ends : (p : Bytes) → ends_with_separator (with_separator p) ≡ true
with_separator-ends p = elim (Bool-cases (ends_with_separator p)) [
  | inl e ↦ rw e e
  | inr e ↦ rw e (ends_with_separator-append p)
]

module _ {F : Type 0} (os : Os F) where
  -- A path that does not resolve fails and clears the result.
  pub canonical-none :
      (f : F) (p c : Bytes)
      → os.realpath f p ≡ none
      → get_canonical_full_path os f p c ≡ (operation_failure, [])
  unfolding get_canonical_full_path
  canonical-none f p c e = rw (e, get_canonical_full_path) refl

  -- The canonical path succeeds exactly where the system resolves the path; that of a directory
  -- ends with the separator, any other is the resolved path, and a failure clears the result.
  pub get_canonical_full_path_cases :
      (f : F) (p c : Bytes)
      → ((os.realpath f p ≡ none) × (get_canonical_full_path os f p c ≡ (operation_failure, [])))
        ⊎ ((r : Bytes) × (os.realpath f p ≡ some r)
            × (((Directory.exists os f r ≡ true)
                  × (get_canonical_full_path os f p c ≡ (operation_success, with_separator r))
                  × (ends_with_separator (with_separator r) ≡ true))
                ⊎ ((Directory.exists os f r ≡ false)
                    × (get_canonical_full_path os f p c ≡ (operation_success, r)))))
  unfolding get_canonical_full_path
  get_canonical_full_path_cases f p c = elim (Option-cases (os.realpath f p)) [
    | inl e ↦ inl (e, rw (e, get_canonical_full_path) refl)
    | inr (r, e) ↦ elim (Bool-cases (Directory.exists os f r)) [
      | inl d ↦ inr (r, e, inl (d, rw (e, get_canonical_full_path, d) refl, with_separator-ends r))
      | inr d ↦ inr (r, e, inr (d, rw (e, get_canonical_full_path, d) refl))
    ]
  ]

  module _ (empty : RefusesEmpty os) where
    -- Where no call takes the empty path, `file::exists` holds of no path, since it looks at the result
    -- of the resolution the wrong way round: it goes on only where the path did not resolve.
    pub file_exists-false : (f : F) (p : Bytes) → exists os f p ≡ false
    unfolding exists
    file_exists-false f p = elim (Option-cases (os.realpath f p)) [
      | inl e ↦ rw (canonical-none f p [] e) (rw (empty.lstat_empty f) refl)
      | inr (r, e) ↦ rw (e, get_canonical_full_path) refl
    ]

    -- Where no call takes the empty path, `file::copy` always reports success: between different
    -- canonical paths it empties the target and then writes what it reads, or nothing to a path that does not resolve, and from a
    -- path to itself it does nothing.
    pub copy_lem :
        (f : F) (p1 p2 : Bytes)
        → let c1 = (get_canonical_full_path os f p1 []).1 in
          let c2 = (get_canonical_full_path os f p2 []).1 in
          ((os.realpath f p2 ≡ none) × (copy os f p1 p2 ≡ (operation_success, f)))
          ⊎ ((c1 ≡ c2) × (copy os f p1 p2 ≡ (operation_success, f)))
          ⊎ ((c1 ≢ c2) × (copy os f p1 p2 ≡ (operation_success, copied os f c1 c2)))
    unfolding copy copied
    copy_lem f p1 p2 =
        let c1 = (get_canonical_full_path os f p1 []).1 in
        let c2 = (get_canonical_full_path os f p2 []).1 in
        let none_exists = file_exists-false f c1 in
        let to_nothing = empty.write_empty f [] in
        elim (Option-cases (os.realpath f p2)) [
          | inl e ↦ inl (e, ground (arith, none_exists, to_nothing, canonical-none f p2 [] e))
          | inr (r, e) ↦ elim (Bool-cases (equal c1 c2)) [
            | inl same ↦ inr (inl ((equal_iff c1 c2).0 same, ground (arith, none_exists)))
            | inr other ↦
                inr (inr ((λ e'. ground (arith, equal_iff c1 c2)), ground (arith, none_exists)))
          ]
        ]
