-- ===== src/Session/Names.antt =====
-- CWD and RNFR: what they find in the file system.
use ftps_server.Base.{
  ◌≡◌, ◌↔◌, refl, ◌⊎◌, inl, inr, [], ◌∷◌, true, false, arith, Bool-cases, ok, err, out_of_range,
  if◌then◌else◌,
}
use ftps_server.Text.{Bytes, codes, equal}
use ftps_server.Command.{Command, get_argument}
use ftps_server.FileSystem.Os.{Os, RefusesEmpty}
use ftps_server.FileSystem.Directory
use ftps_server.FileSystem.FilePath.{
  ends_with_separator, get_canonical_full_path, is_path_rooted, is_path_homed,
}
use ftps_server.FileSystem.Exists.{get_canonical_full_path_cases, file_exists-false}
use ftps_server.Session.State.{Machine, reply, update}
use ftps_server.Session.Folder.{
  substr_two, requested_folder, command_cwd, command_rnfr, below_folder,
}

module _ {F : Type 0} (os : Os F) where
  exists-nil : (f : F) → RefusesEmpty os → Directory.exists os f [] ≡ false
  unfolding Directory.exists
  exists-nil f empty = rw (empty.realpath_empty f, Directory.exists) refl

  pub canonical-ends :
      (f : F) (p c : Bytes)
      → RefusesEmpty os
      → Directory.exists os f (get_canonical_full_path os f p c).1 ≡ true
      → ends_with_separator (get_canonical_full_path os f p c).1 ≡ true
  canonical-ends f p c empty h = elim (get_canonical_full_path_cases os f p c) [
    | inl (_, e) ↦ cc (exists-nil f empty, rw e at h)
    | inr (r, _, inl (_, e, ends)) ↦ rw e ends
    | inr (r, _, inr (d, e)) ↦ cc (d, rw e at h)
  ]

module _ {E F : Type 0} (os : Os F) where
  -- CWD with a path that it can form, where no call takes the empty path: the new folder is the
  -- canonical path of a directory, which ends with the separator; otherwise the session stays as it is.
  pub command_cwd_lem :
      (c : Command) (m : Machine E F) (folder p : Bytes)
      → RefusesEmpty os
      → get_argument c 0 ≡ ok folder
      → requested_folder os m folder ≡ ok p
      → (m' : Machine E F) × (command_cwd os c m ≡ ok m')
        × (((m'.session ≡ m.session)
              × (Directory.exists os m.files (get_canonical_full_path os m.files p []).1 ≡ false))
            ⊎ ((m'.session
                  ≡ record m.session { folder = (get_canonical_full_path os m.files p []).1 })
                × (Directory.exists os m.files m'.folder ≡ true)
                × (ends_with_separator m'.folder ≡ true)))
  unfolding command_cwd
  command_cwd_lem c m folder p empty a r =
      elim (Bool-cases (Directory.exists os m.files (get_canonical_full_path os m.files p []).1)) [
        | inl e ↦ (
          reply (codes "250 CWD command is successful\r\n")
              (update (λ s. record s { folder = (get_canonical_full_path os m.files p []).1 }) m),
          rw (a, r, e) refl,
          inr (refl, e, canonical-ends os m.files p [] empty e),
        )
        | inr e ↦
            (reply (codes "553 CWD folder is not found\r\n") m, rw (a, r, e) refl, inl (refl, e))
      ]

  -- Where no call takes the empty path, RNFR of what is no directory is refused, a regular file too;
  -- the path is remembered all the same.
  pub command_rnfr_lem :
      (c : Command) (m : Machine E F) (p : Bytes)
      → RefusesEmpty os
      → get_argument c 0 ≡ ok p
      → let canonical = (get_canonical_full_path os m.files (below_folder os m p) []).1 in
        command_rnfr os c m
        ≡ ok (
            update
              (λ s. record s { argument = canonical })
              (reply
                (if Directory.exists os m.files canonical
                  then codes "350 Requested file action pending further information\r\n"
                  else codes
                      "500 RNRF command is failure (specified file or directory does not exists)\r\n")
                m))
  unfolding command_rnfr
  command_rnfr_lem c m p empty a =
      let canonical = (get_canonical_full_path os m.files (below_folder os m p) []).1 in
      rw (a, file_exists-false os empty m.files canonical) (ground arith)

  -- The path of CWD throws exactly for the argument `~`, whose rest is taken from its third byte on.
  pub requested_folder-err :
      (m : Machine E F) (folder : Bytes)
      → (requested_folder os m folder ≡ err out_of_range) ↔ (folder ≡ codes "~")
  unfolding requested_folder is_path_rooted is_path_homed substr_two equal
  requested_folder-err m [] = (λ e. cc, λ e. cc)
  requested_folder-err m (x ∷ []) = (λ e. ground arith, λ e. ground arith)
  requested_folder-err m (x ∷ y ∷ ys) = (λ e. ground arith, λ e. cc)
