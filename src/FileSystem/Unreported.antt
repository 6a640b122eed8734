-- ===== src/FileSystem/Unreported.antt =====
-- src/file_system.cpp: `file::copy`, `file::move` and `directory::move` report success, whatever happens.
use ftps_server.Base.{◌≡◌, ◌≢◌, refl, ◌⊎◌, inl, inr, Option-cases, [], Option, none, some, ℤ}
use ftps_server.Text.{Bytes}
use ftps_server.Status.{operation_success}
use ftps_server.FileSystem.Os.{Os, RefusesEmpty}
use ftps_server.FileSystem.FilePath.{get_canonical_full_path}
use ftps_server.FileSystem.File.{
  copy, copied, move, move_path, move_directory, or_nothing, after, outcome,
}
use ftps_server.FileSystem.Exists.{file_exists-false, copy_lem}

outcome-after : {F : Type 0} (f : F) (o : Option F) → (outcome f o).1 ≡ after f o
outcome-after f none = refl
outcome-after f (some f') = refl

module _ {F : Type 0} (os : Os F) where
  abbrev canonical : F → Bytes → Bytes
  canonical f p = (get_canonical_full_path os f p []).1

  -- What a copy can do, with the result that it reports.
  abbrev pub CopyOutcome : F → Bytes → Bytes → ℤ × F → Type 0
  CopyOutcome f p1 p2 copied_ =
      let c1 = canonical f p1 in
      let c2 = canonical f p2 in
      ((os.realpath f p2 ≡ none) × (copied_ ≡ (operation_success, f)))
      ⊎ ((c1 ≡ c2) × (copied_ ≡ (operation_success, f)))
      ⊎ ((c1 ≢ c2) × (os.write f c2 [] ≡ none) × (copied_ ≡ (operation_success, f)))
      ⊎ ((c1 ≢ c2)
          × ((emptied : F) × (os.write f c2 [] ≡ some emptied)
              × (copied_ ≡ (
                operation_success,
                after emptied (os.write emptied c2 (or_nothing (os.read emptied c1))),
              ))))

  -- What a move does: it renames, or nothing happens.
  abbrev pub renamed : F → Bytes → Bytes → ℤ × F
  renamed f p1 p2 = (operation_success, after f (os.rename f (canonical f p1) p2))

  module _ (empty : RefusesEmpty os) where
    copied-none : (f : F) (c1 c2 : Bytes) → os.write f c2 [] ≡ none → copied os f c1 c2 ≡ f
    unfolding copied
    copied-none f c1 c2 e = rw (e, copied) refl

    copied-some :
        (f emptied : F) (c1 c2 : Bytes)
        → os.write f c2 [] ≡ some emptied
        → copied os f c1 c2 ≡ after emptied (os.write emptied c2 (or_nothing (os.read emptied c1)))
    unfolding copied
    copied-some f emptied c1 c2 e = rw (e, copied) refl

    copy-CopyOutcome : (f : F) (p1 p2 : Bytes) → CopyOutcome f p1 p2 (copy os f p1 p2)
    copy-CopyOutcome f p1 p2 = elim (copy_lem os empty f p1 p2) [
      | inl gone ↦ inl gone
      | inr (inl same) ↦ inr (inl same)
      | inr (inr (other, did)) ↦ elim (Option-cases (os.write f (canonical f p2) [])) [
        | inl e ↦
            inr
              (inr (inl (other, e, rw (copied-none f (canonical f p1) (canonical f p2) e) at did)))
        | inr (emptied, e) ↦ inr (
            inr (
              inr (
                other,
                (emptied, e, rw (copied-some f emptied (canonical f p1) (canonical f p2) e) at did),
              )))
      ]
    ]

    move-renamed : (f : F) (p1 p2 : Bytes) → move os f p1 p2 ≡ renamed f p1 p2
    unfolding move move_path
    move-renamed f p1 p2 =
        rw (file_exists-false os empty f p1, outcome-after f (os.rename f (canonical f p1) p2)) refl

    move_directory-renamed : (f : F) (p1 p2 : Bytes) → move_directory os f p1 p2 ≡ renamed f p1 p2
    unfolding move_directory move_path
    move_directory-renamed f p1 p2 =
        rw (file_exists-false os empty f p1, outcome-after f (os.rename f (canonical f p1) p2)) refl

    -- Where no call takes the empty path, `file::copy`, `file::move` and `directory::move` report
    -- success in every case. The copy, between different canonical paths, empties the target and then
    -- writes what the source holds behind that, or does nothing where the target does not open; it
    -- does nothing from a path to itself, and writes nothing to a path that does not resolve, such as
    -- that of a file that is still to be made. Both moves rename the canonical path, and say nothing of
    -- a rename that fails.
    pub operations_succeed :
        (f : F) (p1 p2 : Bytes)
        → CopyOutcome f p1 p2 (copy os f p1 p2)
          × (move os f p1 p2 ≡ renamed f p1 p2)
          × (move_directory os f p1 p2 ≡ renamed f p1 p2)
    operations_succeed f p1 p2 =
        (copy-CopyOutcome f p1 p2, move-renamed f p1 p2, move_directory-renamed f p1 p2)
