-- ===== src/FileSystem/File.antt =====
-- The class `file`, and the three `move` functions of `path`, `file` and `directory`.
use ftps_server.Base.{Bool, true, false, not, ◌&&◌, [], Option, none, some, if◌then◌else◌, ℤ}
use ftps_server.Text.{Bytes, equal}
use ftps_server.Status.{operation_success, operation_failure, is_true}
use ftps_server.FileSystem.Os.{Os, FileMode, regular, directory, other}
use ftps_server.FileSystem.FilePath.{get_canonical_full_path}

abbrev pub is_regular : Option FileMode → Bool
is_regular none = false
is_regular (some regular) = true
is_regular (some directory) = false
is_regular (some other) = false

-- The state that a call leaves, and its result as `OPERATION_SUCCESS` or `OPERATION_FAILURE`.
abbrev pub outcome {ℓ} : {F : Type ℓ} → F → Option F → ℤ × F
outcome f none = (operation_failure, f)
outcome f (some f') = (operation_success, f')

-- A call whose result is not read.
abbrev pub after {ℓ} : {F : Type ℓ} → F → Option F → F
after f none = f
after f (some f') = f'

abbrev pub or_nothing : Option Bytes → Bytes
or_nothing none = []
or_nothing (some content) = content

module _ {F : Type 0} (os : Os F) where
  -- The target is opened, which empties it, before anything is read from the source.
  unfoldable pub copied : F → Bytes → Bytes → F
  copied f c1 c2 = elim (os.write f c2 []) [
    | none ↦ f
    | some emptied ↦ after emptied (os.write emptied c2 (or_nothing (os.read emptied c1)))
  ]

  -- The condition is the `int` result itself.
  unfoldable pub exists : F → Bytes → Bool
  unfolding get_canonical_full_path
  exists f p =
      let (result, canonical) = get_canonical_full_path os f p [] in
      if is_true result then is_regular (os.lstat f canonical) else false

  unfoldable pub erase : F → Bytes → ℤ × F
  unfolding get_canonical_full_path
  erase f p = outcome f (os.remove f (get_canonical_full_path os f p []).1)

  unfoldable pub copy : F → Bytes → Bytes → ℤ × F
  unfolding exists get_canonical_full_path copied
  copy f p1 p2 =
      let c1 = (get_canonical_full_path os f p1 []).1 in
      let c2 = (get_canonical_full_path os f p2 []).1 in
      if exists f c1 && not (exists f c2)
      then (operation_failure, f)
      else (if equal c1 c2 then (operation_success, f) else (operation_success, copied f c1 c2))

  -- `path::move`
  unfoldable pub move_path : F → Bytes → Bytes → ℤ × F
  unfolding get_canonical_full_path
  move_path f old_path new_path =
      outcome f (os.rename f (get_canonical_full_path os f old_path []).1 new_path)

  -- `file::move`
  unfoldable pub move : F → Bytes → Bytes → ℤ × F
  unfolding exists move_path
  move f p1 p2 =
      if exists f p1 && not (exists f p2)
      then (operation_failure, f)
      else (operation_success, (move_path f p1 p2).1)

  -- `directory::move`
  unfoldable pub move_directory : F → Bytes → Bytes → ℤ × F
  unfolding exists move_path
  move_directory f p1 p2 = (
    if exists f p1 && not (exists f p2) then operation_failure else operation_success,
    (move_path f p1 p2).1,
  )
