-- ===== src/FileSystem/Directory.antt =====
-- The class `directory`: what kind of file a name is. The listing stands in FileSystem/Listing.antt
-- and `move` in FileSystem/File.antt, since they call `path` and `file`.
use ftps_server.Base.{Bool, true, false, none, some}
use ftps_server.Text.{Bytes}
use ftps_server.FileSystem.Os.{Os, FileMode, regular, directory}

pub data FileType : Type 0 where
  file_regular file_directory file_any : FileType

-- The switch of `is_file_type`.
unfoldable pub mode_is : FileMode → FileType → Bool
mode_is regular file_regular = true
mode_is directory file_directory = true
mode_is m file_any = true
mode_is _ _ = false

module _ {F : Type 0} (os : Os F) where
  unfoldable pub is_file_type : F → Bytes → FileType → Bool
  unfolding mode_is
  is_file_type f name t = elim (os.lstat f name) [ none ↦ false | some m ↦ mode_is m t ]

  unfoldable pub exists : F → Bytes → Bool
  unfolding is_file_type
  exists f p = elim (os.realpath f p) [ none ↦ false | some c ↦ is_file_type f c file_directory ]
