-- ===== src/FileSystem/Os.antt =====
-- The calls of the operating system that file_system.cpp and ftp_session.cpp make.
use ftps_server.Base.{◌≡◌, Bool, List, [], Option, none}
use ftps_server.Text.{Bytes}

-- The type in `st_mode` that `S_ISREG` and `S_ISDIR` test.
pub data FileMode : Type 0 where
  regular directory other : FileMode

-- `none` is the call's failure, which changes nothing.
pub record Os (F : Type 0) : Type 0 where
  pub realpath : F → Bytes → Option Bytes
  pub lstat : F → Bytes → Option FileMode
  -- `opendir`, and the names that `readdir` gives up to the end
  pub readdir : F → Bytes → Option (List Bytes)
  pub rename : F → Bytes → Bytes → Option F
  pub remove : F → Bytes → Option F
  -- an `ifstream` read to its end
  pub read : F → Bytes → Option Bytes
  -- an `ofstream` that truncates, with this content
  pub write : F → Bytes → Bytes → Option F
  -- an `ofstream` opened to append (and the flag `binary`), and one write to it
  pub open_append : F → Bytes → Bool → Option F
  pub append : F → Bytes → Bytes → F

-- POSIX: an empty pathname is not found (ENOENT), and a resolved path has only such a type.
pub record RefusesEmpty {F : Type 0} (os : Os F) : Type 0 where
  pub lstat_empty : (f : F) → os.lstat f [] ≡ none
  pub realpath_empty : (f : F) → os.realpath f [] ≡ none
  pub rename_empty : (f : F) (new : Bytes) → os.rename f [] new ≡ none
  pub remove_empty : (f : F) → os.remove f [] ≡ none
  pub write_empty : (f : F) (content : Bytes) → os.write f [] content ≡ none
