-- ===== src/FileSystem/Lawful.antt =====
-- What POSIX says of the content of files, as far as a session relies on it.
use ftps_server.Base.{◌≡◌, Bool, Option, none, some, ◌++◌}
use ftps_server.Text.{Bytes}
use ftps_server.FileSystem.Os.{Os}
use ftps_server.FileSystem.File.{or_nothing}

-- `content` is what the file that a path leads to holds, `none` if there is none.
pub record IsLawful {F : Type 0} (os : Os F) : Type 0 where
  pub content : F → Bytes → Option Bytes
  -- opened to append, a file keeps its content, and a new one is empty
  pub content-open_append :
      (f : F) (p : Bytes) (binary : Bool) {f' : F}
      → os.open_append f p binary ≡ some f'
      → content f' p ≡ some (or_nothing (content f p))
  pub content-append :
      (f : F) (p old chunk : Bytes)
      → content f p ≡ some old
      → content (os.append f p chunk) p ≡ some (old ++ chunk)
  pub content-rename :
      (f : F) (old new : Bytes) {f' : F}
      → os.rename f old new ≡ some f'
      → content f' new ≡ content f old
  -- behind a file taken away, no path that led to it leads to one
  pub content-remove :
      (f : F) (q p : Bytes) {f' : F}
      → os.realpath f q ≡ some p
      → os.remove f p ≡ some f'
      → content f' q ≡ none
  -- a resolved path leads to the same file, and is resolved to itself
  pub content-realpath :
      (f : F) (p : Bytes) {r : Bytes} → os.realpath f p ≡ some r → content f r ≡ content f p
  pub realpath_twice :
      (f : F) (p : Bytes) {r : Bytes} → os.realpath f p ≡ some r → os.realpath f r ≡ some r
