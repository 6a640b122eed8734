-- ===== src/Tests/Files.antt =====
-- The file system.

use ftps_server.Base.{◌≡◌, false}
use ftps_server.Text.{Bytes, codes, equal}
use ftps_server.Status.{operation_success}
use ftps_server.FileSystem.FilePath.{get_canonical_full_path}
use ftps_server.FileSystem.File
use ftps_server.FileSystem.File.{or_nothing, after}
use ftps_server.FileSystem.Exists.{file_exists-false}
use ftps_server.FileSystem.Unreported.{CopyOutcome, operations_succeed}
use ftps_server.Tests.Samples.{sample_os, sample_os-RefusesEmpty, sample_files}

abbrev home : Bytes
home = codes "/home"

file_exists-false_example : File.exists sample_os sample_files (codes "/home/a") ≡ false
file_exists-false_example =
    file_exists-false sample_os sample_os-RefusesEmpty sample_files (codes "/home/a")

-- A move of a file that is not there.
operations_succeed_example :
    CopyOutcome sample_os sample_files
      (codes "/home/c")
      (codes "/home/a")
      (File.copy sample_os sample_files (codes "/home/c") (codes "/home/a"))
    × (File.move sample_os sample_files (codes "/home/c") (codes "/home/a")
        ≡ (operation_success, sample_files))
    × (File.move_directory sample_os sample_files (codes "/home/c") (codes "/home/a")
        ≡ (operation_success, sample_files))
unfolding get_canonical_full_path equal
operations_succeed_example =
    operations_succeed sample_os sample_os-RefusesEmpty sample_files (codes "/home/c")
      (codes "/home/a")
