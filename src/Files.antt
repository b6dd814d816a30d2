-- ===== src/Files.antt =====
-- `FileSystemError` of file_system/src/lib.rs. An `std::io::Error` is read by its kind alone.
use douglas.Paths.{FilePath}
use douglas.Base.{String, Bool, true, false}

pub data IoErrorKind : Type 0 where
  not_found crosses_devices : IoErrorKind
  other : String → IoErrorKind

pub data FileSystemError : Type 0 where
  parent_not_found_error : FilePath → FileSystemError
  io_error : IoErrorKind → FileSystemError
  io_error_at_path : FilePath → IoErrorKind → FileSystemError
  not_found_error : FilePath → FileSystemError
  group_not_found_error : String → FileSystemError
  user_not_found_error : String → FileSystemError
  invalid_file_name_error : String → FileSystemError
  expected_file_error : FileSystemError
  system_error : String → FileSystemError
  non_utf_string : String → FileSystemError
  not_child : FilePath → FilePath → FileSystemError
  expected_normalized_path : FilePath → FileSystemError
  invalid_path : FilePath → FileSystemError

abbrev kind_is_not_found : IoErrorKind → Bool
kind_is_not_found not_found = true
kind_is_not_found _ = false

abbrev kind_is_cross_device : IoErrorKind → Bool
kind_is_cross_device crosses_devices = true
kind_is_cross_device _ = false

unfoldable pub is_not_found : FileSystemError → Bool
is_not_found (not_found_error _) = true
is_not_found (io_error kind) = kind_is_not_found kind
is_not_found (io_error_at_path _ kind) = kind_is_not_found kind
is_not_found _ = false

unfoldable pub is_cross_device : FileSystemError → Bool
is_cross_device (io_error kind) = kind_is_cross_device kind
is_cross_device (io_error_at_path _ kind) = kind_is_cross_device kind
is_cross_device _ = false
