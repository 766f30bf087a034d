-- ===== src/Build.antt =====
-- Building an artifact: pkg/backend/build.go, pkg/backend/build and pkg/backend/processor. Hooks,
-- which draw the progress bar, and logging are left out.
use modctl.Prelude.{ℕ, Bool, true, false, Option, List, Text}
pub mod Digest
pub mod Fresh
pub mod Digested
pub mod Output
pub mod Config
pub mod Builder
pub mod Process
pub mod Described
pub mod Stored
pub mod Command
mod Samples

-- The bytes of a file or of a blob.
abbrev pub Bytes : Type 0
Bytes = List ℕ

pub data FileKind : Type 0 where
  regular directory symlink other_kind : FileKind

-- What `os.Stat` tells of a file: the time in nanoseconds, the permission bits, and the owner's
-- user and group if the system has them.
pub record FileInfo : Type 0 where
  pub name : Text
  pub perm : ℕ
  pub size : ℕ
  pub mod_time : ℕ
  pub kind : FileKind
  pub owner : Option (ℕ × ℕ)

-- What an `io.Reader` of the codecs still gives: an open file, which can be read again from its
-- start, or a pipe.
pub data Reader : Type 0 where
  file_reader : Bytes → Bytes → Reader
  pipe_reader : Bytes → Reader

unfoldable pub rest_of : Reader → Bytes
rest_of (file_reader whole rest) = rest
rest_of (pipe_reader rest) = rest

-- A reader that a codec has just opened.
abbrev pub opened : Bool → Bytes → Reader
opened true content = file_reader content content
opened false content = pipe_reader content
