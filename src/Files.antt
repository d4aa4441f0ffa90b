-- ===== src/Files.antt =====
-- What the nodes use of package os and of encoding/base64: a map from paths to contents. Which
-- paths the process may read and write is a parameter.
use token_go.Base.{
  Bytes, Option, none, some, Bool, true, false, Map, lookup, insert, lookup-insert, ◌≡◌, ◌≢◌, arith,
  if◌then◌else◌,
}

pub record Access : Type 0 where
  pub can_read : Bytes → Bool
  pub can_write : Bytes → Bool

abbrev pub Files : Type 0
Files = Map Bytes

-- `os.ReadFile`; `none` is an error.
unfoldable pub read_file : Access → Bytes → Files → Option Bytes
read_file access path files = if access.can_read path then lookup path files else none

-- `os.WriteFile`; `none` is an error.
unfoldable pub write_file : Access → Bytes → Bytes → Files → Option Files
write_file access path content files =
    if access.can_write path then some (insert path content files) else none

-- `os.Stat` succeeds.
unfoldable pub exists : Bytes → Files → Bool
exists path files = elim (lookup path files) [ none ↦ false | some content ↦ true ]

-- A written file can be read back, and exists; the others are as before.
pub read_file-write_file :
    (access : Access) (path content : Bytes) (files files' : Files)
    → access.can_read path ≡ true
    → write_file access path content files ≡ some files'
    → (read_file access path files' ≡ some content) × (exists path files' ≡ true)
unfolding read_file write_file exists
read_file-write_file access path content files files' r w =
    ground (arith, lookup-insert path path content files)

pub read_file-other :
    (access : Access) (path other content : Bytes) (files files' : Files)
    → path ≢ other
    → write_file access path content files ≡ some files'
    → (read_file access other files' ≡ read_file access other files)
      × (exists other files' ≡ exists other files)
unfolding read_file write_file exists
read_file-other access path other content files files' ne w =
    ground (arith, lookup-insert path other content files)

pub record Base64 : Type 0 where
  pub encode_to_string : Bytes → Bytes
  pub decode_string : Bytes → Option Bytes

pub record Base64Laws (b64 : Base64) : Type 0 where
  pub decode_string-encode_to_string :
      (b : Bytes) → b64.decode_string (b64.encode_to_string b) ≡ some b
