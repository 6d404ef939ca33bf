-- ===== src/Disk.antt =====
-- The package os, as the sources use it: files are texts under their paths. Which paths the system
-- refuses to read or to write is given with the disk. The empty path names no file.

use vcs_srs_server.Base.{
  String, ◌≡◌, Bool, true, false, ◌||◌, Option, none, some, if◌then◌else◌, ◌==◌, nat_eq, string_eq,
  Map, lookup, insert, map_laws,
}

pub record Disk : Type 0 where
  pub files : Map String String
  pub read_fails : String → Bool
  pub write_fails : String → Bool

pub data FileError : Type 0 where
  not_exist denied : FileError

pub data FileRead : Type 0 where
  contents : String → FileRead
  failed : FileError → FileRead

-- os.ReadFile, and os.Open with a read of the whole file.
unfoldable pub read_file : Disk → String → FileRead
read_file d f = elim (lookup f d.files) [
  | none ↦ failed not_exist
  | some text ↦ if d.read_fails f then failed denied else contents text
]

-- os.Stat answers os.IsNotExist.
unfoldable pub is_missing : Disk → String → Bool
is_missing d f = elim (lookup f d.files) [ none ↦ true | some _ ↦ false ]

-- os.WriteFile, and os.Create with the empty text. A failure leaves the disk as it was.
unfoldable pub write_file : Disk → String → String → Option Disk
write_file d f text =
    if f == "" || d.write_fails f then none else some (record d { files = insert f text d.files })

pub read_file-write_file :
    (d e : Disk) (f text : String)
    → d.read_fails f ≡ false
    → write_file d f text ≡ some e
    → read_file e f ≡ contents text
unfolding read_file write_file
read_file-write_file d e f text r w = grind map_laws
