-- ===== src/State/Bans.antt =====
-- state/server.go: the ban file, and app/app.go: what StartUp and HeadlessStartup do with it. The
-- package encoding/json is a parameter. Stat fails on a missing file only.
pub mod Startup
use vcs_srs_server.Disk.{
  Disk, FileError, FileRead, contents, denied, failed, is_missing, not_exist, read_file, write_file,
}
use vcs_srs_server.State.Server.{BannedClient, BannedState}
use vcs_srs_server.Base.{
  String, ◌≡◌, Bool, true, false, Option, none, some, List, [], Outcome, returns, panics,
  if◌then◌else◌,
}

-- encoding/json on a list of bans.
pub record Json : Type 0 where
  pub encode : List BannedClient → String
  pub decode : String → Option (List BannedClient)

-- Its documented behaviour: what was encoded is decoded.
pub record IsJson (j : Json) : Type 0 where
  pub decode-encode : (bs : List BannedClient) → j.decode (j.encode bs) ≡ some bs

-- The error, if any, and the disk. A file that had to be made still yields the error of Stat.
unfoldable pub ensure_ban_file_exists : String → Disk → Option FileError × Disk
ensure_ban_file_exists file d =
    if is_missing d file
    then elim (write_file d file "") [ none ↦ (some denied, d) | some e ↦ (some not_exist, e) ]
    else (none, d)

module _ (j : Json) where
  pub decoded : String → FileRead → Option BannedState
  decoded file (failed _) = none
  decoded file (contents text) = elim (j.decode text) [
    | none ↦ none
    | some bs ↦ some (record { banned_clients = bs; file = file })
  ]

  -- `none` is an error.
  unfoldable pub get_banned_state : String → Disk → Option BannedState × Disk
  unfolding decoded
  get_banned_state file d =
      let (err, e) = ensure_ban_file_exists file d in
      elim err [ some _ ↦ (none, e) | none ↦ (decoded file (read_file e file), e) ]

  -- BannedState.Save: whether it succeeded, and the disk.
  unfoldable pub save : BannedState → Disk → Bool × Disk
  save b d =
      let (err, e) = ensure_ban_file_exists b.file d in
      elim err [
        | some _ ↦ (false, e)
        | none ↦ elim (write_file e b.file (j.encode b.banned_clients)) [
          | none ↦ (false, e)
          | some e' ↦ (true, e')
        ]
      ]

  -- The bans that the server starts with: on an error an empty list is saved, and a failure to save
  -- it is a panic.
  unfoldable pub start_bans : String → Disk → Outcome BannedState × Disk
  start_bans file d =
      let (loaded, e) = get_banned_state file d in
      let empty : BannedState = record { banned_clients = []; file = "" } in
      let (saved, e') = save empty e in
      elim loaded [
        | some b ↦ (returns b, e)
        | none ↦ if saved then (returns empty, e') else (panics, e')
      ]
