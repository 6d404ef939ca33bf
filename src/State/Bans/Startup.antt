-- ===== src/State/Bans/Startup.antt =====
-- Which ban files the server starts from.
use vcs_srs_server.Disk.{Disk, is_missing, read_file, write_file}
use vcs_srs_server.State.Server.{BannedState}
use vcs_srs_server.State.Bans.{
  IsJson, Json, ensure_ban_file_exists, get_banned_state, save, start_bans,
}
use vcs_srs_server.Base.{
  String, ◌≡◌, ◌≢◌, ◌↔◌, inl, inr, true, false, none, some, [], arith, eq_iff, returns, panics,
  nat_eq, string_eq, Option-cases, lookup, insert, map_laws,
}

module _ (j : Json) (laws : IsJson j) where
  -- A ban list that was saved to a readable file is loaded from it as it was.
  pub get_banned_state-save :
      (b : BannedState) (d e : Disk)
      → d.read_fails b.file ≡ false
      → save j b d ≡ (true, e)
      → get_banned_state j b.file e ≡ (some b, e)
  unfolding save get_banned_state ensure_ban_file_exists is_missing write_file read_file
  get_banned_state-save b d e readable h = grind (map_laws, laws.decode-encode b.banned_clients)

module _ (j : Json) where
  -- The fallback writes to the empty path, which names no file.
  save_nowhere : (d : Disk) → save j (record { banned_clients = []; file = "" }) d ≡ (false, d)
  unfolding save ensure_ban_file_exists is_missing write_file
  save_nowhere d = ground (arith, eq_iff "" "")

  start_loaded :
      (file : String) (d : Disk) (b : BannedState)
      → (start_bans j file d).0 ≡ returns b
      → (get_banned_state j file d).0 ≡ some b
  unfolding start_bans
  start_loaded file d b h = ground (arith, save_nowhere (get_banned_state j file d).1)

  loaded_file :
      (file : String) (d : Disk) (b : BannedState)
      → (get_banned_state j file d).0 ≡ some b
      → (text : String) × (lookup file d.files ≡ some text)
        × (d.read_fails file ≡ false)
        × (j.decode text ≡ some b.banned_clients)
        × (b.file ≡ file)
  unfolding get_banned_state ensure_ban_file_exists is_missing read_file
  loaded_file file d b h = elim (Option-cases (lookup file d.files)) [
    | inl p ↦ absurd (ground (arith, Option-cases (write_file d file "")))
    | inr (text, p) ↦ (text, p, ground arith, ground arith, ground arith)
  ]

  -- The server starts with a list of bans exactly where the ban file exists, can be read and holds
  -- that list, and the list keeps the path of the file.
  pub start_bans_iff :
      (file : String) (d : Disk) (b : BannedState)
      → ((start_bans j file d).0 ≡ returns b) ↔ (
          (text : String) × (lookup file d.files ≡ some text)
          × (d.read_fails file ≡ false)
          × (j.decode text ≡ some b.banned_clients)
          × (b.file ≡ file))
  unfolding start_bans get_banned_state ensure_ban_file_exists is_missing read_file
  start_bans_iff file d b =
      (λ h. loaded_file file d b (start_loaded file d b h), λ (text, p, q, r, t). ground arith)

  -- On a first start, with no ban file, the server makes an empty one and panics.
  pub start_bans_first :
      (file : String) (d : Disk)
      → lookup file d.files ≡ none
      → d.write_fails file ≡ false
      → file ≢ ""
      → ((start_bans j file d).0 ≡ panics) × (lookup file (start_bans j file d).1.files ≡ some "")
  unfolding start_bans get_banned_state ensure_ban_file_exists is_missing write_file
  start_bans_first file d absent writable named =
      let made : Disk = record d { files = insert file "" d.files } in
      grind (map_laws, save_nowhere made)
