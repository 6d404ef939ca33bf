-- ===== src/App/Clients/Bans.antt =====
-- What a ban, its lifting and a kick do.
use vcs_srs_server.State.Server.{BannedClient, BannedState, ClientState, RadioState}
use vcs_srs_server.State.Bans.{IsJson, Json, get_banned_state, save}
use vcs_srs_server.State.Bans.Startup.{get_banned_state-save}
use vcs_srs_server.Utils.Slice.{remove}
use vcs_srs_server.Utils.Slice.Counts.{count, count-remove, one_if}
use vcs_srs_server.Srs.Checks.{UuidText}
use vcs_srs_server.Srs.Radio.{RadioServer}
use vcs_srs_server.Srs.Sync.{sync_client}
use vcs_srs_server.Srs.Sync.Laws.{sync_client_panics}
use vcs_srs_server.App.{App, emit_event, notified}
use vcs_srs_server.App.Clients.{
  banned_eq, ban_client, ban_known, ban_of, banned_beq, banned_beq_iff, find_ban, kick_client,
  unban_client, with_bans,
}
use vcs_srs_server.Base.{
  ◌+◌, String, ◌≡◌, ap, inl, inr, true, false, none, some, List, [], ◌∷◌, ◌++◌, arith, eq_iff, Uuid,
  panics, if◌then◌else◌, ◌==◌, nat_eq, string_eq, Bool-cases, contains, lookup, lookup-delete,
  map_laws,
}

abbrev pub bans : App → List BannedClient
bans a = a.state.banned_state.banned_clients

abbrev file_of : App → String
file_of a = a.state.banned_state.file

module _ (u : UuidText) (j : Json) (laws : IsJson j) where
  -- A ban of a client on the server, where the ban file can be read and the new list saved, adds that
  -- client to the bans, takes it off the server, and is what the server loads from the ban file at its
  -- next start.
  pub ban_client_lem :
      (client_id reason : String) (i : Uuid) (c : ClientState) (a : App)
      → u.parse client_id ≡ some i
      → lookup i a.state.clients ≡ some c
      → a.disk.read_fails a.state.banned_state.file ≡ false
      → (save j
          (record a.state.banned_state {
            banned_clients = a.state.banned_state.banned_clients ++ ban_of c client_id reason ∷ [];
          })
          a.disk).0
        ≡ true
      → let after = ban_client u j client_id reason a in
        (bans after ≡ bans a ++ ban_of c client_id reason ∷ [])
        × ((k : Uuid)
            → lookup k after.state.clients ≡ (if i == k then none else lookup k a.state.clients))
        × ((get_banned_state j a.state.banned_state.file after.disk).0
            ≡ some after.state.banned_state)
  unfolding ban_client ban_known emit_event notified
  ban_client_lem client_id reason i c a parsed known readable saved =
      let b : BannedState = record a.state.banned_state {
        banned_clients = a.state.banned_state.banned_clients ++ ban_of c client_id reason ∷ [];
      } in
      let loaded : (get_banned_state j b.file (save j b a.disk).1).0 ≡ some b =
        ap (λ p. p.0)
          (get_banned_state-save j laws b a.disk (save j b a.disk).1 readable
            (ground (arith, saved))) in
      (
        ground (arith, parsed, known, saved),
        λ k. grind (map_laws, parsed, known, saved),
        ground (arith, parsed, known, saved, loaded),
      )

module _ (u : UuidText) (j : Json) where
  -- A ban that cannot be saved stays in the list of the running server, but the client stays on it.
  pub ban_client_unsaved :
      (client_id reason : String) (i : Uuid) (c : ClientState) (a : App)
      → u.parse client_id ≡ some i
      → lookup i a.state.clients ≡ some c
      → (save j
          (record a.state.banned_state {
            banned_clients = a.state.banned_state.banned_clients ++ ban_of c client_id reason ∷ [];
          })
          a.disk).0
        ≡ false
      → let after = ban_client u j client_id reason a in
        (bans after ≡ bans a ++ ban_of c client_id reason ∷ [])
        × (after.state.clients ≡ a.state.clients)
  unfolding ban_client ban_known emit_event notified
  ban_client_unsaved client_id reason i c a parsed known unsaved =
      (ground (arith, parsed, known, unsaved), ground (arith, parsed, known, unsaved))

find_ban_lem :
    (client_id : String) (bs : List BannedClient) (b : BannedClient)
    → find_ban client_id bs ≡ some b
    → (b.client_id ≡ client_id) × (contains bs b ≡ true)
unfolding find_ban
find_ban_lem client_id [] b h = absurd (ground arith)
find_ban_lem client_id (x ∷ bs) b h = elim (Bool-cases (x.client_id == client_id)) [
  | inl e ↦
      let same : x ≡ b = ground (arith, e) in
      (ground (arith, same, eq_iff x.client_id client_id), ground (arith, banned_beq_iff x b, same))
  | inr e ↦
      let (q, m) = find_ban_lem client_id bs b (ground (arith, e)) in
      (q, ground (arith, m, Bool-cases (banned_beq x b)))
]

module _ (j : Json) where
  -- Lifting the bans of an identifier lifts one: the list loses one occurrence of the first ban with
  -- that identifier and keeps all other bans as often as it had them, saved or not.
  pub unban_client_lem :
      (client_id : String) (ban x : BannedClient) (a : App)
      → find_ban client_id (bans a) ≡ some ban
      → (ban.client_id ≡ client_id)
        × (count x (bans (unban_client j client_id a)) + one_if x ban ≡ count x (bans a))
  unfolding unban_client emit_event notified
  unban_client_lem client_id ban x a found =
      let (same, held) = find_ban_lem client_id (bans a) ban found in
      let left = with_bans (remove (bans a) ban) a in
      let after : bans (unban_client j client_id a) ≡ remove (bans a) ban =
        ground (arith, found, Bool-cases (save j left.state.banned_state left.disk).0) in
      (same, rw (after) (count-remove (bans a) ban x held))

module _ (u : UuidText) where
  -- A kick takes the client off the server but leaves its radios: in the state that it leaves,
  -- under any settings and subscriptions, SyncClient panics for whoever calls it.
  pub kick_client-sync_client :
      (client_id reason : String) (i : Uuid) (radios : RadioState) (a : App) (r : RadioServer)
      → u.parse client_id ≡ some i
      → lookup i a.state.radio_clients ≡ some radios
      → r.state ≡ (kick_client u client_id reason a).state
      → (lookup i (kick_client u client_id reason a).state.clients ≡ none)
        × ((sync_client u r).0 ≡ panics)
  unfolding kick_client emit_event notified
  kick_client-sync_client client_id reason i radios a r parsed there same =
      let gone = lookup-delete i i a.state.clients in
      (
        ground (arith, parsed, gone),
        sync_client_panics u r i radios (ground (arith, parsed, there, same))
            (ground (arith, parsed, gone, same)),
      )
