-- ===== src/App/Clients/Muting.antt =====
-- Muting and unmuting.
use vcs_srs_server.State.Server.{RadioState}
use vcs_srs_server.Srs.Checks.{UuidText}
use vcs_srs_server.App.{App, emit_event, notified}
use vcs_srs_server.App.Clients.{is_client_muted, mute_client, unmute_client}
use vcs_srs_server.Base.{
  String, ◌≡◌, true, false, some, arith, Uuid, if◌then◌else◌, ◌==◌, nat_eq, string_eq, lookup,
  lookup-insert,
}

module _ (u : UuidText) where
  -- Of a client with radios, IsClientMuted answers true after MuteClient and false after
  -- UnmuteClient, whatever came before; the radios themselves, the radios of all others and all
  -- client states are as they were.
  pub mute_client_lem :
      (client_id : String) (i k : Uuid) (radios : RadioState) (a : App)
      → u.parse client_id ≡ some i
      → lookup i a.state.radio_clients ≡ some radios
      → let muted = mute_client u client_id a in
        let unmuted = unmute_client u client_id a in
        ((is_client_muted u client_id muted).0 ≡ true)
        × ((is_client_muted u client_id unmuted).0 ≡ false)
        × (lookup k muted.state.radio_clients ≡ (
            if i == k
            then some (record radios { muted = true })
            else lookup k a.state.radio_clients))
        × (lookup k unmuted.state.radio_clients ≡ (
            if i == k
            then some (record radios { muted = false })
            else lookup k a.state.radio_clients))
        × (muted.state.clients ≡ a.state.clients)
        × (unmuted.state.clients ≡ a.state.clients)
  unfolding mute_client unmute_client is_client_muted emit_event notified
  mute_client_lem client_id i k radios a parsed there =
      let on =
        λ (n : Uuid). lookup-insert i n (record radios { muted = true }) a.state.radio_clients in
      let off =
        λ (n : Uuid). lookup-insert i n (record radios { muted = false }) a.state.radio_clients in
      (
        ground (arith, parsed, there, on i),
        ground (arith, parsed, there, off i),
        ground (arith, parsed, there, on k),
        ground (arith, parsed, there, off k),
        ground (arith, parsed, there),
        ground (arith, parsed, there),
      )
