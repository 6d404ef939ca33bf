-- ===== src/App/Clients.antt =====
-- app/clients.go: what the window does to clients.
pub mod Bans
pub mod Muting
use vcs_srs_server.State.Server.{BannedClient, ClientState, RadioState}
use vcs_srs_server.State.Bans.{Json, save}
use vcs_srs_server.Disk.{failed}
use vcs_srs_server.Events.{Event, banned_clients_changed, banned_list}
use vcs_srs_server.Utils.Slice.{remove}
use vcs_srs_server.Srs.Checks.{UuidText}
use vcs_srs_server.Srs.Radio.{clients_event, radio_clients_event}
use vcs_srs_server.App.{App, emit_event, notified}
use vcs_srs_server.Base.{
  String, ◌≡◌, ◌↔◌, Bool, true, false, not, ◌&&◌, Option, none, some, List, [], ◌∷◌, ◌++◌, arith,
  eq_iff, Uuid, if◌then◌else◌, Comparable, ◌==◌, nat_eq, string_eq, Map, lookup, insert, delete,
}

abbrev pub bans_event : App → Event
bans_event a = record {
  name = banned_clients_changed;
  payload = banned_list a.state.banned_state.banned_clients;
}

abbrev pub with_bans : List BannedClient → App → App
with_bans bs a = record a {
  state = record a.state { banned_state = record a.state.banned_state { banned_clients = bs } };
}

abbrev pub without_client : Uuid → App → App
without_client i a = record a { state = record a.state { clients = delete i a.state.clients } }

abbrev pub banned_beq : BannedClient → BannedClient → Bool
banned_beq a b =
    a.client_id == b.client_id
    && a.name == b.name
    && a.ip_address == b.ip_address
    && a.reason == b.reason

pub banned_beq_iff : (a b : BannedClient) → (banned_beq a b ≡ true) ↔ (a ≡ b)
banned_beq_iff a b =
    let i = eq_iff a.client_id b.client_id in
    let n = eq_iff a.name b.name in
    let p = eq_iff a.ip_address b.ip_address in
    let r = eq_iff a.reason b.reason in
    (λ h. ground (arith, i, n, p, r), λ h. ground (arith, i, n, p, r))

-- Go compares structs field by field.
instance abbrev pub banned_eq : Comparable BannedClient
banned_eq = record { same = banned_beq; same_iff = banned_beq_iff }

-- The first ban of an identifier.
unfoldable pub find_ban : String → List BannedClient → Option BannedClient
find_ban client_id [] = none
find_ban client_id (b ∷ bs) = if b.client_id == client_id then some b else find_ban client_id bs

abbrev pub ban_of : ClientState → String → String → BannedClient
ban_of c client_id reason = record {
  client_id = client_id;
  name = c.name;
  ip_address = "0.0.0.0";
  reason = reason;
}

unfoldable pub get_banned_clients : App → List BannedClient
get_banned_clients a = a.state.banned_state.banned_clients

module _ (u : UuidText) where
  unfoldable pub get_clients : Map Uuid ClientState → Map String ClientState
  get_clients [] = []
  get_clients ((i, c) ∷ cs) = insert (u.to_string i) c (get_clients cs)

  unfoldable pub get_radio_clients : Map Uuid RadioState → Map String RadioState
  get_radio_clients [] = []
  get_radio_clients ((i, c) ∷ cs) = insert (u.to_string i) c (get_radio_clients cs)

  module _ (j : Json) where
    -- From the known client on.
    unfoldable pub ban_known : String → String → Uuid → ClientState → App → App
    ban_known client_id reason i c a =
        let b =
          with_bans (a.state.banned_state.banned_clients ++ ban_of c client_id reason ∷ []) a in
        let (saved, d) = save j b.state.banned_state b.disk in
        let written = record b { disk = d } in
        let gone = without_client i written in
        if not saved
        then notified "Ban failed" "Failed to save banned clients" "error" written
        else notified "Ban succeeded" "Client banned successfully" "success"
            (emit_event (bans_event gone) (emit_event clients_event gone))

    unfoldable pub ban_client : String → String → App → App
    ban_client client_id reason a = elim (u.parse client_id) [
      | none ↦ notified "Ban failed" "Invalid client ID format" "error" a
      | some i ↦ elim (lookup i a.state.clients) [
        | none ↦ notified "Ban failed" "Client not found" "error" a
        | some c ↦ ban_known client_id reason i c a
      ]
    ]

  unfoldable pub kick_client : String → String → App → App
  kick_client client_id reason a = elim (u.parse client_id) [
    | none ↦ notified "Kick failed" "Invalid client ID format" "error" a
    | some i ↦
        notified "Kick succeeded" "Client kicked successfully" "success"
          (emit_event clients_event (without_client i a))
  ]

  abbrev pub set_muted : Uuid → RadioState → Bool → App → App
  set_muted i r muted a = record a {
    state = record a.state {
      radio_clients = insert i (record r { muted = muted }) a.state.radio_clients;
    };
  }

  unfoldable pub mute_client : String → App → App
  mute_client client_id a = elim (u.parse client_id) [
    | none ↦ notified "Kick failed" "Invalid client ID format" "error" a
    | some i ↦ elim (lookup i a.state.radio_clients) [
      | none ↦ notified "Mute failed" "Client not found" "error" a
      | some r ↦
          notified "Mute succeeded" "Client muted successfully" "success"
            (emit_event radio_clients_event (set_muted i r true a))
    ]
  ]

  unfoldable pub unmute_client : String → App → App
  unmute_client client_id a = elim (u.parse client_id) [
    | none ↦ notified "Kick failed" "Invalid client ID format" "error" a
    | some i ↦ elim (lookup i a.state.radio_clients) [
      | none ↦ notified "Unmute failed" "Client not found" "error" a
      | some r ↦
          notified "Unmute succeeded" "Client unmuted successfully" "success"
            (emit_event radio_clients_event (set_muted i r false a))
    ]
  ]

  unfoldable pub is_client_muted : String → App → Bool × App
  is_client_muted client_id a =
      let failed =
        notified "Check Mute Status Failed" "Failed to check if client is muted or not" "error" a in
      elim (u.parse client_id) [
        | none ↦ (false, failed)
        | some i ↦ elim (lookup i a.state.radio_clients) [
          | none ↦ (false, failed)
          | some r ↦ (r.muted, a)
        ]
      ]

module _ (j : Json) where
  unfoldable pub unban_client : String → App → App
  unban_client client_id a = elim (find_ban client_id a.state.banned_state.banned_clients) [
    | none ↦ notified "Unban failed" "Client not found" "error" a
    | some ban ↦
        let b = with_bans (remove a.state.banned_state.banned_clients ban) a in
        let (saved, d) = save j b.state.banned_state b.disk in
        let written = record b { disk = d } in
        if not saved
        then notified "Unban failed" "Failed to save banned clients" "error" written
        else notified "Unban succeeded" "Client successfully unbanned" "success"
            (emit_event (bans_event written) written)
  ]
