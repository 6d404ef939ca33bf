-- ===== src/Srs/Updates.antt =====
-- srs/srs_service.go: what a client changes of its own state, and its subscription.
pub mod Laws
use Prim.Native.String.{◌++◌ as str_append}
use vcs_srs_server.State.Server.{ClientState}
use vcs_srs_server.State.Settings.{Coalition, SettingsState, does_coalition_exist}
use vcs_srs_server.Srs.Checks.{
  RadioInfo, UuidText, can_swap_roles, check_unit_id, check_username, convert_radio_info,
}
use vcs_srs_server.Srs.Radio.{
  RadioServer, ServerResponse, Stream, accepted, clients_event, published, radio_clients_event,
  refused,
}
use vcs_srs_server.Base.{
  ℕ, ◌-◌, ◌%◌, String, Bool, true, false, not, Option, none, some, List, [], ◌∷◌, ◌++◌, Uuid, Time,
  Outcome, returns, panics, if◌then◌else◌, nat_eq, string_eq, lookup, insert,
}

-- The message ClientInfo of srs.proto, as a client sends it.
pub record ClientUpdate : Type 0 where
  pub name : String
  pub coalition : String
  pub unit_id : String
  pub role_id : ℕ

-- uint8(x)
abbrev pub uint8 : ℕ → ℕ
uint8 x = x % 256

-- A field that passes its check is written, another is reported.
abbrev pub checked :
    Bool
    → (ClientState → ClientState)
    → String
    → ClientState × List String
    → ClientState × List String
checked ok write report (c, errors) = if ok then (write c, errors) else (c, errors ++ report ∷ [])

unfoldable pub update_client :
    ClientUpdate → SettingsState → Time → ClientState → ClientState × List String
update_client req settings now c =
    let named =
      checked (check_username req.name) (λ d. record d { name = req.name })
        "Invalid username. It must be between 1 and 32 characters long." (c, []) in
    let placed =
      checked (check_unit_id req.unit_id) (λ d. record d { unit_id = req.unit_id })
        "Invalid unit ID. It must be 2 to 4 uppercase alphanumeric characters." named in
    let sided =
      checked (does_coalition_exist req.coalition settings)
        (λ d. record d { coalition = req.coalition })
        "Coalition not found, please select an existing coalition." placed in
    let (d, errors) =
      checked (can_swap_roles sided.0 (uint8 req.role_id))
        (λ d. record d { role = uint8 req.role_id })
        "You cannot swap roles. Please contact an administrator if you need a different role."
        sided in
    (record d { last_update = now }, errors)

-- strings.Join(errors, "\n - ")
unfoldable pub joined : List String → String
joined [] = ""
joined (x ∷ []) = x
joined (x ∷ y ∷ ys) = str_append x (str_append "\n - " (joined (y ∷ ys)))

unfoldable pub answer :
    Uuid → ClientState × List String → RadioServer → ServerResponse × RadioServer
answer i (c, []) r = (
  accepted,
  published clients_event
      (record r { state = record r.state { clients = insert i c r.state.clients } }),
)
answer i (c, e ∷ es) r = (
  refused (str_append "Errors occurred while updating client info: \n - " (joined (e ∷ es))),
  record r { state = record r.state { clients = insert i c r.state.clients } },
)

module _ (u : UuidText) where
  unfoldable pub update_client_info :
      Option String → ClientUpdate → Time → RadioServer → Outcome ServerResponse × RadioServer
  unfolding update_client answer
  update_client_info none req now r = (panics, r)
  update_client_info (some client_id) req now r = elim (u.parse client_id) [
    | none ↦ (returns (refused "Internal error, please try logging in again."), r)
    | some i ↦ elim (lookup i r.state.clients) [
      | none ↦ (returns (refused "Internal error: You may already have been disconnected."), r)
      | some c ↦
          let (response, r') = answer i (update_client req r.settings now c) r in
          (returns response, r')
    ]
  ]

  unfoldable pub update_radio_info :
      Option String → RadioInfo → RadioServer → Outcome ServerResponse × RadioServer
  update_radio_info none req r = (panics, r)
  update_radio_info (some client_id) req r = elim (u.parse client_id) [
    | none ↦ (returns (refused "Internal error, please try logging in again."), r)
    | some i ↦ elim (lookup i r.state.radio_clients) [
      | none ↦ (
        returns (
            refused
              "Internal error: We could not find your Radios...\n Please try logging in again."),
        r,
      )
      | some _ ↦ (
        returns accepted,
        published radio_clients_event (record r {
          state = record r.state {
            radio_clients = insert i (convert_radio_info req) r.state.radio_clients;
          };
        }),
      )
    ]
  ]

  -- Whether the call ends with no error.
  unfoldable pub subscribe_to_updates :
      Option String → Stream → RadioServer → Outcome Bool × RadioServer
  subscribe_to_updates none stream r = (panics, r)
  subscribe_to_updates (some client_id) stream r = elim (u.parse client_id) [
    | none ↦ (returns false, r)
    | some i ↦ elim (lookup i r.streams) [
      | some _ ↦ (returns false, r)
      | none ↦ (returns true, record r { streams = insert i stream r.streams })
    ]
  ]
