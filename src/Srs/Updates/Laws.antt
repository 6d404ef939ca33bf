-- ===== src/Srs/Updates/Laws.antt =====
-- What a client can change, and what it cannot.
use vcs_srs_server.Srs.Updates.{
  ClientUpdate, answer, subscribe_to_updates, uint8, update_client, update_client_info,
  update_radio_info,
}
use vcs_srs_server.Srs.Radio.{RadioServer, Stream, accepted}
use vcs_srs_server.Srs.Checks.{
  RadioInfo, UuidText, can_swap_roles, check_unit_id, check_username, convert_radio_info,
}
use vcs_srs_server.Utils.Auth.{guest_role}
use vcs_srs_server.State.Settings.{SettingsState, does_coalition_exist}
use vcs_srs_server.State.Server.{ClientState, RadioState}
use vcs_srs_server.State.Server.Pairing.{IsPaired}
use vcs_srs_server.Base.{
  ◌≤◌, String, ◌≡◌, refl, ◌↔◌, inl, inr, Bool, true, false, ◌&&◌, none, some, List, [], ◌∷◌, arith,
  Uuid, Time, second, returns, panics, if◌then◌else◌, ◌==◌, nat_eq, string_eq, Bool-cases,
  Option-cases, lookup, insert, map_laws,
}

-- Each field of a client has the requested value if that passes its check, and else the value
-- that it had; the time is that of the call.
pub update_client_lem :
    (req : ClientUpdate) (settings : SettingsState) (now : Time) (c : ClientState)
    → let d = (update_client req settings now c).0 in
      (d.name ≡ (if check_username req.name then req.name else c.name))
      × (d.unit_id ≡ (if check_unit_id req.unit_id then req.unit_id else c.unit_id))
      × (d.coalition
          ≡ (if does_coalition_exist req.coalition settings then req.coalition else c.coalition))
      × (d.role ≡ (if can_swap_roles c (uint8 req.role_id) then uint8 req.role_id else c.role))
      × (d.last_update ≡ now)
unfolding update_client can_swap_roles
update_client_lem req settings now c = ground (
  arith,
  Bool-cases (check_username req.name),
  Bool-cases (check_unit_id req.unit_id),
  Bool-cases (does_coalition_exist req.coalition settings),
)

-- A client cannot raise its role, and no update makes it a guest.
pub update_client-role :
    (req : ClientUpdate) (settings : SettingsState) (now : Time) (c : ClientState)
    → let d = (update_client req settings now c).0 in
      (d.role ≤ c.role) × (d.role ≡ guest_role → c.role ≡ guest_role)
unfolding can_swap_roles
update_client-role req settings now c =
    let (_, _, _, e, _) = update_client_lem req settings now c in
    (ground (arith, e), λ h. ground (arith, e))

abbrev all_pass : ClientUpdate → SettingsState → ClientState → Bool
all_pass req settings c =
    check_username req.name
    && check_unit_id req.unit_id
    && does_coalition_exist req.coalition settings
    && can_swap_roles c (uint8 req.role_id)

no_errors_iff :
    (req : ClientUpdate) (settings : SettingsState) (now : Time) (c : ClientState)
    → ((update_client req settings now c).1 ≡ []) ↔ (all_pass req settings c ≡ true)
unfolding update_client can_swap_roles
no_errors_iff req settings now c = (
  λ h. ground (
    arith,
    Bool-cases (check_username req.name),
    Bool-cases (check_unit_id req.unit_id),
    Bool-cases (does_coalition_exist req.coalition settings),
  ),
  λ h. ground arith,
)

answer_lem :
    (i : Uuid) (c : ClientState) (errors : List String) (r : RadioServer)
    → let (response, after) = answer i (c, errors) r in
      ((response ≡ accepted) ↔ (errors ≡ []))
      × (after.state.clients ≡ insert i c r.state.clients)
      × (after.state.radio_clients ≡ r.state.radio_clients)
unfolding answer
answer_lem i c [] r = ((λ h. refl, λ h. refl), refl, refl)
answer_lem i c (e ∷ es) r = ((λ h. ground arith, λ h. ground arith), refl, refl)

module _ (u : UuidText) where
  -- An update of a known client stores for it each requested field that passes its check, of the other
  -- fields what they were, and the time of the call; it leaves all other clients and all radios, and is
  -- a success exactly when all four fields passed.
  pub update_client_info_lem :
      (client_id : String) (i : Uuid) (c : ClientState) (req : ClientUpdate) (now : Time)
      (r : RadioServer)
      → u.parse client_id ≡ some i
      → lookup i r.state.clients ≡ some c
      → let (response, after) = update_client_info u (some client_id) req now r in
        ((response ≡ returns accepted) ↔ (
          check_username req.name
            && check_unit_id req.unit_id
            && does_coalition_exist req.coalition r.settings
            && can_swap_roles c (uint8 req.role_id)
          ≡ true))
        × ((d : ClientState) × (lookup i after.state.clients ≡ some d)
            × (d.name ≡ (if check_username req.name then req.name else c.name))
            × (d.unit_id ≡ (if check_unit_id req.unit_id then req.unit_id else c.unit_id))
            × (d.coalition ≡ (
                if does_coalition_exist req.coalition r.settings
                then req.coalition
                else c.coalition))
            × (d.role
                ≡ (if can_swap_roles c (uint8 req.role_id) then uint8 req.role_id else c.role))
            × (d.last_update ≡ now))
        × ((j : Uuid)
            → lookup j after.state.clients
              ≡ (if i == j then lookup i after.state.clients else lookup j r.state.clients))
        × (after.state.radio_clients ≡ r.state.radio_clients)
  unfolding update_client_info
  update_client_info_lem client_id i c req now r parsed known =
      let d = update_client req r.settings now c in
      let a = answer_lem i d.0 d.1 r in
      let n = no_errors_iff req r.settings now c in
      let fields = update_client_lem req r.settings now c in
      (
        (λ h. ground (arith, parsed, known, a, n), λ h. ground (arith, parsed, known, a, n)),
        (d.0, grind (map_laws, parsed, known, a), fields.0, fields.1, fields.2, fields.3, fields.4),
        λ j. grind (map_laws, parsed, known, a),
        ground (arith, parsed, known, a),
      )

  -- Whatever a client sends, its updates keep a client state and radios together for every
  -- identifier.
  pub updates-IsPaired :
      (client_id : String) (req : ClientUpdate) (info : RadioInfo) (now : Time) (r : RadioServer)
      → IsPaired r.state
      → IsPaired (update_client_info u (some client_id) req now r).1.state
        × IsPaired (update_radio_info u (some client_id) info r).1.state
  unfolding update_client_info update_radio_info
  updates-IsPaired client_id req info now r h = elim (Option-cases (u.parse client_id)) [
    | inl e ↦ (
      record { at = λ j. ground (arith, e, h.at j) },
      record { at = λ j. ground (arith, e, h.at j) },
    )
    | inr (i, e) ↦ (
      elim (Option-cases (lookup i r.state.clients)) [
        | inl k ↦ record { at = λ j. ground (arith, e, k, h.at j) }
        | inr (c, k) ↦
            let d = update_client req r.settings now c in
            record { at = λ j. grind (map_laws, e, k, h.at j, answer_lem i d.0 d.1 r) }
      ],
      record {
        at = λ j. grind (map_laws, e, h.at j, Option-cases (lookup i r.state.radio_clients));
      },
    )
  ]

  -- The radios that a known client reports are what the server holds for it from then on, without
  -- their intercom marks; nothing else changes.
  pub update_radio_info_lem :
      (client_id : String) (i : Uuid) (radios : RadioState) (info : RadioInfo) (r : RadioServer)
      → u.parse client_id ≡ some i
      → lookup i r.state.radio_clients ≡ some radios
      → let (response, after) = update_radio_info u (some client_id) info r in
        (response ≡ returns accepted)
        × ((j : Uuid)
            → lookup j after.state.radio_clients
              ≡ (if i == j then some (convert_radio_info info) else lookup j r.state.radio_clients))
        × (after.state.clients ≡ r.state.clients)
        × (after.streams ≡ r.streams)
  unfolding update_radio_info
  update_radio_info_lem client_id i radios info r parsed known = (
    ground (arith, parsed, known),
    λ j. grind (map_laws, parsed, known),
    ground (arith, parsed, known),
    ground (arith, parsed, known),
  )

  -- A client subscribes once: the first call keeps its stream, and until the stream is dropped each
  -- further call fails and changes nothing. A call whose context has no identifier panics.
  pub subscribe_lem :
      (client_id : String) (i : Uuid) (first second : Stream) (r : RadioServer)
      → u.parse client_id ≡ some i
      → lookup i r.streams ≡ none
      → let (response, after) = subscribe_to_updates u (some client_id) first r in
        (response ≡ returns true)
        × ((j : Uuid)
            → lookup j after.streams ≡ (if i == j then some first else lookup j r.streams))
        × (subscribe_to_updates u (some client_id) second after ≡ (returns false, after))
        × ((subscribe_to_updates u none first r).0 ≡ panics)
  unfolding subscribe_to_updates
  subscribe_lem client_id i first second r parsed free = (
    ground (arith, parsed, free),
    λ j. grind (map_laws, parsed, free),
    grind (map_laws, parsed, free),
    refl,
  )
