-- ===== src/Srs/Sync/Laws.antt =====
-- When SyncClient answers, and with what.
use vcs_srs_server.State.Server.{ClientState, RadioState, get_all_clients, get_all_radios}
use vcs_srs_server.State.Settings.{Coalition}
use vcs_srs_server.State.Server.Pairing.{IsPaired}
use vcs_srs_server.Srs.Checks.{IsUuidText, RadioInfo, UuidText, convert_radios}
use vcs_srs_server.Srs.Radio.{RadioServer}
use vcs_srs_server.Srs.Sync.{
  ClientInfo, CoalitionInfo, SyncResult, build_server_settings, client_infos, coalition_info,
  radio_infos, sync_client,
}
use vcs_srs_server.Base.{
  ◌%◌, ◌^◌, String, ◌≡◌, refl, ap, inl, inr, true, Option, none, some, List, [], ◌∷◌, map, arith,
  Uuid, returns, panics, nat_eq, string_eq, Option-cases, All, Map, lookup, insert, IsUnique, has,
  All-of_lookup, map_laws, unix,
}

abbrev pub info_of : ClientState → ClientInfo
info_of c = record {
  name = c.name;
  coalition = c.coalition;
  unit_id = "";
  role_id = 0;
  last_update = some (unix c.last_update);
}

-- What is told of a client.
abbrev pub told : Option ClientState → Option ClientInfo
told none = none
told (some c) = some (info_of c)

module _ (u : UuidText) (laws : IsUuidText u) where
  to_string-injective : (i j : Uuid) → u.to_string i ≡ u.to_string j → i ≡ j
  to_string-injective i j h = cc (laws.parse-to_string i, laws.parse-to_string j, ap u.parse h)

  lookup-client_infos :
      (i : Uuid) (cs : Map Uuid ClientState)
      → lookup (u.to_string i) (client_infos u cs) ≡ told (lookup i cs)
  unfolding client_infos lookup
  lookup-client_infos i [] = refl
  lookup-client_infos i ((j, c) ∷ cs) =
      grind (map_laws, to_string-injective j i, lookup-client_infos i cs)

module _ (u : UuidText) where
  radio_infos_returns :
      (rs : Map Uuid RadioState) (clients : Map Uuid ClientState)
      → All (λ p. has p.0 clients ≡ true) rs
      → (m : Map String RadioInfo) × (radio_infos u rs clients ≡ returns m)
  unfolding radio_infos
  radio_infos_returns [] clients h = ([], refl)
  radio_infos_returns ((i, r) ∷ rs) clients (h, hs) = elim (Option-cases (lookup i clients)) [
    | inl e ↦ absurd (ground arith)
    | inr (c, e) ↦
        let (m, q) = radio_infos_returns rs clients hs in
        let entry : RadioInfo = record {
          radios = convert_radios r.radios;
          muted = r.muted;
          last_update = some (unix c.last_update);
        } in
        (insert (u.to_string i) entry m, ground (arith, e, q))
  ]

  radio_infos_panics :
      (rs : Map Uuid RadioState) (clients : Map Uuid ClientState) (i : Uuid) (r : RadioState)
      → lookup i rs ≡ some r
      → lookup i clients ≡ none
      → radio_infos u rs clients ≡ panics
  unfolding radio_infos lookup
  radio_infos_panics [] clients i r h gone = cc
  radio_infos_panics ((j, q) ∷ rs) clients i r h gone =
      ground (arith, radio_infos_panics rs clients i r, Option-cases (lookup j clients))

  -- SyncClient panics as soon as some radios stand without a client of the same identifier.
  pub sync_client_panics :
      (r : RadioServer) (i : Uuid) (radios : RadioState)
      → lookup i r.state.radio_clients ≡ some radios
      → lookup i r.state.clients ≡ none
      → (sync_client u r).0 ≡ panics
  unfolding sync_client get_all_radios
  sync_client_panics r i radios there gone =
      ground (arith, radio_infos_panics r.state.radio_clients r.state.clients i radios there gone)

-- The coalitions of the settings stand in the same places of the answer, less their passwords.
abbrev pub AreTold : List Coalition → List CoalitionInfo → Type 0
AreTold [] [] = Unit {0}
AreTold [] (i ∷ is) = ⊥
AreTold (c ∷ cs) [] = ⊥
AreTold (c ∷ cs) (i ∷ is) =
    ((i.name ≡ c.name) × (i.color ≡ c.color) × (i.description ≡ c.description)) × AreTold cs is

coalition_infos-AreTold :
    (cs : List Coalition) (r : RadioServer)
    → r.settings.coalitions ≡ cs
    → AreTold cs (build_server_settings r).coalitions
unfolding build_server_settings
coalition_infos-AreTold cs r e = rw e (told_all cs)
  where
    told_all : (cs : List Coalition) → AreTold cs (map coalition_info cs)
    told_all [] = tt
    told_all (c ∷ cs) = ((refl, refl, refl), told_all cs)

module _ (u : UuidText) (laws : IsUuidText u) where
  -- Where each client has radios and radios have a client, SyncClient answers: with the name, color and
  -- description of each coalition in order, the test and the global frequencies, and the lowest 32 bits
  -- of the number of radios; and for every identifier it tells the name, coalition and Unix time of
  -- exactly the clients that the server holds, with the unit and the role left empty.
  pub sync_client_returns :
      (r : RadioServer)
      → IsUnique r.state.radio_clients
      → IsPaired r.state
      → (result : SyncResult) × ((sync_client u r).0 ≡ returns result)
        × AreTold r.settings.coalitions result.settings.coalitions
        × (result.settings.test_frequencies ≡ r.settings.frequencies.test_frequencies)
        × (result.settings.global_frequencies ≡ r.settings.frequencies.global_frequencies)
        × (result.settings.max_radios_per_client ≡ r.settings.general.max_radios_per_user % 2 ^ 32)
        × ((i : Uuid) → lookup (u.to_string i) result.clients ≡ told (lookup i r.state.clients))
  unfolding sync_client get_all_radios get_all_clients build_server_settings
  sync_client_returns r unique paired =
      let (m, e) = radio_infos_returns u r.state.radio_clients r.state.clients (
        All-of_lookup (λ i. has i r.state.clients ≡ true) r.state.radio_clients unique
          (λ i q h. ground (arith, paired.at i))) in
      let result : SyncResult = record {
        clients = client_infos u r.state.clients;
        radios = m;
        settings = build_server_settings r;
      } in
      (
        result,
        ground (arith, e),
        coalition_infos-AreTold r.settings.coalitions r refl,
        refl,
        refl,
        refl,
        λ i. lookup-client_infos u laws i r.state.clients,
      )
