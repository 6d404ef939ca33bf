-- ===== src/Srs/Auth/Roles/Reach.antt =====
-- The service after any calls, and the roles of its clients.
use vcs_srs_server.State.Server.{ClientState}
use vcs_srs_server.Srs.Auth.{AuthServer, PluginClient}
use vcs_srs_server.Srs.Auth.Guest.{Bcrypt}
use vcs_srs_server.Srs.Checks.{UuidText}
use vcs_srs_server.Utils.Auth.{Jwt, guest_role}
use vcs_srs_server.Srs.Auth.Roles.{
  AreGranted, Calls, IsGranted, none_yet, then_guest, then_init, then_login, then_select,
}
use vcs_srs_server.Srs.Auth.Roles.Steps.{
  guest_login-AreGranted, init_auth-AreGranted, login-AreGranted, unit_select-AreGranted,
}
use vcs_srs_server.Base.{
  String, ◌≡◌, refl, ◌⊎◌, some, [], arith, Uuid, nat_eq, string_eq, Map, lookup,
}

pub start-AreGranted :
    (s : AuthServer)
    → s.authenticating_clients ≡ []
    → s.state.clients ≡ []
    → AreGranted s.plugin_clients s
unfolding lookup
start-AreGranted s none_waits none_in = record {
  same_plugins = refl;
  unique = rw (none_waits) tt;
  waiting = λ k d l. absurd (ground (arith, none_waits));
  admitted = λ k d l. absurd (ground (arith, none_in));
}

module _ (plugins : Map String PluginClient) (u : UuidText) (b : Bcrypt) (j : Jwt) where
  pub Calls-AreGranted :
      (s t : AuthServer) → AreGranted plugins s → Calls u b j s t → AreGranted plugins t
  Calls-AreGranted s t g none_yet = g
  Calls-AreGranted s _ g (then_init t fresh now c calls) =
      init_auth-AreGranted plugins u fresh now c t (Calls-AreGranted s t g calls)
  Calls-AreGranted s _ g (then_guest t call q calls) =
      guest_login-AreGranted plugins u b j call q t (Calls-AreGranted s t g calls)
  Calls-AreGranted s _ g (then_login t now secret q calls) =
      login-AreGranted plugins u now secret q t (Calls-AreGranted s t g calls)
  Calls-AreGranted s _ g (then_select t now made q calls) =
      unit_select-AreGranted plugins u b j now made q t (Calls-AreGranted s t g calls)

-- On a server that begins with no client and no login under way, and then gets calls of InitAuth,
-- GuestLogin, Login and UnitSelect in any order, each client has the guest role or one that a
-- configured plugin offered to credentials it accepted.
pub role-IsGranted :
    (u : UuidText) (b : Bcrypt) (j : Jwt) (s t : AuthServer) (i : Uuid) (c : ClientState)
    → s.authenticating_clients ≡ []
    → s.state.clients ≡ []
    → Calls u b j s t
    → lookup i t.state.clients ≡ some c
    → (c.role ≡ guest_role) ⊎ IsGranted s.plugin_clients c.role
role-IsGranted u b j s t i c none_waits none_in calls known =
    let start = start-AreGranted s none_waits none_in in
    let end = Calls-AreGranted s.plugin_clients u b j s t start calls in end.admitted i c known
