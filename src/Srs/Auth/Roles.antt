-- ===== src/Srs/Auth/Roles.antt =====
-- srs/auth_service.go: the four calls of the service in any order, and where the roles of its clients
-- come from.
pub mod Steps
pub mod Reach
pub mod Tokens
use vcs_srs_server.State.Server.{ClientState, add_client}
use vcs_srs_server.Events.{EventBus}
use vcs_srs_server.Srs.Auth.{
  AuthServer, Capabilities, LoginBody, PluginClient, accepted_with_result, init_auth,
  remove_expired,
}
use vcs_srs_server.Srs.Auth.Guest.{Bcrypt, GuestCall, GuestRequest, guest_login}
use vcs_srs_server.Srs.Auth.Plugin.{LoginRequest, login}
use vcs_srs_server.Srs.Auth.Select.{SelectRequest, unit_select}
use vcs_srs_server.Srs.Checks.{AuthenticatingClient, UuidText}
use vcs_srs_server.Srs.Updates.{uint8}
use vcs_srs_server.Utils.Auth.{Jwt, KeyCache, KeyPair, guest_role}
use vcs_srs_server.Base.{
  ℕ, String, ◌≡◌, ◌⊎◌, Bool, true, Option, some, map, Uuid, Time, leb, nat_eq, string_eq, contains,
  Map, lookup, insert, delete, IsUnique, insert-IsUnique, delete-IsUnique, retain-IsUnique, Holds,
  insert-Holds, delete-Holds, retain-Holds,
}

-- The server after calls of the service, each with what it takes from outside.
pub data Calls (u : UuidText) (b : Bcrypt) (j : Jwt) (s : AuthServer) : AuthServer → Type 0 where
  none_yet : Calls u b j s s
  then_init :
      (t : AuthServer) (fresh : Uuid) (now : Time) (c : Option Capabilities)
      → Calls u b j s t
      → Calls u b j s (init_auth u fresh now c t).1
  then_guest :
      (t : AuthServer) (call : GuestCall) (q : GuestRequest)
      → Calls u b j s t
      → Calls u b j s (guest_login u b j call q t).1
  then_login :
      (t : AuthServer) (now : Time) (secret : Option String) (q : LoginRequest)
      → Calls u b j s t
      → Calls u b j s (login u now secret q t).1
  then_select :
      (t : AuthServer) (now : Time) (made : Option KeyPair) (q : SelectRequest)
      → Calls u b j s t
      → Calls u b j s (unit_select u j now made q t).1

-- A plugin accepts some credentials and offers the role.
pub record IsGranted (plugins : Map String PluginClient) (role : ℕ) : Type 0 where
  pub name : String
  pub plugin : PluginClient
  pub credentials : Map String String
  pub body : LoginBody
  pub known : lookup name plugins ≡ some plugin
  pub accepted : plugin credentials ≡ accepted_with_result body
  pub offers : contains (map uint8 body.available_roles) role ≡ true

module _ (plugins : Map String PluginClient) where
  abbrev pub OffersGranted : AuthenticatingClient → Type 0
  OffersGranted c = (role : ℕ) → contains c.available_roles role ≡ true → IsGranted plugins role

  abbrev pub RoleIsGranted : ClientState → Type 0
  RoleIsGranted c = (c.role ≡ guest_role) ⊎ IsGranted plugins c.role

  pub record AreGranted (s : AuthServer) : Type 0 where
    pub same_plugins : s.plugin_clients ≡ plugins
    pub unique : IsUnique s.authenticating_clients
    pub waiting : Holds OffersGranted s.authenticating_clients
    pub admitted : Holds RoleIsGranted s.state.clients

  pub remove_expired-AreGranted :
      (now : Time) (s : AuthServer) → AreGranted s → AreGranted (remove_expired now s)
  unfolding remove_expired
  remove_expired-AreGranted now s g =
      let keep = λ (_ : Uuid) (c : AuthenticatingClient). leb now c.expires in
      record {
        same_plugins = g.same_plugins;
        unique = retain-IsUnique keep s.authenticating_clients g.unique;
        waiting = retain-Holds OffersGranted keep s.authenticating_clients g.unique g.waiting;
        admitted = g.admitted;
      }

  -- A new place, whose roles are granted.
  pub place-AreGranted :
      (i : Uuid) (c : AuthenticatingClient) (s : AuthServer)
      → OffersGranted c
      → AreGranted s
      → AreGranted (record s { authenticating_clients = insert i c s.authenticating_clients })
  place-AreGranted i c s offers g = record {
    same_plugins = g.same_plugins;
    unique = insert-IsUnique i c s.authenticating_clients g.unique;
    waiting = insert-Holds OffersGranted i c s.authenticating_clients offers g.waiting;
    admitted = g.admitted;
  }

  -- A new client, whose role is granted.
  pub added-AreGranted :
      (i : Uuid) (c : ClientState) (keys : KeyCache) (s : AuthServer)
      → RoleIsGranted c
      → AreGranted s
      → AreGranted (record s { state = add_client i c s.state; keys = keys })
  unfolding add_client
  added-AreGranted i c keys s role g = record {
    same_plugins = g.same_plugins;
    unique = g.unique;
    waiting = g.waiting;
    admitted = insert-Holds RoleIsGranted i c s.state.clients role g.admitted;
  }

  -- What the roles do not depend on.
  pub other_parts-AreGranted :
      (bus : EventBus) (locked : Bool) (keys : KeyCache) (s : AuthServer)
      → AreGranted s
      → AreGranted (record s { bus = bus; locked = locked; keys = keys })
  other_parts-AreGranted bus locked keys s g = record {
    same_plugins = g.same_plugins;
    unique = g.unique;
    waiting = g.waiting;
    admitted = g.admitted;
  }

  pub taken-AreGranted :
      (i : Uuid) (s : AuthServer)
      → AreGranted s
      → AreGranted (record s { authenticating_clients = delete i s.authenticating_clients })
  taken-AreGranted i s g = record {
    same_plugins = g.same_plugins;
    unique = delete-IsUnique i s.authenticating_clients g.unique;
    waiting = delete-Holds OffersGranted i s.authenticating_clients g.waiting;
    admitted = g.admitted;
  }
