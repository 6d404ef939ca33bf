-- ===== src/Srs/Checks.antt =====
-- srs/utils.go: what the services accept from a client, and the messages of radios.
pub mod Laws
use Prim.Native.Char.{code}
use Prim.Native.String.{len}
use vcs_srs_server.Float32.{Float32}
use vcs_srs_server.State.Server.{ClientState, Radio, RadioState}
use vcs_srs_server.Utils.Auth.{guest_role}
use vcs_srs_server.Base.{
  ℕ, String, ◌≡◌, Bool, true, false, ◌&&◌, ◌||◌, Option, none, some, List, [], ◌∷◌, map, Uuid, Time,
  ltb, leb, if◌then◌else◌, ◌==◌, nat_eq, string_eq, contains,
}

-- The package uuid, as far as it reads and writes text.
pub record UuidText : Type 0 where
  pub parse : String → Option Uuid
  pub to_string : Uuid → String

-- Its documented behaviour: the text of an identifier is read back as that identifier.
pub record IsUuidText (u : UuidText) : Type 0 where
  pub parse-to_string : (i : Uuid) → u.parse (u.to_string i) ≡ some i

unfoldable pub check_version : String → Bool
check_version version = version == "0.1.0"

-- `len` counts bytes, as in Go.
unfoldable pub check_username : String → Bool
check_username username = ltb 0 (len username) && leb (len username) 32

-- The code points of a text.
abbrev pub codes : String → List ℕ
codes String.[] = []
codes (String.◌∷◌ c s) = code c ∷ codes s

-- [A-Z0-9]
unfoldable pub is_unit_char : ℕ → Bool
is_unit_char c = (leb b'A' c && leb c b'Z') || (leb b'0' c && leb c b'9')

-- ^[A-Z0-9]{2,4}$
unfoldable pub matches_unit : List ℕ → Bool
unfolding is_unit_char
matches_unit (a ∷ b ∷ []) = is_unit_char a && is_unit_char b
matches_unit (a ∷ b ∷ c ∷ []) = is_unit_char a && is_unit_char b && is_unit_char c
matches_unit (a ∷ b ∷ c ∷ d ∷ []) =
    is_unit_char a && is_unit_char b && is_unit_char c && is_unit_char d
matches_unit _ = false

unfoldable pub check_unit_id : String → Bool
check_unit_id unit_id = matches_unit (codes unit_id)

pub record UnitSelection : Type 0 where
  pub unit_id : String
  pub unit_name : String

pub record AuthenticatingClient : Type 0 where
  pub name : String
  pub secret : String
  pub expires : Time
  pub available_roles : List ℕ
  pub available_units : List UnitSelection

unfoldable pub find_unit : String → List UnitSelection → Option UnitSelection
find_unit unit_id [] = none
find_unit unit_id (u ∷ us) = if u.unit_id == unit_id then some u else find_unit unit_id us

unfoldable pub get_selected_unit : AuthenticatingClient → String → Option UnitSelection
get_selected_unit c unit_id = find_unit unit_id c.available_units

unfoldable pub is_role_available : AuthenticatingClient → ℕ → Bool
is_role_available c role = contains c.available_roles role

unfoldable pub can_swap_roles : ClientState → ℕ → Bool
can_swap_roles client role_id =
    if role_id == guest_role
    then false
    else if ltb role_id client.role
    then true
    else if client.role == role_id
    then true
    else false

-- The message Radio of srs.proto.
pub record RadioMessage : Type 0 where
  pub radio_id : ℕ
  pub name : String
  pub frequency : Float32
  pub enabled : Bool
  pub is_intercom : Bool

-- The message RadioInfo; a time stands where the source has its Unix seconds.
pub record RadioInfo : Type 0 where
  pub radios : List RadioMessage
  pub muted : Bool
  pub last_update : Option ℕ

-- A field that the source does not set has its zero value.
unfoldable pub convert_single_radio : Radio → RadioMessage
convert_single_radio r = record {
  radio_id = r.radio_id;
  name = r.name;
  frequency = r.frequency;
  enabled = r.enabled;
  is_intercom = false;
}

unfoldable pub convert_radios : List Radio → List RadioMessage
unfolding convert_single_radio
convert_radios = map convert_single_radio

unfoldable pub convert_single_radio_state : RadioMessage → Radio
convert_single_radio_state r = record {
  radio_id = r.radio_id;
  name = r.name;
  frequency = r.frequency;
  enabled = r.enabled;
  is_intercom = false;
}

unfoldable pub convert_radio_info : RadioInfo → RadioState
unfolding convert_single_radio_state
convert_radio_info info = record {
  radios = map convert_single_radio_state info.radios;
  muted = info.muted;
}
