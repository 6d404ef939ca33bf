-- ===== src/Srs/Checks/Laws.antt =====
-- What the checks admit.
use Prim.Native.String.{len}
use vcs_srs_server.State.Server.{ClientState, Radio}
use vcs_srs_server.Utils.Auth.{guest_role}
use vcs_srs_server.Srs.Checks.{
  check_username, RadioInfo, RadioMessage, can_swap_roles, check_unit_id, codes, convert_radio_info,
  convert_radios, convert_single_radio, convert_single_radio_state, is_unit_char, matches_unit,
}
use vcs_srs_server.Base.{
  ℕ, ◌≤◌, String, ◌≡◌, refl, ap, ◌≢◌, ◌↔◌, ◌⊎◌, true, false, List, [], ◌∷◌, map, arith, length, All,
}

-- A client may take a role exactly when it is not the guest role and not above the client's own.
pub can_swap_roles_iff :
    (client : ClientState) (role_id : ℕ)
    → (can_swap_roles client role_id ≡ true) ↔ ((role_id ≢ guest_role) × (role_id ≤ client.role))
unfolding can_swap_roles
can_swap_roles_iff client role_id = (λ h. ground arith, λ h. ground arith)

-- A character of a unit identifier, as a set of code points.
abbrev pub IsUnitChar : ℕ → Type 0
IsUnitChar c = ((b'A' ≤ c) × (c ≤ b'Z')) ⊎ ((b'0' ≤ c) × (c ≤ b'9'))

unit_char : (c : ℕ) → (is_unit_char c ≡ true) ↔ IsUnitChar c
unfolding is_unit_char
unit_char c = (λ h. ground arith, λ h. ground arith)

matches_unit_iff :
    (cs : List ℕ)
    → (matches_unit cs ≡ true) ↔ ((2 ≤ length cs) × (length cs ≤ 4) × All IsUnitChar cs)
unfolding matches_unit
matches_unit_iff [] = (λ h. ground arith, λ h. ground arith)
matches_unit_iff (a ∷ []) = (λ h. ground arith, λ h. ground arith)
matches_unit_iff (a ∷ b ∷ []) = (λ h. ground arith, λ h. ground arith)
matches_unit_iff (a ∷ b ∷ c ∷ []) = (λ h. ground arith, λ h. ground arith)
matches_unit_iff (a ∷ b ∷ c ∷ d ∷ []) = (λ h. ground arith, λ h. ground arith)
matches_unit_iff (a ∷ b ∷ c ∷ d ∷ e ∷ cs) = (λ h. ground arith, λ h. ground arith)

abbrev pub HasUnitForm : String → Type 0
HasUnitForm unit_id =
    (2 ≤ length (codes unit_id)) × (length (codes unit_id) ≤ 4) × All IsUnitChar (codes unit_id)

-- A unit identifier is accepted exactly when it has two to four characters, each a capital letter
-- or a digit.
pub check_unit_id_iff : (unit_id : String) → (check_unit_id unit_id ≡ true) ↔ HasUnitForm unit_id
unfolding check_unit_id
check_unit_id_iff unit_id = matches_unit_iff (codes unit_id)

-- A user name is accepted exactly when it has 1 to 32 bytes.
pub check_username_iff :
    (username : String)
    → (check_username username ≡ true) ↔ ((1 ≤ len username) × (len username ≤ 32))
unfolding check_username
check_username_iff username = (λ h. ground arith, λ h. ground arith)

abbrev pub without_intercom : RadioMessage → RadioMessage
without_intercom r = record r { is_intercom = false }

converted :
    (rs : List RadioMessage)
    → All (λ (r : Radio). r.is_intercom ≡ false) (map convert_single_radio_state rs)
      × (map convert_single_radio (map convert_single_radio_state rs) ≡ map without_intercom rs)
unfolding convert_single_radio convert_single_radio_state
converted [] = (tt, refl)
converted (r ∷ rs) = let (h, e) = converted rs in ((refl, h), ap (λ t. without_intercom r ∷ t) e)

-- A radio that a client reports as an intercom is stored as none, and everything else of its radios
-- is stored and given out again as it was reported.
pub convert-round_trip :
    (info : RadioInfo)
    → All (λ r. r.is_intercom ≡ false) (convert_radio_info info).radios
      × (convert_radios (convert_radio_info info).radios ≡ map without_intercom info.radios)
unfolding convert_radio_info convert_radios
convert-round_trip info = converted info.radios
