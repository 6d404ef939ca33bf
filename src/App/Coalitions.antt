-- ===== src/App/Coalitions.antt =====
-- services/coalitions.go: the coalitions, as the window edits them.
pub mod Laws
use Prim.Native.String.{◌++◌ as str_append}
use vcs_srs_server.State.Settings.{Coalition, SettingsState, Yaml, save}
use vcs_srs_server.Disk.{failed}
use vcs_srs_server.Events.{coalition_list, coalitions_changed}
use vcs_srs_server.Utils.Slice.{remove}
use vcs_srs_server.App.{App, emit_to_window, notified}
use vcs_srs_server.Base.{
  String, ◌≡◌, ◌↔◌, Bool, true, not, ◌&&◌, Option, none, some, List, [], ◌∷◌, ◌++◌, arith, eq_iff,
  if◌then◌else◌, Comparable, ◌==◌, nat_eq, string_eq,
}

abbrev pub coalition_beq : Coalition → Coalition → Bool
coalition_beq a b =
    a.name == b.name
    && a.description == b.description
    && a.color == b.color
    && a.password == b.password

pub coalition_beq_iff : (a b : Coalition) → (coalition_beq a b ≡ true) ↔ (a ≡ b)
coalition_beq_iff a b =
    let n = eq_iff a.name b.name in
    let d = eq_iff a.description b.description in
    let c = eq_iff a.color b.color in
    let p = eq_iff a.password b.password in
    (λ h. ground (arith, n, d, c, p), λ h. ground (arith, n, d, c, p))

-- Go compares structs field by field.
instance abbrev pub coalition_eq : Comparable Coalition
coalition_eq = record { same = coalition_beq; same_iff = coalition_beq_iff }

abbrev pub with_coalitions : List Coalition → SettingsState → SettingsState
with_coalitions cs s = record s { saved = record s.saved { coalitions = cs } }

unfoldable pub get_coalitions : App → List Coalition
get_coalitions a = a.settings.coalitions

unfoldable pub find_coalition : String → List Coalition → Option Coalition
find_coalition name [] = none
find_coalition name (c ∷ cs) = if c.name == name then some c else find_coalition name cs

unfoldable pub get_coalition_by_name : String → App → Option Coalition
get_coalition_by_name name a = find_coalition name a.settings.coalitions

-- The first coalition of the same name becomes the new one.
unfoldable pub replace_first : Coalition → List Coalition → List Coalition
replace_first c [] = []
replace_first c (d ∷ ds) =
    let rest = replace_first c ds in if d.name == c.name then c ∷ ds else d ∷ rest

-- "Coalition <name> <rest>"
abbrev pub coalition_message : Coalition → String → String
coalition_message c rest = str_append "Coalition " (str_append c.name rest)

module _ (y : Yaml) where
  -- What all three do with their new list: it is kept also where it cannot be saved.
  unfoldable pub save_coalitions : List Coalition → Coalition → String → String → App → App
  save_coalitions cs c title rest a =
      let b = record a { settings = with_coalitions cs a.settings } in
      elim (save y b.settings b.disk) [
        | none ↦
            notified "Coalition failed to save" (coalition_message c " could not be saved!") "error"
              b
        | some d ↦ notified title (coalition_message c rest) "info" (
            emit_to_window (record { name = coalitions_changed; payload = coalition_list cs })
              (record b { disk = d }))
      ]

  unfoldable pub add_coalition : Coalition → App → App
  add_coalition c a =
      save_coalitions (a.settings.coalitions ++ c ∷ []) c "Coalition added" " added" a

  unfoldable pub remove_coalition : Coalition → App → App
  remove_coalition c a =
      save_coalitions (remove a.settings.coalitions c) c "Coalition removed" " removed" a

  unfoldable pub update_coalition : Coalition → App → App
  update_coalition c a =
      save_coalitions (replace_first c a.settings.coalitions) c "Coalition updated" " updated" a
