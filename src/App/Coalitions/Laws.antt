-- ===== src/App/Coalitions/Laws.antt =====
-- What the edits of coalitions come to.
use vcs_srs_server.State.Settings.{Coalition, Yaml, coalition_named, does_coalition_exist, save}
use vcs_srs_server.App.{App, emit_event, notified}
use vcs_srs_server.App.Coalitions.{
  add_coalition, find_coalition, get_coalition_by_name, replace_first, save_coalitions,
  update_coalition, with_coalitions,
}
use vcs_srs_server.Base.{
  String, ◌≡◌, refl, inl, inr, ◌&&◌, ◌||◌, some, List, [], ◌∷◌, ◌++◌, arith, eq_iff, if◌then◌else◌,
  ◌==◌, nat_eq, string_eq, Option-cases,
}

coalition_named-append :
    (n : String) (cs : List Coalition) (c : Coalition)
    → coalition_named n (cs ++ c ∷ []) ≡ (coalition_named n cs || c.name == n)
unfolding coalition_named
coalition_named-append n [] c = ground arith
coalition_named-append n (d ∷ cs) c = ground (arith, coalition_named-append n cs c)

find-replace_first :
    (n : String) (cs : List Coalition) (c : Coalition)
    → find_coalition n (replace_first c cs)
      ≡ (if c.name == n && coalition_named n cs then some c else find_coalition n cs)
unfolding find_coalition replace_first coalition_named
find-replace_first n [] c = ground arith
find-replace_first n (d ∷ cs) c =
    ground
      (arith, find-replace_first n cs c, eq_iff c.name n, eq_iff d.name n, eq_iff d.name c.name)

coalition_named-replace_first :
    (n : String) (cs : List Coalition) (c : Coalition)
    → coalition_named n (replace_first c cs) ≡ coalition_named n cs
unfolding replace_first coalition_named
coalition_named-replace_first n [] c = refl
coalition_named-replace_first n (d ∷ cs) c = ground (
  arith,
  coalition_named-replace_first n cs c,
  eq_iff c.name n,
  eq_iff d.name n,
  eq_iff d.name c.name,
)

module _ (y : Yaml) where
  save_coalitions-settings :
      (cs : List Coalition) (c : Coalition) (title rest : String) (a : App)
      → (save_coalitions y cs c title rest a).settings ≡ with_coalitions cs a.settings
  unfolding save_coalitions emit_event notified
  save_coalitions-settings cs c title rest a =
      elim (Option-cases (save y (with_coalitions cs a.settings) a.disk)) [
        | inl e ↦ ground (arith, e)
        | inr (d, e) ↦ ground (arith, e)
      ]

  -- A coalition that was added exists, and no other name comes or goes, whether or not the settings
  -- could be saved.
  pub add_coalition_lem :
      (c : Coalition) (n : String) (a : App)
      → does_coalition_exist n (add_coalition y c a).settings
        ≡ (does_coalition_exist n a.settings || c.name == n)
  unfolding add_coalition does_coalition_exist
  add_coalition_lem c n a =
      let cs = a.settings.coalitions ++ c ∷ [] in
      ground (
        arith,
        save_coalitions-settings cs c "Coalition added" " added" a,
        coalition_named-append n a.settings.coalitions c,
      )

  -- An update makes the coalition of that name the new one, leaves those of other names, and adds
  -- none where the name is unknown.
  pub update_coalition_lem :
      (c : Coalition) (n : String) (a : App)
      → let after = update_coalition y c a in
        (get_coalition_by_name n after ≡ (
          if c.name == n && does_coalition_exist n a.settings
          then some c
          else get_coalition_by_name n a))
        × (does_coalition_exist n after.settings ≡ does_coalition_exist n a.settings)
  unfolding update_coalition does_coalition_exist get_coalition_by_name
  update_coalition_lem c n a =
      let cs = replace_first c a.settings.coalitions in
      let kept = save_coalitions-settings cs c "Coalition updated" " updated" a in
      (
        ground (arith, kept, find-replace_first n a.settings.coalitions c),
        ground (arith, kept, coalition_named-replace_first n a.settings.coalitions c),
      )
