-- ===== src/Tests/Settings.antt =====
-- The window on a disk without a settings file.
use vcs_srs_server.Disk.{Disk}
use vcs_srs_server.App.{App}
use vcs_srs_server.App.Settings.{Part, general_part}
use vcs_srs_server.Tests.Packages.{strokes}
use vcs_srs_server.Tests.VoiceServer.{quiet, two_known}
use vcs_srs_server.Tests.RadioServer.{empty_bus}
use vcs_srs_server.Base.{ℕ, false, [], ◌∷◌, nat_eq, string_eq}

abbrev bare_disk : Disk
bare_disk = record { files = []; read_fails = λ f. false; write_fails = λ f. false }

abbrev bare_window : App
bare_window = record {
  state = two_known;
  settings = quiet;
  disk = bare_disk;
  bus = empty_bus;
  window = [];
}

abbrev with_file : ℕ → Disk
with_file n = record bare_disk { files = ("settings.yaml", strokes n) ∷ [] }

abbrev three_radios : Part
three_radios = general_part (record { max_radios_per_user = 3 })
