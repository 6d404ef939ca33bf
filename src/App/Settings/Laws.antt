-- ===== src/App/Settings/Laws.antt =====
-- Saved settings survive a restart.
use vcs_srs_server.Disk.{Disk}
use vcs_srs_server.App.{App}
