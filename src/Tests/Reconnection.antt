-- ===== src/Tests/Reconnection.antt =====
-- The fourth attempt succeeds.
use vcs_srs_server.Reconnection.{End, connected, handle_reconnection, rounds}
use vcs_srs_server.Reconnection.Waiting.{EndsAt, all_failed, handle_reconnection_ends, waited}
use vcs_srs_server.Base.{ℕ, ◌≤◌, ◌≡◌, refl, Bool, true, false, some, ◌==◌, nat_eq, string_eq}

abbrev never_stopped : ℕ → Bool
never_stopped k = false

abbrev back_at_three : ℕ → Bool
back_at_three k = k == 3

-- It has then slept for one, two and four seconds.
seven_seconds : handle_reconnection never_stopped back_at_three ≡ some (connected, 7)
unfolding handle_reconnection rounds
seven_seconds = refl

handle_reconnection_ends_example :
    (e : End) × (last : ℕ) × (handle_reconnection never_stopped back_at_three
      ≡ some (e, waited last))
    × ((all_failed never_stopped back_at_three) last ≡ true)
    × (EndsAt never_stopped back_at_three) e last
    × (waited last ≤ 1791)
handle_reconnection_ends_example = handle_reconnection_ends never_stopped back_at_three
