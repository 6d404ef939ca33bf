-- ===== src/Reconnection.antt =====
-- voiceontrol/client.go and srs/plugin_client.go: handleReconnection, which is the same in both. Whether
-- the client is being stopped and whether a connection comes about is given by the number of the
-- attempt. A test of twenty attempts ends the loop, so that 21 rounds of fuel are enough.
pub mod Waiting
use vcs_srs_server.Base.{ℕ, zero, suc, ◌+◌, ◌*◌, Bool, Option, none, some, ltb, leb, if◌then◌else◌}

-- How the loop ends.
pub data End : Type 0 where
  stopped connected gave_up : End

abbrev pub max_backoff : ℕ
max_backoff = 128

abbrev pub max_reconnection_attempts : ℕ
max_reconnection_attempts = 20

module _ (stops connects : ℕ → Bool) where
  -- The rounds from the given backoff, attempts and seconds slept on: the end, and the seconds
  -- slept; `none` without fuel.
  unfoldable pub rounds : ℕ → ℕ → ℕ → ℕ → Option (End × ℕ)
  rounds zero current_backoff reconnection_attempts slept = none
  rounds (suc fuel) current_backoff reconnection_attempts slept =
      let next = if ltb current_backoff max_backoff then current_backoff * 2 else current_backoff in
      let rest = rounds fuel next (suc reconnection_attempts) (slept + current_backoff) in
      if stops reconnection_attempts
      then some (stopped, slept)
      else if leb max_reconnection_attempts reconnection_attempts
      then some (gave_up, slept)
      else if connects reconnection_attempts
      then some (connected, slept)
      else rest

  unfoldable pub handle_reconnection : Option (End × ℕ)
  handle_reconnection = rounds 21 1 0 0
