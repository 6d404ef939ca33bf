-- ===== src/App/Servers/Races.antt =====
-- What becomes of starts and stops that come before a goroutine has run, and of a socket that cannot
-- be closed.
use vcs_srs_server.Srs.Auth.{Attempt, done, panicked}
use vcs_srs_server.App.Signals.{make_signal, AreOpen, close_signal_lem}
use vcs_srs_server.App.Servers.{
  Application, HttpServer, and_then, failed, made_server, notify_all, running, serving_with,
  set_status, spawned, with_voice,
}
use vcs_srs_server.Voice.Server.{Server, listen, new_server, stop}
use vcs_srs_server.App.Servers.Voice.{
  start_voice_server, stop_known_voice, stop_voice_server, voice_binds, voice_failed, voice_task,
}
use vcs_srs_server.App.Servers.Http.{http_serves, http_task}
use vcs_srs_server.Base.{
  ℕ, suc, String, ◌≡◌, refl, Bool, true, false, Option, none, some, arith, nat_eq, string_eq,
  lookup, insert, map_laws,
}

-- The goroutine of a voice server, from its start to its read loop; `error` is the answer of Listen.
abbrev pub run_voice : ℕ → ℕ → Option String → Application → Attempt Application
run_voice task ch error a =
    and_then (voice_task task ch spawned none a)
      (λ b. and_then (voice_task task ch made_server none b) (voice_task task ch set_status error))

abbrev pub run_http : ℕ → Option String → Application → Attempt Application
run_http task error a =
    and_then (http_task task spawned none a)
      (λ b. and_then (http_task task made_server none b) (http_task task set_status error))

-- What the goroutine makes of the application.
abbrev pub voice_started : ℕ → ℕ → Application → Application
voice_started task ch a = record a {
  admin = record a.admin { voice_status = running a.admin.voice_status };
  voices = insert a.next (listen new_server) (insert a.next new_server a.voices);
  voice_server = some a.next;
  voice_tasks =
      insert task (ch, serving_with a.next)
        (insert task (ch, set_status) (insert task (ch, made_server) a.voice_tasks));
  next = suc a.next;
}

pub run_voice_lem :
    (task ch : ℕ) (a : Application) → run_voice task ch none a ≡ done (voice_started task ch a)
unfolding voice_task voice_binds
run_voice_lem task ch a = grind map_laws

abbrev http_of : Application → HttpServer
http_of a = record { address = a.app.settings.servers.http; shut = false }

abbrev pub http_started : ℕ → Application → Application
http_started task a = record a {
  admin = record a.admin { http_status = running a.admin.http_status };
  https = insert a.next (http_of a) a.https;
  http_server = some a.next;
  http_tasks =
      insert task (serving_with a.next)
        (insert task set_status (insert task made_server a.http_tasks));
  next = suc a.next;
}

pub run_http_lem : (task : ℕ) (a : Application) → run_http task none a ≡ done (http_started task a)
unfolding http_task http_serves
run_http_lem task a = grind map_laws

-- The application knows a voice server that serves.
abbrev pub ServesVoice : Application → Type 0
ServesVoice a =
    (n : ℕ) × (v : Server) × (a.voice_server ≡ some n)
    × (lookup n a.voices ≡ some v)
    × (v.running ≡ true)
    × (v.stop_closed ≡ false)

pub voice_started-ServesVoice :
    (task ch : ℕ) (a : Application) → ServesVoice (voice_started task ch a)
unfolding listen new_server
voice_started-ServesVoice task ch a = (a.next, listen new_server, refl, grind map_laws, refl, refl)

-- A goroutine of the voice server whose Listen fails.
second_fails :
    (other dh : ℕ) (error : String) (a : Application)
    → (b : Application) × (run_voice other dh (some error) a ≡ done b)
      × (b.admin.voice_status ≡ failed error a.admin.voice_status)
      × (b.voice_server ≡ some a.next)
      × (b.voices ≡ insert a.next new_server a.voices)
      × (stop_voice_server false error b
          ≡ done (notify_all "Voice server error" "Voice server is not running" "warning" b))
unfolding voice_task voice_binds voice_failed stop_voice_server
second_fails other dh error a = (_, refl, refl, refl, refl, refl)

-- Two starts of the voice server of which the second comes before the goroutine of the first has run:
-- both leave a goroutine. Where the second one then cannot bind its socket, the status says with that
-- error that no voice server runs; the first one runs all the same, but the application knows only the
-- second, and a stop does nothing but complain.
pub second_start_hides_first :
    (error : String) (a : Application)
    → a.admin.voice_status.is_running ≡ false
    → let ch = a.signals.made in
      let both = start_voice_server (start_voice_server a) in
      (lookup a.next both.voice_tasks ≡ some (ch, spawned))
      × (lookup (suc a.next) both.voice_tasks ≡ some (suc ch, spawned))
      × ((b : Application) × (c : Application) × (run_voice a.next ch none both ≡ done b)
          × (run_voice (suc a.next) (suc ch) (some error) b ≡ done c)
          × (c.admin.voice_status ≡ failed error a.admin.voice_status)
          × (c.voice_server ≡ some (suc both.next))
          × (lookup both.next c.voices ≡ some (listen new_server))
          × (stop_voice_server false error c
              ≡ done (notify_all "Voice server error" "Voice server is not running" "warning" c)))
unfolding start_voice_server make_signal
second_start_hides_first error a idle =
    let ch = a.signals.made in
    let both = start_voice_server (start_voice_server a) in
    let (c, runs, status, known, first, stops) =
      second_fails (suc a.next) (suc ch) error (voice_started a.next ch both) in
    (
      grind (map_laws, idle),
      grind (map_laws, idle),
      (
        voice_started a.next ch both,
        c,
        run_voice_lem a.next ch both,
        runs,
        ground (arith, idle, status),
        known,
        grind (map_laws, first),
        stops,
      ),
    )

-- Where the socket of the voice server cannot be closed, its status keeps saying that it runs, and the
-- next stop panics, since it closes the server's own stop channel again.
pub failed_stop_then_panics :
    (error : String) (again : Bool) (a : Application) (n : ℕ) (v : Server)
    → AreOpen a.signals
    → a.admin.voice_status.is_running ≡ true
    → a.voice_server ≡ some n
    → lookup n a.voices ≡ some v
    → v.running ≡ true
    → v.stop_closed ≡ false
    → v.bound ≡ true
    → (b : Application) × (stop_voice_server true error a ≡ done b)
      × (b.admin.voice_status ≡ record a.admin.voice_status { error = error })
      × (stop_voice_server again error b ≡ panicked)
unfolding stop_voice_server stop_known_voice stop
failed_stop_then_panics error again a n v o runs k f running_v open_v bound_v =
    let (s, closed, still_open, _) = close_signal_lem "voice" a.signals o in
    let (t, closed_again, _, _) = close_signal_lem "voice" s still_open in
    let w : Server = record v { stop_closed = true } in
    let b : Application = notify_all "Voice server error" "Could stop start Voice server" "error" (
      with_voice (record a.admin.voice_status { error = error })
        (record a { signals = s; voices = insert n w a.voices })) in
    (b, ground arith, refl, grind map_laws)
