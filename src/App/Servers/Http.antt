-- ===== src/App/Servers/Http.antt =====
-- app/server_control.go: starting and stopping the HTTP server.
use vcs_srs_server.Srs.Auth.{Attempt, done, panicked}
use vcs_srs_server.App.Signals.{close_signal, make_signal}
use vcs_srs_server.App.Servers.{
  Application, HttpServer, Phase, and_then, emit_admin, failed, made_server, notify_all, running,
  serving_with, set_status, spawned, stopped, with_http,
}
use vcs_srs_server.Base.{
  ℕ, suc, String, true, false, not, Option, none, some, if◌then◌else◌, nat_eq, string_eq, lookup,
  insert, delete,
}

-- startHTTPServer
unfoldable pub start_http_server : Application → Application
start_http_server a =
    if a.admin.http_status.is_running
    then notify_all "HTTP server already running" "HTTP server is already running" "warning" a
    else emit_admin (record a {
      signals = make_signal "http" a.signals;
      http_tasks = insert a.next spawned a.http_tasks;
      next = suc a.next;
    })

-- ListenAndServe came back with an error.
unfoldable pub http_failed : String → Application → Application
http_failed e a =
    let told = notify_all "HTTP server error" "Could not start HTTP Server." "error" a in
    with_http (failed e told.admin.http_status) told

abbrev pub end_http : ℕ → Application → Application
end_http task a = record a { http_tasks = delete task a.http_tasks }

-- ListenAndServe of the server: it binds unless there is an error, and serves until it is shut, which
-- is an error that the goroutine passes over. `error` is another error of it, if any.
unfoldable pub http_serves : ℕ → ℕ → Option String → Application → Application
http_serves task n error a = elim error [
  | some e ↦ http_failed e (end_http task a)
  | none ↦ elim (lookup n a.https) [
    | none ↦ a
    | some h ↦
        if h.shut
        then end_http task a
        else record a { http_tasks = insert task (serving_with n) a.http_tasks }
  ]
]

-- The next stretch of the goroutine.
unfoldable pub http_task : ℕ → Phase → Option String → Application → Attempt Application
http_task task spawned error a =
    let server : HttpServer = record { address = a.app.settings.servers.http; shut = false } in
    done (record a {
      https = insert a.next server a.https;
      http_server = some a.next;
      http_tasks = insert task made_server a.http_tasks;
      next = suc a.next;
    })
http_task task made_server error a = done (
    with_http (running a.admin.http_status)
      (record a { http_tasks = insert task set_status a.http_tasks }))
http_task task set_status error a = elim a.http_server [
  | none ↦ panicked
  | some n ↦ done (http_serves task n error a)
]
http_task task (serving_with n) error a = done (http_serves task n error a)

-- http.Server.Shutdown, also where it comes back with an error.
abbrev pub shutdown : ℕ → Application → Application
shutdown n a = record a {
  https = elim (lookup n a.https) [
    | none ↦ a.https
    | some h ↦ insert n (record h { shut = true }) a.https
  ];
}

-- From the call of Shutdown on, with what it answers.
unfoldable pub shut_http : Option String → Application → Attempt Application
shut_http answer a = elim a.http_server [
  | none ↦ panicked
  | some n ↦
      let shut = shutdown n a in
      elim answer [
        | some e ↦ done (
            notify_all "HTTP server error" "Could not stop HTTP Server." "error"
              (emit_admin (with_http (record shut.admin.http_status { error = e }) shut)))
        | none ↦ done (emit_admin (with_http (stopped shut.admin.http_status) shut))
      ]
]

-- stopHTTPServer
unfoldable pub stop_http_server : Option String → Application → Attempt Application
stop_http_server answer a =
    if not a.admin.http_status.is_running
    then done (notify_all "HTTP server error" "HTTP server is not running" "warning" a)
    else and_then (close_signal "http" a.signals)
        (λ signals. shut_http answer (record a { signals = signals }))
