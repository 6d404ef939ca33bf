-- ===== src/App/Servers/HttpSteps.antt =====
-- The HTTP server: its start, its stop and its goroutine keep the invariant.
use vcs_srs_server.App.Signals.{close_signal_lem, make_signal-AreOpen}
use vcs_srs_server.App.Servers.{Application, Phase, made_server, serving_with, set_status, spawned}
use vcs_srs_server.App.Servers.Http.{
  http_failed, http_serves, http_task, shut_http, start_http_server, stop_http_server,
}
use vcs_srs_server.App.Servers.Invariant.{HttpInv, Inv, IsKnown, Returns, has_made}
use vcs_srs_server.Base.{
  ℕ, String, ◌≡◌, refl, inl, inr, Bool, true, false, not, Option, some, arith, ◌==◌, nat_eq,
  string_eq, Bool-cases, Map, lookup, insert, delete, if_rule, Option_rule, map_laws,
}

HttpInv-insert :
    (r : Bool) (known : Option ℕ) (tasks : Map ℕ Phase) (task : ℕ) (p : Phase)
    → HttpInv r known tasks
    → (has_made p ≡ true → IsKnown known)
    → HttpInv r known (insert task p tasks)
HttpInv-insert r known tasks task p i k = record {
  if_running = i.if_running;
  if_made = λ other q h m. elim (Bool-cases (task == other)) [
    | inl e ↦ k (grind map_laws)
    | inr e ↦ i.if_made other q (grind map_laws) m
  ];
}

HttpInv-delete :
    (r : Bool) (known : Option ℕ) (tasks : Map ℕ Phase) (task : ℕ)
    → HttpInv r known tasks
    → HttpInv r known (delete task tasks)
HttpInv-delete r known tasks task i = record {
  if_running = i.if_running;
  if_made = λ other q h m. i.if_made other q (grind map_laws) m;
}

-- With a server that the application knows, the status is free.
HttpInv-known :
    (r s : Bool) (known : Option ℕ) (tasks : Map ℕ Phase)
    → HttpInv r known tasks
    → (s ≡ true → IsKnown known)
    → HttpInv s known tasks
HttpInv-known r s known tasks i k = record { if_running = k; if_made = i.if_made }

HttpInv-stopped :
    (r : Bool) (known : Option ℕ) (tasks : Map ℕ Phase)
    → HttpInv r known tasks
    → HttpInv false known tasks
HttpInv-stopped r known tasks i = HttpInv-known r false known tasks i (λ e. cc)

pub start_http_server-Inv : (a : Application) → Inv a → Inv (start_http_server a)
unfolding start_http_server
start_http_server-Inv a i =
    if_rule Inv a.admin.http_status.is_running _ _
      (λ e. record {
        signals_open = i.signals_open;
        http = i.http;
        voice = i.voice;
        control = i.control;
      })
      (λ e. record {
        signals_open = make_signal-AreOpen "http" a.signals i.signals_open;
        http = HttpInv-insert _ _ a.http_tasks a.next spawned i.http (λ m. cc);
        voice = i.voice;
        control = i.control;
      })

http_serves-Inv :
    (task n : ℕ) (error : Option String) (a : Application)
    → Inv a
    → IsKnown a.http_server
    → Inv (http_serves task n error a)
unfolding http_serves http_failed
http_serves-Inv task n error a i k =
    let ended = HttpInv-delete _ _ a.http_tasks task i.http in
    Option_rule Inv error _ _
      (λ none_given.
        Option_rule Inv (lookup n a.https) _ _ (λ absent. i)
          (λ h known.
            if_rule Inv h.shut _ _
              (λ shut. record {
                signals_open = i.signals_open;
                http = ended;
                voice = i.voice;
                control = i.control;
              })
              (λ serves. record {
                signals_open = i.signals_open;
                http = HttpInv-insert _ _ a.http_tasks task (serving_with n) i.http (λ m. k);
                voice = i.voice;
                control = i.control;
              })))
      (λ e given. record {
        signals_open = i.signals_open;
        http = HttpInv-stopped _ _ (delete task a.http_tasks) ended;
        voice = i.voice;
        control = i.control;
      })

-- No stretch of the goroutine of the HTTP server panics.
pub http_task-Inv :
    (task : ℕ) (p : Phase) (error : Option String) (a : Application)
    → Inv a
    → lookup task a.http_tasks ≡ some p
    → Returns Inv (http_task task p error a)
unfolding http_task
http_task-Inv task spawned error a i at = record {
  signals_open = i.signals_open;
  http = record { if_running = λ r. (a.next, refl); if_made = λ other q h m. (a.next, refl) };
  voice = i.voice;
  control = i.control;
}
http_task-Inv task made_server error a i at =
    let k = i.http.if_made task made_server at refl in
    record {
      signals_open = i.signals_open;
      http =
          HttpInv-insert _ _ a.http_tasks task set_status
            (HttpInv-known _ true _ a.http_tasks i.http (λ e. k)) (λ m. k);
      voice = i.voice;
      control = i.control;
    }
http_task-Inv task set_status error a i at =
    let (n, e) = i.http.if_made task set_status at refl in
    Option_rule (Returns Inv) a.http_server _ _ (λ absent. cc)
      (λ n known. http_serves-Inv task n error a i (n, known))
http_task-Inv task (serving_with n) error a i at =
    http_serves-Inv task n error a i (i.http.if_made task (serving_with n) at refl)

shut_http-Inv :
    (answer : Option String) (a : Application)
    → Inv a
    → IsKnown a.http_server
    → Returns Inv (shut_http answer a)
unfolding shut_http
shut_http-Inv answer a i (n, k) =
    Option_rule (Returns Inv) a.http_server _ _ (λ absent. cc)
      (λ m known.
        Option_rule (Returns Inv) answer _ _
          (λ shut. record {
            signals_open = i.signals_open;
            http = HttpInv-stopped _ _ a.http_tasks i.http;
            voice = i.voice;
            control = i.control;
          })
          (λ e given. record {
            signals_open = i.signals_open;
            http = i.http;
            voice = i.voice;
            control = i.control;
          }))

-- Nor does a stop of it.
pub stop_http_server-Inv :
    (answer : Option String) (a : Application) → Inv a → Returns Inv (stop_http_server answer a)
unfolding stop_http_server
stop_http_server-Inv answer a i =
    if_rule (Returns Inv) (not a.admin.http_status.is_running) _ _
      (λ e. record {
        signals_open = i.signals_open;
        http = i.http;
        voice = i.voice;
        control = i.control;
      })
      (λ e.
        let (s, closed, still_open, _) = close_signal_lem "http" a.signals i.signals_open in
        rw closed (
          shut_http-Inv answer (record a { signals = s })
            (record {
              signals_open = still_open;
              http = i.http;
              voice = i.voice;
              control = i.control;
            })
            (i.http.if_running (ground arith))))
