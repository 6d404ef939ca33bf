-- ===== src/App/Servers/Stopping.antt =====
-- What StopServer does to the servers and their status.
use vcs_srs_server.Srs.Auth.{Attempt, DistributionMode, blocked, done, panicked}
use vcs_srs_server.App.Signals.{close_signal_lem}
use vcs_srs_server.App.Servers.{Application, ServiceStatus, stopped}
use vcs_srs_server.App.Servers.Control.{stop_control_server, stop_known_control}
use vcs_srs_server.App.Servers.Voice.{stop_voice_server}
use vcs_srs_server.App.Servers.Http.{shut_http, stop_http_server}
use vcs_srs_server.App.Servers.Commands.{
  StopAnswers, has_control, has_voice, is_any_running, stop_control_part, stop_server,
  stop_voice_part,
}
use vcs_srs_server.App.Servers.HttpSteps.{stop_http_server-Inv}
use vcs_srs_server.App.Servers.VoiceSteps.{stop_known_voice_lem, stop_open, stop_voice_server-Inv}
use vcs_srs_server.App.Servers.ControlSteps.{stop_free}
use vcs_srs_server.App.Servers.Invariant.{Inv, Returns, Returns-and_then}
use vcs_srs_server.App.Servers.Reach.{Reach}
use vcs_srs_server.Base.{
  String, ◌≡◌, refl, ap, ◌∙◌, inl, inr, Bool, true, false, not, ◌&&◌, none, some, arith,
  if◌then◌else◌, nat_eq, string_eq, Bool-cases, Option-cases, lookup, lookup-insert, if_rule,
}

-- The server that the application knows serves: it is not shut, it runs.
abbrev pub serves_http : Application → Bool
serves_http a = elim a.http_server [
  | none ↦ false
  | some n ↦ elim (lookup n a.https) [ none ↦ false | some h ↦ not h.shut ]
]

abbrev pub serves_voice : Application → Bool
serves_voice a = elim a.voice_server [
  | none ↦ false
  | some n ↦ elim (lookup n a.voices) [ none ↦ false | some v ↦ v.running ]
]

abbrev pub serves_control : Application → Bool
serves_control a = elim a.control_server [ none ↦ false | some c ↦ c.is_running ]

-- A status, and whether the server serves.
pub record Seen : Type 0 where
  pub status : ServiceStatus
  pub serves : Bool

pub record AllSeen : Type 0 where
  pub http : Seen
  pub voice : Seen
  pub control : Seen

abbrev pub seen : Application → AllSeen
seen a = record {
  http = record { status = a.admin.http_status; serves = serves_http a };
  voice = record { status = a.admin.voice_status; serves = serves_voice a };
  control = record { status = a.admin.control_status; serves = serves_control a };
}

-- A server that belongs to the mode and runs by its status serves no more, and its status says so,
-- without an error; of another both are as before.
abbrev pub stopped_if : Bool → Seen → Seen
stopped_if belongs s =
    if belongs && s.status.is_running
    then record { status = stopped s.status; serves = false }
    else s

Returns-both :
    {A : Type 0} (P Q : A → Type 0) (m : Attempt A)
    → Returns P m
    → Returns Q m
    → Returns (λ x. P x × Q x) m
Returns-both P Q (done x) p q = (p, q)
Returns-both P Q panicked p q = p
Returns-both P Q blocked p q = p

Returns-map :
    {A : Type 0} (P Q : A → Type 0) (m : Attempt A)
    → ((x : A) → P x → Q x)
    → Returns P m
    → Returns Q m
Returns-map P Q (done x) f p = f x p
Returns-map P Q panicked f p = p
Returns-map P Q blocked f p = p

-- What is seen of the servers, and the mode.
abbrev pub HasSeen : AllSeen → DistributionMode → Application → Type 0
HasSeen all mode b = (seen b ≡ all) × (b.distribution ≡ mode)

stop_voice_server-HasSeen :
    (error : String) (a : Application)
    → Inv a
    → Returns
        (HasSeen (record (seen a) { voice = stopped_if true (seen a).voice }) a.distribution)
        (stop_voice_server false error a)
unfolding stop_voice_server
stop_voice_server-HasSeen error a i = elim (Bool-cases a.admin.voice_status.is_running) [
  | inr e ↦ ground arith
  | inl e ↦
      let (s, closed, still_open, _) = close_signal_lem "voice" a.signals i.signals_open in
      let (n, v, k, f) = i.voice.if_running e in
      let (w, ends, down) = stop_open v (i.voice.open_if_running n v f) in
      let known = stop_known_voice_lem (record a { signals = s }) n v w k f ends in
      ground (arith, known, lookup-insert n n w a.voices)
]

stop_http_server-HasSeen :
    (answers : StopAnswers) (a : Application)
    → answers.shutdown ≡ none
    → Inv a
    → Returns
        (HasSeen (record (seen a) { http = stopped_if true (seen a).http }) a.distribution)
        (stop_http_server answers.shutdown a)
unfolding stop_http_server shut_http
stop_http_server-HasSeen answers a shuts i = elim (Bool-cases a.admin.http_status.is_running) [
  | inr e ↦ ground arith
  | inl e ↦
      let (s, closed, still_open, _) = close_signal_lem "http" a.signals i.signals_open in
      let (n, known) = i.http.if_running e in
      elim (Option-cases (lookup n a.https)) [
        | inl absent ↦ ground (arith, absent)
        | inr (h, there) ↦
            ground (arith, there, lookup-insert n n (record h { shut = true }) a.https)
      ]
]

stop_control_server-HasSeen :
    (a : Application)
    → Inv a
    → Returns
        (HasSeen (record (seen a) { control = stopped_if true (seen a).control }) a.distribution)
        (stop_control_server true a)
unfolding stop_control_server stop_known_control
stop_control_server-HasSeen a i = elim (Bool-cases a.admin.control_status.is_running) [
  | inr e ↦ ground arith
  | inl e ↦
      let (s, closed, still_open, _) = close_signal_lem "control" a.signals i.signals_open in
      let (c, k, free) = i.control.if_running e in let answered = stop_free c free in ground arith
]

-- What is seen after a StopServer in which nothing fails.
abbrev pub after_stop : DistributionMode → AllSeen → AllSeen
after_stop mode s = record {
  http = stopped_if (has_control mode) s.http;
  voice = stopped_if (has_voice mode) s.voice;
  control = stopped_if (has_control mode) s.control;
}

abbrev after_voice : DistributionMode → AllSeen → AllSeen
after_voice mode s = record s { voice = stopped_if (has_voice mode) s.voice }

-- Nothing fails in a StopServer.
pub record IsClean (answers : StopAnswers) : Type 0 where
  pub closes : answers.close_fails ≡ false
  pub shuts : answers.shutdown ≡ none
  pub ends : answers.calls_end ≡ true

stop_voice_part-HasSeen :
    (answers : StopAnswers) (a : Application)
    → IsClean answers
    → Inv a
    → Returns
        (λ b. Inv b × HasSeen (after_voice a.distribution (seen a)) a.distribution b)
        (stop_voice_part answers a)
stop_voice_part-HasSeen answers a clean i = elim (Bool-cases (has_voice a.distribution)) [
  | inl v ↦
      rw (v, clean.closes)
        (Returns-both _ _ (stop_voice_server false answers.close_error a)
          (stop_voice_server-Inv answers.close_error a i)
          (stop_voice_server-HasSeen answers.close_error a i))
  | inr v ↦ rw v (i, (refl, refl))
]

abbrev with_control_stopped : AllSeen → AllSeen
with_control_stopped s = record s { control = stopped_if true s.control }

stop_control_part-HasSeen :
    (answers : StopAnswers) (a : Application)
    → IsClean answers
    → Inv a
    → Returns
        (HasSeen
          (record (after_stop a.distribution (seen a)) { voice = (seen a).voice })
          a.distribution)
        (stop_control_part answers a)
stop_control_part-HasSeen answers a clean i = elim (Bool-cases (has_control a.distribution)) [
  | inl c ↦
      rw (c, clean.ends)
        (Returns-and_then _ _ (stop_http_server answers.shutdown a) (stop_control_server true)
          (Returns-both _ _ (stop_http_server answers.shutdown a)
            (stop_http_server-Inv answers.shutdown a i)
            (stop_http_server-HasSeen answers a clean.shuts i))
          (λ b (kept, (status, mode)).
            Returns-map _ _ (stop_control_server true b)
              (λ c (next, still). (next ∙ ap with_control_stopped status, still ∙ mode))
              (stop_control_server-HasSeen b kept)))
  | inr c ↦ rw c (refl, refl)
]

after_parts :
    (mode : DistributionMode) (s t : AllSeen)
    → t ≡ after_voice mode s
    → record (after_stop mode t) { voice = t.voice } ≡ after_stop mode s
after_parts mode s t e = rw e refl

pub stop_server-HasSeen :
    (answers : StopAnswers) (a : Application)
    → IsClean answers
    → Inv a
    → Returns (λ b. seen b ≡ after_stop a.distribution (seen a)) (stop_server answers a)
unfolding stop_server
stop_server-HasSeen answers a clean i =
    if_rule (Returns (λ b. seen b ≡ after_stop a.distribution (seen a))) (is_any_running a) _ _
      (λ e.
        Returns-and_then _ _ (stop_voice_part answers a) (stop_control_part answers)
          (stop_voice_part-HasSeen answers a clean i)
          (λ b (kept, (status, mode)).
            Returns-map _ _ (stop_control_part answers b)
              (λ c (next, still).
                next ∙ rw mode (after_parts a.distribution (seen a) (seen b) status))
              (stop_control_part-HasSeen answers b clean kept)))
      (λ e. ground arith)
