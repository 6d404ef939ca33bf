-- ===== src/Control/Server/Monitor.antt =====
-- monitorHealth of control/server.go: what clients read of the health of the server.
use vcs_srs_server.Control.Health.{
  HealthServer, ServingStatus, check, not_serving, service_unknown, serving, set_serving_status,
  unknown,
}
use vcs_srs_server.Control.Health.Laws.{check-set_serving_status, reported}
use vcs_srs_server.State.Server.{ServerState}
use vcs_srs_server.Base.{
  String, ◌≡◌, refl, ◌↔◌, ◌⊎◌, Bool, true, false, ◌&&◌, Option, none, some, List, [], ◌∷◌, ◌++◌,
  arith, if◌then◌else◌, ◌==◌, nat_eq, string_eq, All,
}

-- GetServerState, which is the same in the three services.
unfoldable pub get_server_state : Option ServerState → ServingStatus
get_server_state none = service_unknown
get_server_state (some _) = serving

-- One look of the monitor: whether IsRunning says so, and what the services tell of themselves.
pub record Look : Type 0 where
  pub is_running : Bool
  pub srs_status : ServingStatus
  pub auth_status : ServingStatus
  pub control_status : ServingStatus

abbrev pub is_serving : ServingStatus → Bool
is_serving serving = true
is_serving not_serving = false
is_serving unknown = false
is_serving service_unknown = false

abbrev pub system_status : Look → ServingStatus
system_status l =
    if is_serving l.srs_status && is_serving l.control_status && is_serving l.auth_status
    then serving
    else not_serving

abbrev pub told_of_control : Bool → Look → HealthServer → HealthServer
told_of_control is_control l h =
    if is_control then set_serving_status "control" l.control_status h else h

unfoldable pub monitor_round : Bool → Look → HealthServer → HealthServer
monitor_round is_control l h = set_serving_status "" (system_status l) (
    told_of_control is_control l
      (set_serving_status "auth" l.auth_status (set_serving_status "srs" l.srs_status h)))

-- The loop, over what its looks find.
unfoldable pub monitor_health : Bool → List Look → HealthServer → HealthServer
monitor_health is_control [] h = h
monitor_health is_control (l ∷ ls) h =
    let rest = monitor_health is_control ls (monitor_round is_control l h) in
    if l.is_running then rest else h

abbrev pub Reports : Bool → HealthServer → Look → HealthServer → Type 0
Reports is_control first l h =
    (check "srs" h ≡ reported l.srs_status)
    × (check "auth" h ≡ reported l.auth_status)
    × (check "control" h
        ≡ (if is_control then reported l.control_status else check "control" first))
    × ((check "" h ≡ serving)
        ↔ ((l.srs_status ≡ serving) × (l.auth_status ≡ serving) × (l.control_status ≡ serving)))
    × ((check "" h ≡ serving) ⊎ (check "" h ≡ not_serving))

reported_system : (l : Look) → reported (system_status l) ≡ system_status l
reported_system l = ground arith

-- What a service is answered to be after a round.
check-monitor_round :
    (is_control : Bool) (l : Look) (h : HealthServer) (asked : String)
    → check asked (monitor_round is_control l h) ≡ (
        if "" == asked
        then system_status l
        else if "control" == asked && is_control
        then reported l.control_status
        else if "auth" == asked
        then reported l.auth_status
        else if "srs" == asked
        then reported l.srs_status
        else check asked h)
unfolding monitor_round
check-monitor_round is_control l h asked =
    let srs = set_serving_status "srs" l.srs_status h in
    let auth = set_serving_status "auth" l.auth_status srs in
    let told = told_of_control is_control l auth in
    let at_system = (check-set_serving_status "" asked (system_status l) told).0 in
    let at_control = (check-set_serving_status "control" asked l.control_status auth).0 in
    let at_auth = (check-set_serving_status "auth" asked l.auth_status srs).0 in
    let at_srs = (check-set_serving_status "srs" asked l.srs_status h).0 in
    ground (arith, reported_system l)

monitor_round-Reports :
    (is_control : Bool) (l : Look) (h : HealthServer)
    → Reports is_control h l (monitor_round is_control l h)
monitor_round-Reports is_control l h =
    let said = check-monitor_round is_control l h in
    let system = said "" in
    (
      said "srs",
      said "auth",
      ground (arith, said "control"),
      (λ e. ground arith, λ e. ground arith),
      ground arith,
    )

monitor_health_step :
    (is_control : Bool) (l : Look) (looks : List Look) (h : HealthServer)
    → l.is_running ≡ true
    → monitor_health is_control (l ∷ looks) h
      ≡ monitor_health is_control looks (monitor_round is_control l h)
unfolding monitor_health
monitor_health_step is_control l looks h r = rw r refl

monitor_health_stopped :
    (is_control : Bool) (looks : List Look) (h : HealthServer)
    → All (λ (k : Look). k.is_running ≡ false) looks
    → monitor_health is_control looks h ≡ h
unfolding monitor_health
monitor_health_stopped is_control [] h a = refl
monitor_health_stopped is_control (k ∷ looks) h a = rw a.0 refl

-- A look does not change what is said of the control service on a node that has none.
control_kept :
    (is_control : Bool) (l k : Look) (first h : HealthServer)
    → Reports is_control (monitor_round is_control k first) l h
    → Reports is_control first l h
control_kept true l k first h r = r
control_kept false l k first h (srs, auth, control, system, either) = (
  srs,
  auth,
  ground (arith, control, check-monitor_round false k first "control"),
  system,
  either,
)

-- However often the monitor has looked before: once it has looked at a running server, Check answers
-- for the services srs and auth what they told, for control what it told on a control server and on
-- another node what was answered at the beginning, and for the whole server that it serves exactly when
-- the three services do, until the next look at a running server. A look at a stopped one changes
-- nothing.
pub monitor_health_lem :
    (is_control : Bool) (before after : List Look) (l : Look) (h : HealthServer)
    → All (λ (k : Look). k.is_running ≡ true) before
    → l.is_running ≡ true
    → All (λ (k : Look). k.is_running ≡ false) after
    → Reports is_control h l (monitor_health is_control (before ++ l ∷ after) h)
monitor_health_lem is_control [] after l h b r a =
    let once = monitor_health_step is_control l after h r in
    let then_stopped = monitor_health_stopped is_control after (monitor_round is_control l h) a in
    simp (once, then_stopped) (monitor_round-Reports is_control l h)
monitor_health_lem is_control (k ∷ before) after l h b r a =
    simp (monitor_health_step is_control k (before ++ l ∷ after) h b.0) (
      control_kept is_control l k h _
        (monitor_health_lem is_control before after l (monitor_round is_control k h) b.1 r a))
