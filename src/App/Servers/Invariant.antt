-- ===== src/App/Servers/Invariant.antt =====
-- What holds of the application between two steps, and that the goroutines keep it.
use vcs_srs_server.Srs.Auth.{Attempt, blocked, done, panicked}
use vcs_srs_server.Voice.Server.{Server}
use vcs_srs_server.App.Signals.{AreOpen}
use vcs_srs_server.App.Servers.{
  Application, Phase, and_then, made_server, serving_with, set_status, spawned,
}
use vcs_srs_server.Control.Server.{ControlServer}
use vcs_srs_server.Base.{
  ℕ, ◌≡◌, Bool, true, false, ◌&&◌, ◌||◌, Option, none, some, nat_eq, string_eq, Map, lookup, subst,
}

-- The goroutine does not serve yet.
abbrev pub is_launching : Phase → Bool
is_launching spawned = true
is_launching made_server = true
is_launching set_status = true
is_launching (serving_with n) = false

-- The goroutine has made its server.
abbrev pub has_made : Phase → Bool
has_made spawned = false
has_made made_server = true
has_made set_status = true
has_made (serving_with n) = true

abbrev pub IsKnown : Option ℕ → Type 0
IsKnown known = (n : ℕ) × (known ≡ some n)

-- The application knows an HTTP server when its status says that one runs, and once a goroutine has
-- made one.
pub record HttpInv (is_running : Bool) (known : Option ℕ) (tasks : Map ℕ Phase) : Type 0 where
  pub if_running : is_running ≡ true → IsKnown known
  pub if_made :
      (task : ℕ) (p : Phase) → lookup task tasks ≡ some p → has_made p ≡ true → IsKnown known

abbrev pub IsVoice : Option ℕ → Map ℕ Server → Type 0
IsVoice known voices = (n : ℕ) × (v : Server) × (known ≡ some n) × (lookup n voices ≡ some v)

-- So with the voice server. One that runs has its own stop channel open; at most one goroutine is on
-- its way to Listen, and the server that it has made does not run yet.
pub record VoiceInv (is_running : Bool) (known : Option ℕ) (voices : Map ℕ Server)
    (tasks : Map ℕ (ℕ × Phase)) : Type 0 where
  pub if_running : is_running ≡ true → IsVoice known voices
  pub if_made :
      (task ch : ℕ) (p : Phase)
      → lookup task tasks ≡ some (ch, p)
      → has_made p ≡ true
      → IsVoice known voices
  pub open_if_running :
      (n : ℕ) (v : Server) → lookup n voices ≡ some v → v.running ≡ true → v.stop_closed ≡ false
  pub fresh_if_launching :
      (task ch n : ℕ) (p : Phase) (v : Server)
      → lookup task tasks ≡ some (ch, p)
      → has_made p ≡ true
      → is_launching p ≡ true
      → known ≡ some n
      → lookup n voices ≡ some v
      → (v.running ≡ false) × (v.stop_closed ≡ false)
  pub one_launch :
      (task other ch dh : ℕ) (p q : Phase)
      → lookup task tasks ≡ some (ch, p)
      → lookup other tasks ≡ some (dh, q)
      → is_launching p ≡ true
      → is_launching q ≡ true
      → task ≡ other

-- The mutex of the control server is free, no Stop hangs, and after a Stop it does not run.
abbrev pub IsStoppable : ControlServer → Type 0
IsStoppable c =
    (c.locked ≡ false) × (c.stop_hangs ≡ false) × ((c.stop_once_done && c.is_running) ≡ false)

-- One of its gRPC servers is there.
abbrev pub has_server : ControlServer → Bool
has_server c = c.has_client_grpc_server || c.has_control_grpc_server

abbrev pub IsFree : Option ControlServer → Type 0
IsFree none = Unit {0}
IsFree (some c) = has_server c ≡ true → c.locked ≡ false

-- A control server that runs by its status can be stopped; the mutex of one with a gRPC server is free.
pub record ControlInv (is_running : Bool) (server : Option ControlServer) : Type 0 where
  pub if_running : is_running ≡ true → (c : ControlServer) × (server ≡ some c) × IsStoppable c
  pub served : IsFree server

pub record Inv (a : Application) : Type 0 where
  pub signals_open : AreOpen a.signals
  pub http : HttpInv a.admin.http_status.is_running a.http_server a.http_tasks
  pub voice : VoiceInv a.admin.voice_status.is_running a.voice_server a.voices a.voice_tasks
  pub control : ControlInv a.admin.control_status.is_running a.control_server

-- The attempt comes to an end, and the result satisfies the predicate.
abbrev pub Returns : {A : Type 0} → (A → Type 0) → Attempt A → Type 0
Returns P (done x) = P x
Returns P panicked = ⊥
Returns P blocked = ⊥

pub Returns-and_then :
    {A B : Type 0} (P : A → Type 0) (Q : B → Type 0) (m : Attempt A) (f : A → Attempt B)
    → Returns P m
    → ((x : A) → P x → Returns Q (f x))
    → Returns Q (and_then m f)
Returns-and_then P Q (done x) f h k = k x h
Returns-and_then P Q panicked f h k = h
Returns-and_then P Q blocked f h k = h

pub Returns-result :
    {A : Type 0} (P : A → Type 0) (m : Attempt A) (x : A) → Returns P m → m ≡ done x → P x
Returns-result P m x h e = subst (Returns P) e h
