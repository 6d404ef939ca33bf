-- ===== src/App/Servers/VoiceParts.antt =====
-- The invariant of the voice server, change by change of its goroutines and servers.
use vcs_srs_server.App.Servers.{Phase, made_server, serving_with, set_status, spawned}
use vcs_srs_server.Voice.Server.{Server, listen, new_server, stop}
use vcs_srs_server.App.Servers.Invariant.{IsVoice, VoiceInv, is_launching}
use vcs_srs_server.Base.{
  ℕ, ◌≡◌, refl, Bool, true, false, Option, some, arith, returns, nat_eq, string_eq, Map, lookup,
  insert, delete, lookup-insert, lookup-delete,
}

-- No goroutine is on its way to Listen.
abbrev pub IsQuiet : Map ℕ (ℕ × Phase) → Type 0
IsQuiet tasks =
    (task ch : ℕ) (p : Phase) → lookup task tasks ≡ some (ch, p) → is_launching p ≡ false

-- One goroutine goes on to a phase; where that is another than before, no other is on its way.
module _ (r : Bool) (known : Option ℕ) (voices : Map ℕ Server) (tasks : Map ℕ (ℕ × Phase)) where
  pub VoiceInv-delete :
      (task : ℕ) → VoiceInv r known voices tasks → VoiceInv r known voices (delete task tasks)
  VoiceInv-delete task i =
      let at = λ (other : ℕ). lookup-delete task other tasks in
      record {
        if_running = i.if_running;
        if_made = λ other ch p h. i.if_made other ch p (ground (arith, at other));
        open_if_running = i.open_if_running;
        fresh_if_launching =
            λ other ch n p v h. i.fresh_if_launching other ch n p v (ground (arith, at other));
        one_launch = λ t u ch dh p q h k.
            i.one_launch t u ch dh p q (ground (arith, at t)) (ground (arith, at u));
      }

  pub VoiceInv-stopped : VoiceInv r known voices tasks → VoiceInv false known voices tasks
  VoiceInv-stopped i = record {
    if_running = λ e. cc;
    if_made = i.if_made;
    open_if_running = i.open_if_running;
    fresh_if_launching = i.fresh_if_launching;
    one_launch = i.one_launch;
  }

  pub VoiceInv-spawned :
      (task ch : ℕ)
      → VoiceInv r known voices tasks
      → IsQuiet tasks
      → VoiceInv r known voices (insert task (ch, spawned) tasks)
  VoiceInv-spawned task ch i quiet =
      let at = λ (other : ℕ). lookup-insert task other (ch, spawned) tasks in
      record {
        if_running = i.if_running;
        if_made = λ other dh p h m. i.if_made other dh p (ground (arith, at other)) m;
        open_if_running = i.open_if_running;
        fresh_if_launching =
            λ other dh n p v h m. i.fresh_if_launching other dh n p v (ground (arith, at other)) m;
        one_launch =
            λ t u dh eh p q h k l m. ground (arith, at t, at u, quiet t dh p, quiet u eh q);
      }

  pub VoiceInv-made :
      (task ch n : ℕ)
      → VoiceInv r known voices tasks
      → lookup task tasks ≡ some (ch, spawned)
      → VoiceInv r (some n) (insert n new_server voices) (insert task (ch, made_server) tasks)
  unfolding new_server
  VoiceInv-made task ch n i before =
      let at = λ (other : ℕ). lookup-insert task other (ch, made_server) tasks in
      let voice_at = λ (m : ℕ). lookup-insert n m new_server voices in
      let this : IsVoice (some n) (insert n new_server voices) =
        (n, new_server, refl, ground (arith, voice_at n)) in
      record {
        if_running = λ e. this;
        if_made = λ other dh p h m. this;
        open_if_running = λ m v h run. ground (arith, voice_at m, i.open_if_running m v);
        fresh_if_launching = λ other dh m p v h k l e f. ground (arith, voice_at m);
        one_launch = λ t u dh eh p q h k l m. ground (
          arith,
          at t,
          at u,
          i.one_launch t u dh eh p q,
          i.one_launch task u ch eh spawned q,
          i.one_launch t task dh ch p spawned,
        );
      }

  pub VoiceInv-set :
      (task ch : ℕ)
      → VoiceInv r known voices tasks
      → lookup task tasks ≡ some (ch, made_server)
      → VoiceInv true known voices (insert task (ch, set_status) tasks)
  VoiceInv-set task ch i before =
      let at = λ (other : ℕ). lookup-insert task other (ch, set_status) tasks in
      let this = i.if_made task ch made_server before refl in
      record {
        if_running = λ e. this;
        if_made = λ other dh p h m. this;
        open_if_running = i.open_if_running;
        fresh_if_launching = λ other dh n p v h k l e f. ground (
          arith,
          at other,
          i.fresh_if_launching other dh n p v,
          i.fresh_if_launching task ch n made_server v,
        );
        one_launch = λ t u dh eh p q h k l m. ground (
          arith,
          at t,
          at u,
          i.one_launch t u dh eh p q,
          i.one_launch task u ch eh made_server q,
          i.one_launch t task dh ch p made_server,
        );
      }

  -- The goroutine that was on its way binds the socket of the known server.
  pub VoiceInv-bound :
      (task ch n : ℕ) (v : Server)
      → VoiceInv r known voices tasks
      → lookup task tasks ≡ some (ch, set_status)
      → known ≡ some n
      → lookup n voices ≡ some v
      → VoiceInv r known (insert n (listen v) voices) (insert task (ch, serving_with n) tasks)
  unfolding listen
  VoiceInv-bound task ch n v i before k f =
      let at = λ (other : ℕ). lookup-insert task other (ch, serving_with n) tasks in
      let voice_at = λ (m : ℕ). lookup-insert n m (listen v) voices in
      let this : IsVoice known (insert n (listen v) voices) =
        (n, listen v, k, ground (arith, voice_at n)) in
      let fresh = i.fresh_if_launching task ch n set_status v before refl refl k f in
      record {
        if_running = λ e. this;
        if_made = λ other dh p h m. this;
        open_if_running = λ m w h run. ground (arith, voice_at m, i.open_if_running m w);
        fresh_if_launching = λ other dh m p w h l q e g.
            ground (arith, at other, i.one_launch other task dh ch p set_status);
        one_launch =
            λ t u dh eh p q h l m o. ground (arith, at t, at u, i.one_launch t u dh eh p q);
      }

  -- The known server stops, with its stop channel closed if it ran.
  pub VoiceInv-stop :
      (n : ℕ) (v w : Server)
      → VoiceInv r known voices tasks
      → known ≡ some n
      → lookup n voices ≡ some v
      → stop false v ≡ returns (false, w)
      → VoiceInv r known (insert n w voices) tasks
  unfolding stop
  VoiceInv-stop n v w i k f stops =
      let voice_at = λ (m : ℕ). lookup-insert n m w voices in
      let this : IsVoice known (insert n w voices) = (n, w, k, ground (arith, voice_at n)) in
      record {
        if_running = λ e. this;
        if_made = λ other dh p h m. this;
        open_if_running = λ m x h run. ground (arith, voice_at m, i.open_if_running m x);
        fresh_if_launching = λ other dh m p x h l q e g.
            ground (arith, voice_at m, i.fresh_if_launching other dh m p v h l q e);
        one_launch = i.one_launch;
      }
