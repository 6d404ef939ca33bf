-- ===== src/App/Signals.antt =====
-- The stop channels of app/server_control.go: StopSignals names the channels that are in use. A channel
-- is known by its number, and `made` of them were made so far. To close one twice is a panic.
use vcs_srs_server.Srs.Auth.{Attempt, done, panicked}
use vcs_srs_server.Base.{
  ℕ, suc, ◌<◌, String, ◌≡◌, refl, inl, inr, false, none, some, List, [], ◌∷◌, arith, eq_iff,
  if◌then◌else◌, ◌==◌, nat_eq, string_eq, Option-cases, All, contains, Map, lookup, insert, delete,
  lookup-insert, lookup-delete,
}

pub record Signals : Type 0 where
  pub stop_signals : Map String ℕ
  pub closed : List ℕ
  pub made : ℕ

abbrev pub no_signals : Signals
no_signals = record { stop_signals = []; closed = []; made = 0 }

-- make(chan struct{}), put under the name.
unfoldable pub make_signal : String → Signals → Signals
make_signal name s = record {
  stop_signals = insert name s.made s.stop_signals;
  closed = s.closed;
  made = suc s.made;
}

-- Signal stop: close the channel of the name and delete it.
unfoldable pub close_signal : String → Signals → Attempt Signals
close_signal name s = elim (lookup name s.stop_signals) [
  | none ↦ done s
  | some ch ↦
      if contains s.closed ch
      then panicked
      else done (record s { closed = ch ∷ s.closed; stop_signals = delete name s.stop_signals })
]

-- Channels in use are open, differ by name, and were made.
pub record AreOpen (s : Signals) : Type 0 where
  pub closed_made : All (λ ch. ch < s.made) s.closed
  pub used_made : (name : String) (ch : ℕ) → lookup name s.stop_signals ≡ some ch → ch < s.made
  pub used_open :
      (name : String) (ch : ℕ) → lookup name s.stop_signals ≡ some ch → contains s.closed ch ≡ false
  pub names_differ :
      (name other : String) (ch : ℕ)
      → lookup name s.stop_signals ≡ some ch
      → lookup other s.stop_signals ≡ some ch
      → name ≡ other

below_suc : (chs : List ℕ) (n : ℕ) → All (λ ch. ch < n) chs → All (λ ch. ch < suc n) chs
below_suc [] n h = tt
below_suc (ch ∷ chs) n h = (omega (arith, h.0), below_suc chs n h.1)

fresh_not_contained : (chs : List ℕ) (n : ℕ) → All (λ ch. ch < n) chs → contains chs n ≡ false
fresh_not_contained [] n h = refl
fresh_not_contained (ch ∷ chs) n h = ground (arith, fresh_not_contained chs n h.1)

pub no_signals-AreOpen : AreOpen no_signals
unfolding lookup
no_signals-AreOpen = record {
  closed_made = tt;
  used_made = λ name ch h. cc;
  used_open = λ name ch h. cc;
  names_differ = λ name other ch h k. cc;
}

pub make_signal-AreOpen : (name : String) (s : Signals) → AreOpen s → AreOpen (make_signal name s)
unfolding make_signal
make_signal-AreOpen name s o =
    let at = λ (asked : String). lookup-insert name asked s.made s.stop_signals in
    record {
      closed_made = below_suc s.closed s.made o.closed_made;
      used_made = λ asked ch h. ground (arith, at asked, o.used_made asked ch);
      used_open = λ asked ch h. ground (
        arith,
        at asked,
        o.used_open asked ch,
        fresh_not_contained s.closed s.made o.closed_made,
      );
      names_differ = λ asked other ch h k. ground (
        arith,
        at asked,
        at other,
        eq_iff name asked,
        eq_iff name other,
        o.used_made asked ch,
        o.used_made other ch,
        o.names_differ asked other ch,
      );
    }

-- The name's channel is gone, every other is as before.
pub close_signal_lem :
    (name : String) (s : Signals)
    → AreOpen s
    → (t : Signals) × (close_signal name s ≡ done t)
      × AreOpen t
      × ((other : String)
          → lookup other t.stop_signals
            ≡ (if name == other then none else lookup other s.stop_signals))
unfolding close_signal
close_signal_lem name s o = elim (Option-cases (lookup name s.stop_signals)) [
  | inl e ↦ (s, ground arith, o, λ other. ground (arith, eq_iff name other))
  | inr (ch, e) ↦
      let at = λ (asked : String). lookup-delete name asked s.stop_signals in
      (
        record s { closed = ch ∷ s.closed; stop_signals = delete name s.stop_signals },
        ground (arith, o.used_open name ch e),
        record {
          closed_made = (o.used_made name ch e, o.closed_made);
          used_made = λ asked c h. ground (arith, at asked, o.used_made asked c);
          used_open = λ asked c h. ground (
            arith,
            at asked,
            eq_iff name asked,
            o.used_open asked c,
            o.names_differ name asked c,
          );
          names_differ =
              λ asked other c h k. ground (arith, at asked, at other, o.names_differ asked other c);
        },
        at,
      )
]
