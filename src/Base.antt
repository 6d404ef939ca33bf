-- ===== src/Base.antt =====
-- Names shared by all modules: those of the libraries, passed on, and the helpers of three children.
mod Tests
mod Lists
mod Maps
pub mod Bits
unfoldable pub use Tests.*
pub use Lists.*
unfoldable pub use Maps.*
pub use Prim.Native.Nat.{ℕ, zero, suc, ◌+◌, ◌-◌, ◌*◌, ◌/◌, ◌%◌, ◌^◌, ◌≤◌, ◌<◌, min}
pub use Prim.Native.String.{String}
pub use mathlib.Core.Path.{◌≡◌, refl, sym, ap, subst, ◌∙◌}
pub use mathlib.Core.Logic.{◌≢◌, ◌↔◌, ◌⊎◌, inl, inr}
pub use mathlib.Core.Bool.{Bool, true, false, not, ◌&&◌, ◌||◌}
pub use mathlib.Core.Option.{Option, none, some}
pub use mathlib.Core.List.{List, [], ◌∷◌, ◌++◌, map}
pub use native.Mathlib.Omega.{arith}
pub use text.Mathlib.TextEquality.{eq_iff}

-- A uuid.UUID is an array of 16 bytes that the server only compares; here it is the 128-bit number
-- that the array stands for.
abbrev pub Uuid : Type 0
Uuid = ℕ

-- Instants and durations, in nanoseconds.
abbrev pub Time : Type 0
Time = ℕ

abbrev pub second : ℕ
second = 1_000_000_000

-- Time.Unix, as a word of 64 bits: the whole seconds since 1970, which is 62,135,596,800 seconds after
-- Go's zero time.
abbrev pub unix : Time → ℕ
unix t = (t / second + (2 ^ 64 - 62_135_596_800)) % 2 ^ 64

abbrev pub minute : ℕ
minute = 60 * second

-- What a Go call does that may hit a nil dereference or an index out of range.
pub data Outcome {ℓ} (A : Type ℓ) : Type ℓ where
  returns : A → Outcome A
  panics : Outcome A

-- What a map holds after an assignment or a deletion.
pub ruleset map_laws = (arith, lookup-insert, lookup-delete, eq_iff)
