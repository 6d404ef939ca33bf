-- ===== src/Reconnection/Waiting.antt =====
-- When the loop ends, and how long it waits.
use vcs_srs_server.Reconnection.{End, connected, gave_up, handle_reconnection, rounds, stopped}
use vcs_srs_server.Base.{
  ℕ, zero, suc, ◌+◌, ◌*◌, ◌^◌, ◌≤◌, ◌<◌, min, ◌≡◌, refl, inl, inr, Bool, true, false, not, ◌&&◌,
  some, arith, ltb, leb, if◌then◌else◌, Bool-cases,
}

-- The wait after attempt `k`, and all waits before it.
abbrev pub wait_after : ℕ → ℕ
wait_after k = min (2 ^ k) 128

abbrev pub waited : ℕ → ℕ
waited zero = 0
waited (suc k) = waited k + wait_after k

pow-pos : (k : ℕ) → 1 ≤ 2 ^ k
pow-pos zero = omega arith
pow-pos (suc k) = omega (arith, pow-pos k)

full_wait : (k : ℕ) → wait_after (suc (suc (suc (suc (suc (suc (suc k))))))) ≡ 128
full_wait k = omega (arith, pow-pos k)

next_wait :
    (k : ℕ)
    → (if ltb (wait_after k) 128 then wait_after k * 2 else wait_after k) ≡ wait_after (suc k)
next_wait zero = refl
next_wait (suc zero) = refl
next_wait (suc (suc zero)) = refl
next_wait (suc (suc (suc zero))) = refl
next_wait (suc (suc (suc (suc zero)))) = refl
next_wait (suc (suc (suc (suc (suc zero))))) = refl
next_wait (suc (suc (suc (suc (suc (suc zero)))))) = refl
next_wait (suc (suc (suc (suc (suc (suc (suc k))))))) =
    ground (arith, full_wait k, full_wait (suc k))

waited_mono : (k m : ℕ) → k ≤ m → waited k ≤ waited m
waited_mono k zero h = ground arith
waited_mono k (suc m) h = ground (arith, waited_mono k m)

-- The sum over all twenty attempts.
waited_bound : (k : ℕ) → k ≤ 20 → waited k ≤ 1791
waited_bound k h = let all : waited 20 ≡ 1791 = refl in omega (arith, waited_mono k 20 h, all)

module _ (stops connects : ℕ → Bool) where
  -- Each of the first `k` attempts found the client not stopped, and failed.
  abbrev pub all_failed : ℕ → Bool
  all_failed zero = true
  all_failed (suc k) = all_failed k && not (stops k) && not (connects k)

  -- What attempt `k` found.
  abbrev pub EndsAt : End → ℕ → Type 0
  EndsAt stopped k = (stops k ≡ true) × (k ≤ 20)
  EndsAt connected k = (stops k ≡ false) × (connects k ≡ true) × (k < 20)
  EndsAt gave_up k = (stops k ≡ false) × (k ≡ 20)

  rounds_end :
      (fuel k : ℕ)
      → fuel + k ≡ 21
      → all_failed k ≡ true
      → k ≤ 20
      → (e : End) × (last : ℕ) × (rounds stops connects fuel (wait_after k) k (waited k)
          ≡ some (e, waited last))
        × (all_failed last ≡ true)
        × EndsAt e last
  unfolding rounds
  rounds_end zero k enough failed few = absurd (omega arith)
  rounds_end (suc fuel) k enough failed few = elim (Bool-cases (stops k)) [
    | inl s ↦ (stopped, k, ground (arith, s), failed, (s, few))
    | inr s ↦ elim (Bool-cases (leb 20 k)) [
      | inl l ↦ (gave_up, k, ground (arith, s, l), failed, (s, ground arith))
      | inr l ↦ elim (Bool-cases (connects k)) [
        | inl c ↦ (connected, k, ground (arith, s, l, c), failed, (s, c, ground arith))
        | inr c ↦
            let (e, last, same, before, end) =
              rounds_end fuel (suc k) (omega arith) (ground (arith, s, c)) (ground arith) in
            (e, last, ground (arith, s, l, c, next_wait k, same), before, end)
      ]
    ]
  ]

  EndsAt-le : (e : End) (k : ℕ) → EndsAt e k → k ≤ 20
  EndsAt-le stopped k h = h.1
  EndsAt-le connected k h = omega (arith, h.2)
  EndsAt-le gave_up k h = omega (arith, h.1)

  -- Whatever stops the client and whichever attempt succeeds, the loop ends: at the first attempt that
  -- finds the client stopped or connects, or else after twenty failures, when it gives up. By then it
  -- has slept min(2^i, 128) seconds after each failed attempt i, 1791 seconds at most.
  pub handle_reconnection_ends :
      (e : End) × (last : ℕ) × (handle_reconnection stops connects ≡ some (e, waited last))
      × (all_failed last ≡ true)
      × EndsAt e last
      × (waited last ≤ 1791)
  unfolding handle_reconnection
  handle_reconnection_ends =
      let (e, last, same, before, end) = rounds_end 21 zero refl refl (omega arith) in
      (e, last, same, before, end, waited_bound last (EndsAt-le e last end))
