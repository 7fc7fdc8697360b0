-- ===== src/Llm/Retry/Backoff.antt =====
-- `calculateBackoff` before its jitter, at 64 bits.
use llm_request_balancer.Common.{
  ℕ, zero, suc, ◌*◌, ◌^◌, ◌≤◌, ◌<◌, ◌≡◌, refl, ◌∙◌, ◌⊎◌, inl, inr, false, arith, ltb, if◌then◌else◌,
  ltb→lt, lt→ltb, Bool-cases,
}
use native.Mathlib.Nat.{pow-le-pow_right}
use llm_request_balancer.Common.Int.{ℤ, pos, times_ℤ}
use llm_request_balancer.Common.Int64.{two_63, wrap_int64, shift_one, times_int64}
use llm_request_balancer.Llm.Retry.{base_backoff}

wrap_small : (n : ℕ) → n < two_63 → wrap_int64 (pos n) ≡ pos n
unfolding wrap_int64
wrap_small n h = ground arith

pow_small : (a : ℕ) → 2 ^ a < two_63 → a < 63
pow_small a h = elim (Bool-cases (ltb a 63)) [
  | inl l ↦ ltb→lt a 63 l
  | inr f ↦
      let large : 63 ≤ a = ground arith in
      let grown : 2 ^ 63 ≤ 2 ^ a = pow-le-pow_right (omega arith) large in
      absurd (omega (arith, grown, h))
]

times_pos : (a b : ℕ) → times_ℤ (pos a) (pos b) ≡ pos (a * b)
times_pos a b = ground arith

shift_small : (a : ℕ) → 2 ^ a < two_63 → shift_one a ≡ pos (2 ^ a)
unfolding shift_one
shift_small a h = rw (lt→ltb a 64 (omega (arith, pow_small a h))) (wrap_small (2 ^ a) h)

times_zero : (z : ℤ) → times_ℤ (pos 0) z ≡ pos 0
times_zero z = ground arith

-- A product that fits is exact.
times_shift : (a n : ℕ) → n * 2 ^ a < two_63 → times_int64 (pos n) (shift_one a) ≡ pos (n * 2 ^ a)
unfolding times_int64
times_shift a zero h = rw (times_zero (shift_one a)) (wrap_small 0 (omega arith) ∙ ground arith)
times_shift a (suc n) h =
    let small : 2 ^ a < two_63 = grind (arith, h) in
    rw (shift_small a small, times_pos (suc n) (2 ^ a)) (wrap_small (suc n * 2 ^ a) h)

times_nought : (n : ℕ) → times_int64 (pos n) (pos 0) ≡ pos 0
unfolding times_int64
times_nought n = rw (times_pos n 0) (wrap_small (n * 0) (omega arith) ∙ ground arith)

shift_late : (a : ℕ) → ltb a 64 ≡ false → shift_one a ≡ pos 0
unfolding shift_one
shift_late a h = rw h refl

-- While the doubled backoff fits into 64 bits, it is the backoff, up to the maximum. From the 64th
-- retry on the shift gives 0, and there is no pause at all.
pub base_backoff_cases :
    (attempt least most : ℕ)
    → ((two_63 ≤ least * 2 ^ attempt)
        ⊎ (base_backoff attempt (pos least) (pos most)
            ≡ pos (if ltb most (least * 2 ^ attempt) then most else least * 2 ^ attempt)))
      × ((attempt < 64) ⊎ (base_backoff attempt (pos least) (pos most) ≡ pos 0))
unfolding base_backoff
base_backoff_cases attempt least most = (fits, late)
  where
    fits :
        (two_63 ≤ least * 2 ^ attempt)
        ⊎ (base_backoff attempt (pos least) (pos most)
            ≡ pos (if ltb most (least * 2 ^ attempt) then most else least * 2 ^ attempt))
    fits = elim (Bool-cases (ltb (least * 2 ^ attempt) two_63)) [
      | inl l ↦
          inr
            (rw (times_shift attempt least (ltb→lt (least * 2 ^ attempt) two_63 l)) (ground arith))
      | inr f ↦ inl (ground arith)
    ]

    late : (attempt < 64) ⊎ (base_backoff attempt (pos least) (pos most) ≡ pos 0)
    late = elim (Bool-cases (ltb attempt 64)) [
      | inl l ↦ inl (ltb→lt attempt 64 l)
      | inr f ↦ inr (rw (shift_late attempt f, times_nought least) (ground arith))
    ]
