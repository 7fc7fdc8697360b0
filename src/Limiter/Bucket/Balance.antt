-- ===== src/Limiter/Bucket/Balance.antt =====
-- What a call hands out and leaves is covered by what was there and what time brought in.
use llm_request_balancer.Common.{
  ◌-◌, ◌≤◌, ◌≡◌, refl, inl, inr, true, ◌&&◌, arith, String, Bool-cases, Option-cases, ℕ, ◌+◌, ◌*◌,
  ap,
}
use llm_request_balancer.Common.Int.{ℤ, pos, ◌≤ℤ◌, leb_ℤ, negsuc, pos_part}
use llm_request_balancer.Common.Float.{Float64, nought, ◌≼◌, IsRate, IsMonotone}
use llm_request_balancer.Common.Time.{Time, sub_time, before}
use llm_request_balancer.Common.Dict.{lookup}
use llm_request_balancer.Limiter.Bucket.{
  TokenBucket, refill, consume, allow_n, get_tokens_available_n,
}
use llm_request_balancer.Limiter.Bucket.Reserve.{
  Reservation, Pending, reserve_n, fulfil, take_reserved, notify, add_waiter, drop_waiter,
  cancel_at, waiter_key_of,
}
use llm_request_balancer.Limiter.Bucket.Calls.{
  Call, allows, reserves, counts, fulfils, cancels, step, Timely, granted,
}
use llm_request_balancer.Limiter.Bucket.Level.{IsBounded, refill-IsBounded}

pub split_time : (a b c s : ℕ) → a ≤ b → b ≤ c → (c - a) * s ≡ (b - a) * s + (c - b) * s
split_time a b c s h k = rw e (omega arith)
  where
    e : c - a ≡ (b - a) + (c - b)
    e = omega arith

-- Laws of rounded arithmetic, as that of `float64`: where the result is capped by a size, a refill or
-- a subtraction favours the caller by at most `slack` of that size. `units` measures a number that is
-- not negative in fractions of a token, `token` to one, and `speed` a rate in these per nanosecond.
pub record IsRounded (F : Type 0) ⦃fl : Float64 F⦄ (units speed : F → ℕ) (token : ℕ) (slack : ℤ → ℕ)
    : Type 0 where
  pub grow :
      (size : ℤ) (x : F) (d : ℕ) (r : F)
      → pos 0 ≤ℤ size
      → nought ≼ x
      → x ≼ fl.of_int size
      → IsRate r
      → units (fl.min (fl.of_int size) (fl.add x (fl.mul (fl.seconds (pos d)) r)))
        ≤ units x + d * speed r + slack size
  pub spend :
      (size : ℤ) (x : F) (n : ℕ)
      → x ≼ fl.of_int size
      → fl.of_int (pos n) ≼ x
      → units (fl.sub x (fl.of_int (pos n))) + n * token ≤ units x + slack size

module _ {F : Type 0} ⦃fl : Float64 F⦄ (laws : IsMonotone F) (units speed : F → ℕ) (token : ℕ)
    (slack : ℤ → ℕ) (rounded : IsRounded F units speed token slack) where
  -- The balance of a step: what it hands out and what is left is covered by what was there, by what
  -- the time that passed brought in, and by a gain from rounding.
  abbrev pub Balanced : TokenBucket F → ℕ → ℕ → TokenBucket F → Type 0
  Balanced tb n gain tb' =
      (n * token + units tb'.available_tokens
        ≤ units tb.available_tokens
          + (tb'.last_refill_time - tb.last_refill_time) * speed tb.tokens_per_second
          + gain)
      × (tb.last_refill_time ≤ tb'.last_refill_time)
      × (tb'.tokens_per_second ≡ tb.tokens_per_second)
      × (tb'.bucket_size ≡ tb.bucket_size)

  -- A call refills at most once, and takes tokens at most once.
  abbrev pub twice : TokenBucket F → ℕ
  twice tb = 2 * slack tb.bucket_size

  pub still-Balanced :
      (tb t : TokenBucket F) (gain : ℕ)
      → t.available_tokens ≡ tb.available_tokens
      → t.last_refill_time ≡ tb.last_refill_time
      → t.tokens_per_second ≡ tb.tokens_per_second
      → t.bucket_size ≡ tb.bucket_size
      → Balanced tb 0 gain t
  still-Balanced tb t gain e f g k = (omega (arith, ap units e), omega arith, g, k)

  -- A change that leaves the level, its time, the rate and the size alone keeps the balance.
  moved-Balanced :
      (tb t t' : TokenBucket F) (n gain : ℕ)
      → t'.available_tokens ≡ t.available_tokens
      → t'.last_refill_time ≡ t.last_refill_time
      → t'.tokens_per_second ≡ t.tokens_per_second
      → t'.bucket_size ≡ t.bucket_size
      → Balanced tb n gain t
      → Balanced tb n gain t'
  moved-Balanced tb t t' n gain e f g k b = (rw (e, f) b.0, rw f b.1, rw g b.2, rw k b.3)

  looser-Balanced :
      (tb t : TokenBucket F) (n gain more : ℕ)
      → gain ≤ more
      → Balanced tb n gain t
      → Balanced tb n more t
  looser-Balanced tb t n gain more h b = (omega (arith, b.0), b.1, b.2, b.3)

  refill-Balanced :
      (now : Time) (tb : TokenBucket F)
      → tb.last_refill_time ≤ now
      → IsBounded tb
      → Balanced tb 0 (slack tb.bucket_size) (refill now tb)
  unfolding refill
  refill-Balanced now tb h b = (
    rw (← e) (
        omega (
          arith,
          rounded.grow tb.bucket_size tb.available_tokens (now - tb.last_refill_time)
              tb.tokens_per_second b.size b.nonneg b.capped b.rate,
        )),
    h,
    refl,
    refl,
  )
    where
      e : pos (now - tb.last_refill_time) ≡ sub_time now tb.last_refill_time
      e = ground arith

  refill-capped :
      (now : Time) (tb : TokenBucket F)
      → tb.last_refill_time ≤ now
      → IsBounded tb
      → (refill now tb).available_tokens ≼ fl.of_int tb.bucket_size
  unfolding refill
  refill-capped now tb h b = (refill-IsBounded laws now tb h b).capped

  spent-Balanced :
      (cost : ℤ) (gain : ℕ) (tb t : TokenBucket F)
      → pos 0 ≤ℤ cost
      → t.available_tokens ≼ fl.of_int tb.bucket_size
      → fl.le (fl.of_int cost) t.available_tokens ≡ true
      → gain ≤ slack tb.bucket_size
      → Balanced tb 0 gain t
      → Balanced tb (pos_part cost) (twice tb) (consume cost t)
  unfolding consume
  spent-Balanced (pos n) gain tb t h c k l b =
      (omega (arith, b.0, rounded.spend tb.bucket_size t.available_tokens n c k), b.1, b.2, b.3)
  spent-Balanced (negsuc n) gain tb t h c k l b = absurd (omega arith)

  allow_n-Balanced :
      (key : String) (now : Time) (cost : ℤ) (tb : TokenBucket F)
      → tb.last_refill_time ≤ now
      → IsBounded tb
      → Balanced tb (granted tb (allows key now cost)) (twice tb) (allow_n key now cost tb).0
  unfolding granted allow_n
  allow_n-Balanced key now cost tb h b =
      let full = refill-Balanced now tb h b in
      let loose =
        looser-Balanced tb (refill now tb) 0 (slack tb.bucket_size) (twice tb) (omega arith) full in
      elim (Bool-cases (leb_ℤ cost (pos 0))) [
        | inl bad ↦ rw (bad, allow_n, granted) (still-Balanced tb tb (twice tb) refl refl refl refl)
        | inr good ↦ elim (Bool-cases (fl.le (fl.of_int cost) (refill now tb).available_tokens)) [
          | inl enough ↦
              rw (good, allow_n, granted)
                (rw (enough, allow_n, granted)
                  (spent-Balanced cost (slack tb.bucket_size) tb (refill now tb) (ground arith)
                    (refill-capped now tb h b) enough (omega arith) full))
          | inr short ↦ rw (good, allow_n, granted) (rw (short, allow_n, granted) loose)
        ]
      ]

  reserve_n-Balanced :
      (key : String) (now later : Time) (id : String) (cost : ℤ) (tb : TokenBucket F)
      → tb.last_refill_time ≤ now
      → IsBounded tb
      → Balanced tb
          (granted tb (reserves key now later id cost))
          (twice tb)
          (reserve_n key now later id cost tb).0
  unfolding granted reserve_n
  reserve_n-Balanced key now later id cost tb h b =
      let full = refill-Balanced now tb h b in
      let loose =
        looser-Balanced tb (refill now tb) 0 (slack tb.bucket_size) (twice tb) (omega arith) full in
      elim (Bool-cases (leb_ℤ cost (pos 0))) [
        | inl bad ↦
            rw (bad, reserve_n, granted) (still-Balanced tb tb (twice tb) refl refl refl refl)
        | inr good ↦
            elim (Bool-cases
              (fl.le (fl.sub (fl.of_int cost) (refill now tb).available_tokens) nought)) [
                | inl enough ↦
                    rw (good, reserve_n, granted)
                      (rw (enough, reserve_n, granted)
                        (spent-Balanced cost (slack tb.bucket_size) tb (refill now tb)
                          (ground arith) (refill-capped now tb h b) (laws.le_of_sub _ cost enough)
                          (omega arith) full))
                | inr short ↦
                    rw (good, reserve_n, granted)
                      (rw (short, reserve_n, granted) (waiting (refill now tb) loose))
              ]
      ]
    where
      waiting :
          (t : TokenBucket F)
          → Balanced tb 0 (twice tb) t
          → Balanced tb 0 (twice tb) (add_waiter (waiter_key_of key id) id t)
      waiting t b = unfold add_waiter in b

  notify-Balanced :
      (tb t : TokenBucket F) (n gain : ℕ) (p : Pending)
      → Balanced tb n gain t
      → Balanced tb n gain (notify p t)
  unfolding notify drop_waiter
  notify-Balanced tb t n gain p b = elim (Option-cases (lookup p.waiter_key t.waiters)) [
    | inl e ↦ rw (e, notify) b
    | inr (ch, e) ↦ rw (e, notify) b
  ]

  fulfil-Balanced :
      (p : Pending) (tb : TokenBucket F)
      → pos 0 ≤ℤ p.token_cost
      → IsBounded tb
      → Balanced tb (granted tb (fulfils p)) (twice tb) (fulfil p tb)
  unfolding granted fulfil take_reserved
  fulfil-Balanced p tb h c =
      elim (Bool-cases (fl.le (fl.of_int p.token_cost) tb.available_tokens)) [
        | inl enough ↦
            rw (enough, fulfil, take_reserved, granted)
              (notify-Balanced tb (consume p.token_cost tb) (pos_part p.token_cost) (twice tb) p (
                spent-Balanced p.token_cost 0 tb tb h c.capped enough (omega arith)
                  (still-Balanced tb tb 0 refl refl refl refl)))
        | inr short ↦
            rw (short, fulfil, take_reserved, granted)
              (still-Balanced tb tb (twice tb) refl refl refl refl)
      ]

  cancel_at-Balanced :
      (now : Time) (r : Reservation) (tb : TokenBucket F)
      → Balanced tb 0 (twice tb) (cancel_at now r tb).0
  unfolding cancel_at drop_waiter
  cancel_at-Balanced now r tb = elim (Bool-cases (r.valid && before now r.time_to_process)) [
    | inr off ↦ rw (off, cancel_at) (still-Balanced tb tb (twice tb) refl refl refl refl)
    | inl live ↦ elim (Option-cases (lookup r.reservation_id tb.waiters_by_id)) [
      | inl e ↦
          rw (live, cancel_at)
            (rw (e, cancel_at) (still-Balanced tb tb (twice tb) refl refl refl refl))
      | inr (key, e) ↦
          rw (live, cancel_at)
            (rw (e, cancel_at)
              (still-Balanced tb (drop_waiter key r.reservation_id tb) (twice tb) refl refl refl
                refl))
    ]
  ]

  pub step-Balanced :
      (tb : TokenBucket F) (c : Call)
      → Timely tb c
      → IsBounded tb
      → Balanced tb (granted tb c) (twice tb) (step tb c)
  unfolding step
  step-Balanced tb (allows key now cost) h b = allow_n-Balanced key now cost tb h b
  step-Balanced tb (reserves key now later id cost) h b =
      reserve_n-Balanced key now later id cost tb h b
  step-Balanced tb (counts key now) h b =
      unfold granted get_tokens_available_n in
      looser-Balanced tb (refill now tb) 0 (slack tb.bucket_size) (twice tb) (omega arith)
        (refill-Balanced now tb h b)
  step-Balanced tb (fulfils p) h b = fulfil-Balanced p tb h b
  step-Balanced tb (cancels now r) h b = unfold granted in cancel_at-Balanced now r tb
