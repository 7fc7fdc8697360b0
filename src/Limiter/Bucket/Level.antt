-- ===== src/Limiter/Bucket/Level.antt =====
-- The level of a `TokenBucket` under its methods for a request at once.
use llm_request_balancer.Common.{
  ◌-◌, ◌≤◌, ◌≡◌, subst, ◌⊎◌, inl, inr, true, false, arith, String, Bool-cases, if◌then◌else◌,
}
use llm_request_balancer.Common.Int.{ℤ, pos, ◌≤ℤ◌, leb_ℤ}
use llm_request_balancer.Common.Float.{Float64, nought, ◌≼◌, IsRate, IsMonotone, two_62}
use llm_request_balancer.Common.Time.{Time, sub_time}
use llm_request_balancer.Limiter.Types.{LimiterConfig}
use llm_request_balancer.Limiter.Bucket.{TokenBucket, new_token_bucket, refill, consume, allow_n}

module _ {F : Type 0} ⦃fl : Float64 F⦄ where
  -- The level is between 0 and the size, for a rate and a size that are not negative.
  pub record IsBounded (tb : TokenBucket F) : Type 0 where
    pub rate : IsRate tb.tokens_per_second
    pub size : pos 0 ≤ℤ tb.bucket_size
    pub nonneg : nought ≼ tb.available_tokens
    pub capped : tb.available_tokens ≼ fl.of_int tb.bucket_size

  pub same_level :
      (tb tb' : TokenBucket F)
      → tb'.tokens_per_second ≡ tb.tokens_per_second
      → tb'.bucket_size ≡ tb.bucket_size
      → tb'.available_tokens ≡ tb.available_tokens
      → IsBounded tb
      → IsBounded tb'
  same_level tb tb' e f g b = record {
    rate = rw e b.rate;
    size = rw f b.size;
    nonneg = rw g b.nonneg;
    capped = rw (f, g) b.capped;
  }

module _ {F : Type 0} ⦃fl : Float64 F⦄ where
  -- The rate that a bucket gets, and a size that is given, or what a minute brings in, if `int` can
  -- hold that for sure.
  abbrev pub rate_of : LimiterConfig F → F
  rate_of c = if fl.le c.tokens_per_second nought then fl.of_int (pos 1) else c.tokens_per_second

  abbrev pub IsSized : LimiterConfig F → Type 0
  IsSized c =
      (leb_ℤ c.bucket_size (pos 0) ≡ false)
      ⊎ (fl.mul (rate_of c) (fl.of_int (pos 60)) ≼ fl.of_int two_62)

-- The bound, from the laws of the arithmetic.
module _ {F : Type 0} ⦃fl : Float64 F⦄ (laws : IsMonotone F) where
  elapsed_nonneg :
      (now last : Time) (r : F)
      → last ≤ now
      → IsRate r
      → nought ≼ fl.mul (fl.seconds (sub_time now last)) r
  elapsed_nonneg now last r h k =
      subst (λ d. nought ≼ fl.mul (fl.seconds d) r) e (laws.mul_seconds (now - last) r k)
    where
      e : pos (now - last) ≡ sub_time now last
      e = ground arith

  pub refill-IsBounded :
      (now : Time) (tb : TokenBucket F)
      → tb.last_refill_time ≤ now
      → IsBounded tb
      → IsBounded (refill now tb)
  unfolding refill
  refill-IsBounded now tb h b = record {
    rate = b.rate;
    size = b.size;
    nonneg = fits.0;
    capped = fits.1;
  }
    where
      grown :
          tb.available_tokens
          ≼ fl.add tb.available_tokens
              (fl.mul (fl.seconds (sub_time now tb.last_refill_time)) tb.tokens_per_second)
      grown =
          laws.add_grows _ _ b.nonneg
            (elapsed_nonneg now tb.last_refill_time tb.tokens_per_second h b.rate)

      fits :
          (nought
            ≼ fl.min (fl.of_int tb.bucket_size) (
                fl.add tb.available_tokens
                  (fl.mul (fl.seconds (sub_time now tb.last_refill_time)) tb.tokens_per_second)))
          × (fl.min (fl.of_int tb.bucket_size) (
                fl.add tb.available_tokens
                  (fl.mul (fl.seconds (sub_time now tb.last_refill_time)) tb.tokens_per_second))
              ≼ fl.of_int tb.bucket_size)
          × (fl.min (fl.of_int tb.bucket_size) (
                fl.add tb.available_tokens
                  (fl.mul (fl.seconds (sub_time now tb.last_refill_time)) tb.tokens_per_second))
              ≼ fl.add tb.available_tokens
                  (fl.mul (fl.seconds (sub_time now tb.last_refill_time)) tb.tokens_per_second))
      fits =
          laws.min_bounds nought _ _ (laws.of_int_mono _ _ b.size)
            (laws.le_trans _ _ _ b.nonneg grown)

  pub consume-IsBounded :
      (cost : ℤ) (tb : TokenBucket F)
      → pos 0 ≤ℤ cost
      → fl.of_int cost ≼ tb.available_tokens
      → IsBounded tb
      → IsBounded (consume cost tb)
  unfolding consume
  consume-IsBounded cost tb h k b = record {
    rate = b.rate;
    size = b.size;
    nonneg = laws.sub_nonneg tb.available_tokens cost k;
    capped = laws.le_trans _ _ _ (laws.sub_le tb.available_tokens cost h b.nonneg) b.capped;
  }

  -- Taking the tokens that a test has found leaves the level in range.
  pub taken-IsBounded :
      (cost : ℤ) (tb : TokenBucket F)
      → leb_ℤ cost (pos 0) ≡ false
      → fl.le (fl.of_int cost) tb.available_tokens ≡ true
      → IsBounded tb
      → IsBounded (consume cost tb)
  taken-IsBounded cost tb h k b = consume-IsBounded cost tb (ground arith) k b

  pub allow_n-IsBounded :
      (key : String) (now : Time) (cost : ℤ) (tb : TokenBucket F)
      → tb.last_refill_time ≤ now
      → IsBounded tb
      → IsBounded (allow_n key now cost tb).0
  unfolding allow_n
  allow_n-IsBounded key now cost tb h b =
      let full = refill-IsBounded now tb h b in
      elim (Bool-cases (leb_ℤ cost (pos 0))) [
        | inl bad ↦ rw (bad, allow_n) b
        | inr good ↦ elim (Bool-cases (fl.le (fl.of_int cost) (refill now tb).available_tokens)) [
          | inl enough ↦
              rw (good, allow_n)
                (rw (enough, allow_n) (taken-IsBounded cost (refill now tb) good enough full))
          | inr short ↦ rw (good, allow_n) (rw (short, allow_n) full)
        ]
      ]

  pub new_token_bucket-IsBounded :
      (c : LimiterConfig F) (now : Time)
      → (c.tokens_per_second ≼ nought) ⊎ IsRate c.tokens_per_second
      → IsSized c
      → IsBounded (new_token_bucket c now)
  unfolding new_token_bucket
  new_token_bucket-IsBounded c now h sized = record {
    rate = rate;
    size = size;
    nonneg = laws.of_int_mono (pos 0) _ size;
    capped = laws.of_int_mono _ _ (omega arith);
  }
    where
      rate : IsRate (new_token_bucket c now).tokens_per_second
      rate = elim (Bool-cases (fl.le c.tokens_per_second nought)) [
        | inl low ↦ rw (low, new_token_bucket) laws.one_rate
        | inr high ↦ elim h [ inl low ↦ cc | inr good ↦ rw (high, new_token_bucket) good ]
      ]

      size : pos 0 ≤ℤ (new_token_bucket c now).bucket_size
      size = elim (Bool-cases (leb_ℤ c.bucket_size (pos 0))) [
        | inl unset ↦
            rw (unset, new_token_bucket)
              (laws.to_int_nonneg _ (laws.mul_nonneg 60 _ rate)
                (elim sized [ inl set' ↦ cc | inr fits ↦ fits ]))
        | inr set' ↦ rw (set', new_token_bucket) (ground arith)
      ]
