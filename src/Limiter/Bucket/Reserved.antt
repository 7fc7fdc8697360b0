-- ===== src/Limiter/Bucket/Reserved.antt =====
-- What becomes of a reservation of `TokenBucket`: its waiter, its goroutine and its cancellation.
use llm_request_balancer.Common.{ℕ, ◌≡◌, ◌⊎◌, none, some, String}
use llm_request_balancer.Common.Time.{Time}
use llm_request_balancer.Common.Dict.{lookup}
use llm_request_balancer.Limiter.Bucket.{TokenBucket}
use llm_request_balancer.Limiter.Bucket.Reserve.{waiter_key_of}
use llm_request_balancer.Limiter.Bucket.Calls.{Call, allows, reserves, counts, fulfils, cancels}

module _ {F : Type 0} where
  -- The two maps of waiters agree: each id leads to a key that has a channel, and no key serves two.
  pub record IsLinked (tb : TokenBucket F) : Type 0 where
    pub linked :
        (id key : String)
        → lookup id tb.waiters_by_id ≡ some key
        → (ch : ℕ) × (lookup key tb.waiters ≡ some ch)
    pub unique :
        (id id' key : String)
        → lookup id tb.waiters_by_id ≡ some key
        → lookup id' tb.waiters_by_id ≡ some key
        → id ≡ id'

  -- What a call needs of the ids: a new reservation's key is not in use, and the id of a goroutine
  -- leads to its key, unless its waiter is gone.
  abbrev pub IsLegal : TokenBucket F → Call → Type 0
  IsLegal tb (allows key now cost) = Unit
  IsLegal tb (reserves key now later id cost) = lookup (waiter_key_of key id) tb.waiters ≡ none
  IsLegal tb (counts key now) = Unit
  IsLegal tb (fulfils p) =
      (lookup p.waiter_key tb.waiters ≡ none)
      ⊎ (lookup p.reservation_id tb.waiters_by_id ≡ some p.waiter_key)
  IsLegal tb (cancels now r) = Unit
