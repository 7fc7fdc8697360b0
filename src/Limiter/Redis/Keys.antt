-- ===== src/Limiter/Redis/Keys.antt =====
-- The keys of the buckets and of their timestamps are all different.
use llm_request_balancer.Common.{
  ◌≡◌, refl, sym, ap, ◌∙◌, ◌≢◌, false, arith, String, concat, str_eq, str_eq_iff,
}
use Prim.Native.String
use Prim.Native.String.{slice, len}
use text.Mathlib.TextLemmas.{append_assoc, append_cancel_left}
use text.Mathlib.TextPositions.{slice-append_left}
use llm_request_balancer.Limiter.Redis.Scripts.{RedisTokenBucket, get_bucket_key, get_timestamp_key}

str_eq-false : (s t : String) → (s ≢ t) → str_eq s t ≡ false
str_eq-false s t h = ground (arith, str_eq_iff s t, h)

concat_cancel : (s t u : String) → concat s t ≡ concat s u → t ≡ u
unfolding concat
concat_cancel s t u h = append_cancel_left s t u h

bucket_start : (k : String) → slice (concat "bucket:" k) 0 7 ≡ "bucket:"
unfolding concat
bucket_start k = slice-append_left "bucket:" k

timestamp_start : (k : String) → slice (concat "timestamp:" k) 0 7 ≡ "timesta"
unfolding concat
timestamp_start k =
    ap (λ s. slice s 0 7) (append_assoc "timesta" "mp:" k)
    ∙ slice-append_left "timesta" (String.◌++◌ "mp:" k)

the_starts : str_eq "bucket:" "timesta" ≡ false
unfolding str_eq
the_starts = refl

starts_differ : (s t : String) → concat "bucket:" s ≢ concat "timestamp:" t
starts_differ s t h = absurd (ground (arith, the_starts, (str_eq_iff "bucket:" "timesta").1 same))
  where
    same : ◌≡◌ {A = String.String} "bucket:" "timesta"
    same = sym (bucket_start s) ∙ ap (λ u. slice u 0 7) h ∙ timestamp_start t

module _ {F : Type 0} (rl : RedisTokenBucket F) where
  pub bucket-timestamp :
      (k j : String) → str_eq (get_bucket_key rl k) (get_timestamp_key rl j) ≡ false
  unfolding get_bucket_key get_timestamp_key
  bucket-timestamp k j =
      str_eq-false (get_bucket_key rl k) (get_timestamp_key rl j)
        (λ h. starts_differ k j (concat_cancel rl.key_prefix _ _ h))

  pub timestamp-bucket :
      (k j : String) → str_eq (get_timestamp_key rl k) (get_bucket_key rl j) ≡ false
  unfolding get_bucket_key get_timestamp_key
  timestamp-bucket k j =
      str_eq-false (get_timestamp_key rl k) (get_bucket_key rl j)
        (λ h. starts_differ j k (sym (concat_cancel rl.key_prefix _ _ h)))

  pub bucket-bucket :
      (k j : String)
      → str_eq k j ≡ false
      → str_eq (get_bucket_key rl k) (get_bucket_key rl j) ≡ false
  unfolding get_bucket_key
  bucket-bucket k j d = str_eq-false (get_bucket_key rl k) (get_bucket_key rl j) (λ h. absurd (
      ground (
        arith,
        d,
        (str_eq_iff k j).1 (concat_cancel "bucket:" k j (concat_cancel rl.key_prefix _ _ h)),
      )))

  pub timestamp-timestamp :
      (k j : String)
      → str_eq k j ≡ false
      → str_eq (get_timestamp_key rl k) (get_timestamp_key rl j) ≡ false
  unfolding get_timestamp_key
  timestamp-timestamp k j d = str_eq-false (get_timestamp_key rl k) (get_timestamp_key rl j) (λ h.
      absurd (
        ground (
          arith,
          d,
          (str_eq_iff k j).1 (concat_cancel "timestamp:" k j (concat_cancel rl.key_prefix _ _ h)),
        )))
