-- ===== src/Tests/Logger.antt =====
-- The contexts of the logger, over loggers that are known by whether they are disabled.
use llm_request_balancer.Common.{◌≡◌, refl, Bool, true, false, Option, none, some, []}
use llm_request_balancer.Logger.{info}
use llm_request_balancer.Logger.Contexts.{
  logger, zerolog_key, with_value, value, Zerolog, IsZerolog, with_request_id, with_logger,
  get_logger, log_in_context, with_request_id_silences, ContextValue,
}

abbrev given_logger : Option (ContextValue Bool) → Bool
given_logger (some (logger l)) = l
given_logger _ = true

abbrev zerolog : Zerolog Bool
zerolog = record {
  ctx = λ c. given_logger (value zerolog_key c);
  with_str = λ k v l. l;
  with_context = λ l c. with_value zerolog_key (logger l) c;
  global = false;
}

zerolog-IsZerolog : IsZerolog zerolog (λ l. l)
unfolding value
zerolog-IsZerolog = record {
  none_given = λ c h. rw h refl;
  derived = λ k v l h. h;
  given = λ l c h n. h;
  others = λ l c. refl;
}

-- An enabled logger is given, and is not used.
given_and_silent :
    let c = with_request_id zerolog "h1" (with_logger zerolog false []) in
    ((log_in_context zerolog {V = Unit {0}} info "hello" none c).0 ≡ true)
    × (get_logger zerolog c ≡ false)
unfolding value
given_and_silent =
    with_request_id_silences {V = Unit {0}} zerolog (λ l. l) zerolog-IsZerolog "h1" "hello" info
      none false [] refl
