-- ===== src/Logger.antt =====
-- internal/utils/logger.go: the levels, the entries that the functions log, the timer and the ids.
-- What zerolog does with an entry is left out.
pub mod Contexts
use llm_request_balancer.Common.{ℕ, Option, none, some, [], String, concat, if◌then◌else◌, str_eq}
use llm_request_balancer.Common.Dict.{Dict, insert}
use llm_request_balancer.Common.Time.{Time, Duration, sub_time}

-- The levels of zerolog that the code names.
pub data Level : Type 0 where
  debug info warn error fatal : Level

-- A `LogLevel` is a text.
unfoldable pub parse_log_level : String → Level
parse_log_level level =
    if str_eq level "debug"
    then debug
    else if str_eq level "info"
    then info
    else if str_eq level "warn"
    then warn
    else if str_eq level "error"
    then error
    else if str_eq level "fatal"
    then fatal
    else info

-- `V` is `interface{}`; the fields are those that are added to the event.
pub record Entry (V : Type 0) : Type 0 where
  pub level : Level
  pub message : String
  pub fields : Dict V

module _ {V : Type 0} where
  -- A nil map adds nothing.
  abbrev pub fields_of : Option (Dict V) → Dict V
  fields_of none = []
  fields_of (some fields) = fields

  -- `Debug`, `Info` and `Warn`, with a context or without.
  unfoldable pub log_entry : Level → String → Option (Dict V) → Entry V
  log_entry level msg fields = record { level = level; message = msg; fields = fields_of fields }

  -- `fields["error"] = err.Error()`: a map that is not nil is the caller's own.
  unfoldable pub with_error : (String → V) → String → Option (Dict V) → Dict V
  with_error as_value err_text fields = insert "error" (as_value err_text) (fields_of fields)

  -- `Error`, `Fatal` and `ErrorContext`: the entry, and the caller's map behind the call.
  unfoldable pub log_error :
      (String → V) → Level → String → String → Option (Dict V) → Entry V × Option (Dict V)
  unfolding with_error log_entry
  log_error as_value level err_text msg none =
      (log_entry level msg (some (with_error as_value err_text none)), none)
  log_error as_value level err_text msg (some fields) =
      let fields' = with_error as_value err_text (some fields) in
      (log_entry level msg (some fields'), some fields')

pub record Timer : Type 0 where
  pub name : String
  pub start_time : Time

unfoldable pub new_timer : String → Time → Timer
new_timer name now = record { name = name; start_time = now }

-- The elapsed time, and the entry: `as_value` is `elapsed.Milliseconds()`.
unfoldable pub stop : {V : Type 0} → (Duration → V) → Time → Timer → Duration × Entry V
unfolding log_entry
stop as_value now t =
    let elapsed = sub_time now t.start_time in
    (
      elapsed,
      log_entry info (concat t.name " completed")
          (some (insert "duration_ms" (as_value elapsed) [])),
    )

-- The id: two readings of the clock, in nanoseconds, the second as the seed of `Intn(1000000)`.
-- `hex` is the verb `%x`.
unfoldable pub generate_short_id : (ℕ → String) → (ℕ → ℕ) → ℕ → ℕ → String
generate_short_id hex intn nanos seed = concat (hex nanos) (concat "-" (hex (intn seed)))
