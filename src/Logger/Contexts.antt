-- ===== src/Logger/Contexts.antt =====
-- internal/utils/logger.go: the loggers and the request ids in contexts. A context is the list of its
-- values; of zerolog the code uses the loggers `L`, which `Zerolog` stands for.
use llm_request_balancer.Common.{◌≡◌, refl, Bool, true, Option, none, some, List, [], ◌∷◌, String}
use llm_request_balancer.Common.Dict.{Dict}
use llm_request_balancer.Common.Time.{Time, Duration}
use llm_request_balancer.Logger.{
  Level, info, Entry, log_entry, log_error, parse_log_level, Timer, stop,
}

-- The key of zerolog, and those of the type `contextKey`.
pub data ContextKey : Type 0 where
  zerolog_key logger_key request_id_key : ContextKey

pub data ContextValue (L : Type 0) : Type 0 where
  logger : L → ContextValue L
  text : String → ContextValue L

abbrev pub Context : Type 0 → Type 0
Context L = List (ContextKey × ContextValue L)

abbrev pub with_value : {L : Type 0} → ContextKey → ContextValue L → Context L → Context L
with_value key v ctx = (key, v) ∷ ctx

-- `ctx.Value(key)`
unfoldable pub value : {L : Type 0} → ContextKey → Context L → Option (ContextValue L)
value key [] = none
value zerolog_key ((zerolog_key, v) ∷ ctx) = some v
value logger_key ((logger_key, v) ∷ ctx) = some v
value request_id_key ((request_id_key, v) ∷ ctx) = some v
value key ((_, v) ∷ ctx) = value key ctx

-- `zerolog.Ctx`, `With().Str(k, v).Logger()`, `WithContext`, and the global `log.Logger`.
pub record Zerolog (L : Type 0) : Type 0 where
  pub ctx : Context L → L
  pub with_str : String → String → L → L
  pub with_context : L → Context L → Context L
  pub global : L

module _ {L : Type 0} (z : Zerolog L) where
  unfoldable pub with_request_id : String → Context L → Context L
  with_request_id id c =
      z.with_context (z.with_str "request_id" id (z.ctx c)) (with_value request_id_key (text id) c)

  unfoldable pub with_logger : L → Context L → Context L
  with_logger l c = with_value logger_key (logger l) c

  unfoldable pub get_logger : Context L → L
  get_logger c = elim (value logger_key c) [
    | some (logger l) ↦ l
    | _ ↦ z.with_str "from" "context" z.global
  ]

  module _ {V : Type 0} where
    -- `DebugContext`, `InfoContext` and `WarnContext`: the logger that gets the entry, and the entry.
    unfoldable pub log_in_context : Level → String → Option (Dict V) → Context L → L × Entry V
    log_in_context level msg fields c = (z.ctx c, log_entry level msg fields)

    -- `ErrorContext`, with the caller's map behind the call.
    unfoldable pub error_in_context :
        (String → V) → String → String → Option (Dict V) → Context L → L × Entry V × Option (Dict V)
    error_in_context as_value err_text msg fields c =
        let (entry, fields') = log_error as_value Level.error err_text msg fields in
        (z.ctx c, entry, fields')

    -- `Timer.StopContext`
    unfoldable pub stop_in_context :
        (Duration → V) → Time → Timer → Context L → Duration × L × Entry V
    stop_in_context as_value now t c =
        let (elapsed, entry) = stop as_value now t in (elapsed, z.ctx c, entry)

-- What `InitLogger` sets: the level, and whether the output is for a console.
pub record LoggerSettings : Type 0 where
  pub level : Level
  pub console : Bool

unfoldable pub init_logger :
    {V : Type 0} → (String → V) → (Bool → V) → String → Bool → LoggerSettings × Entry V
init_logger as_text as_bool level pretty = (
  record { level = parse_log_level level; console = pretty },
  log_entry info "Logger initialized"
      (some (("level", as_text level) ∷ ("pretty", as_bool pretty) ∷ [])),
)

-- What zerolog documents: without a logger in the context `Ctx` gives a disabled one, and a logger
-- made from a disabled one is disabled; and `WithContext` changes no value under another's key.
pub record IsZerolog {L : Type 0} (z : Zerolog L) (disabled : L → Bool) : Type 0 where
  pub none_given : (c : Context L) → value zerolog_key c ≡ none → disabled (z.ctx c) ≡ true
  pub derived : (k v : String) (l : L) → disabled l ≡ true → disabled (z.with_str k v l) ≡ true
  pub given :
      (l : L) (c : Context L)
      → disabled l ≡ true
      → value zerolog_key c ≡ none
      → disabled (z.ctx (z.with_context l c)) ≡ true
  pub others : (l : L) (c : Context L) → value logger_key (z.with_context l c) ≡ value logger_key c

module _ {L V : Type 0} (z : Zerolog L) (disabled : L → Bool) (laws : IsZerolog z disabled) where
  -- No logger is ever put into the context of a request: so what the handlers log with it, under the
  -- id that `WithRequestID` sets, goes to a logger that is disabled, even behind `WithLogger`, whose
  -- logger only `GetLogger` gives back.
  pub with_request_id_silences :
      (id msg : String) (level : Level) (fields : Option (Dict V)) (l : L) (c : Context L)
      → value zerolog_key c ≡ none
      → let c' = with_request_id z id (with_logger z l c) in
        (disabled (log_in_context z level msg fields c').0 ≡ true) × (get_logger z c' ≡ l)
  unfolding with_request_id with_logger get_logger log_in_context value
  with_request_id_silences id msg level fields l c h = (
    laws.given _ _ (laws.derived _ _ _ (laws.none_given _ h)) h,
    rw
        (
          laws.others (z.with_str "request_id" id (z.ctx (with_logger z l c)))
              (with_value request_id_key (text id) (with_logger z l c)),
          get_logger,
        )
        refl,
  )
