-- ===== src/Handler/Requests.antt =====
-- internal/handler/request_handler.go and direct_handler.go: what both handlers do with a request
-- before they hand it on. net/http and encoding/json are arguments.
pub mod Accepting
use llm_request_balancer.Common.{
  ℕ, Bool, true, false, not, ◌&&◌, ◌||◌, Option, none, some, String, if◌then◌else◌, str_eq,
}
use llm_request_balancer.Common.Int.{pos, ltb_ℤ}
use llm_request_balancer.Common.Time.{Duration}
use llm_request_balancer.Llm.Types.{Request}
use llm_request_balancer.Queue.Item.{Bytes}

pub record LlmRequest (P : Type 0) : Type 0 where
  pub provider_name : String
  pub model_name : String
  pub payload : Option P
  pub max_wait_time : Option Duration

-- The parts of a `http.Request` that are read. The body is `none` if it cannot be read.
pub record Incoming : Type 0 where
  pub method : String
  pub body : Option Bytes

-- The reasons for a call of `http.Error`.
pub data Refusal : Type 0 where
  method_not_allowed body_not_read invalid_format missing_fields : Refusal
  cost_not_calculated not_enqueued nil_response timed_out : Refusal

abbrev pub status_of : Refusal → ℕ
status_of method_not_allowed = 405
status_of body_not_read = 400
status_of invalid_format = 400
status_of missing_fields = 400
status_of cost_not_calculated = 500
status_of not_enqueued = 500
status_of nil_response = 500
status_of timed_out = 408

pub data Checked (A : Type 0) : Type 0 where
  refused : Refusal → Checked A
  accepted : A → Checked A

module _ {P : Type 0} where
  -- `Payload == nil`
  abbrev pub is_nil : Option P → Bool
  is_nil none = true
  is_nil (some p) = false

  abbrev pub lacks_fields : LlmRequest P → Bool
  lacks_fields req = str_eq req.provider_name "" || (str_eq req.model_name "" || is_nil req.payload)

  -- The checks of `ServeHTTP`; `decode` is the decoder of encoding/json.
  unfoldable pub check_request : (Bytes → Option (LlmRequest P)) → Incoming → Checked (LlmRequest P)
  check_request decode r =
      if not (str_eq r.method "POST") then refused method_not_allowed else elim r.body [
        | none ↦ refused body_not_read
        | some bytes ↦ elim (decode bytes) [
          | none ↦ refused invalid_format
          | some req ↦ if lacks_fields req then refused missing_fields else accepted req
        ]
      ]

  unfoldable pub llm_request : LlmRequest P → Request P
  llm_request req = record {
    provider_name = req.provider_name;
    model_name = req.model_name;
    payload = req.payload;
  }

-- The timeout of a request: its own, if it is positive and below the handler's.
unfoldable pub request_timeout : Duration → Option Duration → Duration
request_timeout timeout none = timeout
request_timeout timeout (some max_wait_time) =
    if ltb_ℤ (pos 0) max_wait_time && ltb_ℤ max_wait_time timeout then max_wait_time else timeout
