-- ===== src/Handler/Serving/Answering.antt =====
-- What the client is told of an item that the worker has processed.
use llm_request_balancer.Common.{
  ℕ, ◌≡◌, refl, sym, subst, ◌↔◌, ◌⊎◌, inl, inr, Bool, true, false, none, some, [], ◌∷◌, ◌++◌, arith,
  String, Option-cases,
}
use llm_request_balancer.Llm.Types.{Request, Response}
use llm_request_balancer.Limiter.Types
use llm_request_balancer.Limiter.Types.{Limiter}
use llm_request_balancer.Queue.Item.{QueueItem, QueueError, Result, ok, err}
use llm_request_balancer.Queue.Registry.{Channel, get}
use llm_request_balancer.Queue.Worker.{
  QueueMethods, Codec, Service, World, WorkerSettings, Times, QueuedRequest, Failure, Reply,
  responded, failed, Exit,
}
use llm_request_balancer.Queue.Worker.Processing.{
  error_response, delayed_item, retry_later, call_service, check_limit, process_item,
}
use llm_request_balancer.Handler.Serving.{served_status, response_came, end_serving}

-- The status that the handler answers with, behind its wait.
abbrev pub told : {R : Type 0} → String → Response Failure R → ℕ
told id response = served_status (end_serving id (response_came (some response)))

told-ok :
    {R : Type 0} (id : String) (response : Response Failure R)
    → (told id response ≡ 200) ↔ (response.error ≡ none)
unfolding end_serving
told-ok id response = elim (Option-cases response.error) [
  | inl e ↦ (λ h. e, λ h. rw (e, end_serving) refl)
  | inr (f, e) ↦ (λ h. absurd (ground (arith, h, e)), λ h. absurd (ground (arith, h, e)))
]

module _ {Q L S P R : Type 0} (limits : Limiter L) (llm : Service S P R) (times : Times)
    (queued : QueuedRequest P) (request : Request P) (ch : Channel) (own_id : String) where
  -- The limiter allows the request, and the service answers it with this response, without an error.
  abbrev pub Fulfils : World Q L S R → Response Failure R → Type 0
  Fulfils w response =
      ((limits.allow times.allowed_at queued.token_cost w.limiter).1 ≡ Types.ok true)
      × ((llm.process w.service request).2 ≡ responded (some response))
      × (response.error ≡ none)

  -- Nothing is sent, or one response, of which the client is told 200 if and only if it is that of
  -- the service.
  abbrev pub Tells : World Q L S R → World Q L S R → Type 0
  Tells w w' =
      (w'.sent ≡ w.sent)
      ⊎ ((response : Response Failure R) × (w'.sent ≡ w.sent ++ (ch, response) ∷ [])
          × ((told own_id response ≡ 200) ↔ Fulfils w response))

  error-Tells :
      (w : World Q L S R) (request' : Request P) (f : Failure)
      → (told own_id (error_response {R = R} request' f) ≡ 200)
        ↔ Fulfils w (error_response request' f)
  unfolding error_response end_serving
  error-Tells w request' f = (λ h. absurd (ground (arith, h)), λ h. absurd (ground (arith, h.2)))

Result-cases : (r : Result (Unit {0})) → (r ≡ ok tt) ⊎ ((e : QueueError) × (r ≡ err e))
Result-cases (ok u) = inl refl
Result-cases (err e) = inr (e, refl)

module _ {Q L S P R : Type 0} (queues : QueueMethods Q) (limits : Limiter L) (llm : Service S P R)
    (settings : WorkerSettings) (times : Times) (item : QueueItem) (queued : QueuedRequest P)
    (request : Request P) (ch : Channel) (own_id : String) (w : World Q L S R) where
  limited : World Q L S R
  limited = record w { limiter = (limits.allow times.allowed_at queued.token_cost w.limiter).0 }

  retry_later-Tells :
      Tells limits llm times queued request ch own_id w
        (retry_later queues settings times item queued.request_id request (some ch) limited)
  unfolding retry_later limited
  retry_later-Tells =
      elim (Result-cases
        (queues.enqueue times.queued_at w.queue (some (delayed_item settings times item))).1) [
          | inl e ↦ inl (rw (e, retry_later) refl)
          | inr (x, e) ↦ inr (
            error_response request (Failure.queue_failed x),
            rw (e, retry_later) refl,
            error-Tells limits llm times queued request ch own_id w request
                (Failure.queue_failed x),
          )
        ]

  call_service-Tells :
      (limits.allow times.allowed_at queued.token_cost w.limiter).1 ≡ Types.ok true
      → Tells limits llm times queued request ch own_id w
          (call_service llm queued.request_id request (some ch) limited).0
  unfolding call_service limited
  call_service-Tells allowed = go (llm.process w.service request).2 refl
    where
      go :
          (r : Reply (Response Failure R))
          → (llm.process w.service request).2 ≡ r
          → Tells limits llm times queued request ch own_id w
              (call_service llm queued.request_id request (some ch) limited).0
      go (responded none) e = inl (rw (e, call_service) refl)
      go (responded (some a)) e =
          let fulfils : (told own_id a ≡ 200)
              ↔ Fulfils limits llm times queued request ch own_id w a =
            ((λ h. (allowed, e, (told-ok own_id a).0 h)), (λ h. (told-ok own_id a).1 h.2)) in
          inr (a, rw (e, call_service) refl, fulfils)
      go (failed x) e = inr (
        error_response (llm.process w.service request).1 (Failure.llm_failed x),
        rw (e, call_service) refl,
        error-Tells limits llm times queued request ch own_id w (llm.process w.service request).1
            (Failure.llm_failed x),
      )

  check_limit-Tells :
      Tells limits llm times queued request ch own_id w
        (check_limit queues limits llm settings times item queued request (some ch) w).0
  unfolding check_limit limited
  check_limit-Tells = go (limits.allow times.allowed_at queued.token_cost w.limiter).1 refl
    where
      checked : World Q L S R × Exit
      checked = check_limit queues limits llm settings times item queued request (some ch) w

      go :
          (r : Types.Result Bool)
          → (limits.allow times.allowed_at queued.token_cost w.limiter).1 ≡ r
          → Tells limits llm times queued request ch own_id w
              (check_limit queues limits llm settings times item queued request (some ch) w).0
      go (Types.err x) e = inr (
        error_response request (Failure.limiter_failed x),
        rw (e, check_limit) refl,
        error-Tells limits llm times queued request ch own_id w request (Failure.limiter_failed x),
      )
      go (Types.ok true) e =
          let called : checked.0
              ≡ (call_service llm queued.request_id request (some ch) limited).0 =
            rw (e, check_limit) refl in
          subst (λ v. Tells limits llm times queued request ch own_id w v) (sym called)
            (call_service-Tells e)
      go (Types.ok false) e =
          let put_back : checked.0
              ≡ retry_later queues settings times item queued.request_id request (some ch) limited =
            rw (e, check_limit) refl in
          subst (λ v. Tells limits llm times queued request ch own_id w v) (sym put_back)
            retry_later-Tells

  -- A client is told status 200 only for a response of the LLM service: where the item decodes to a
  -- request whose response channel is registered, the worker sends nothing, or one response, on that
  -- channel. The handler that gets it answers with status 200 if and only if the limiter allowed the
  -- request and the service answered it with this response, without an error.
  pub end_serving-process_item :
      (codec : Codec P)
      → codec.unmarshal item.payload ≡ some queued
      → queued.request ≡ some request
      → get queued.request_id w.registry ≡ some ch
      → Tells limits llm times queued request ch own_id w
          (process_item queues limits llm codec settings times item w).0
  unfolding process_item
  end_serving-process_item codec d n g =
      rw (d, process_item) (rw (n, process_item) (rw (g, process_item) check_limit-Tells))
