-- ===== src/Queue/Worker/Tracking/Whole.antt =====
-- `EnqueueRequest` and `processItem`, undisturbed, as sequences of the steps of `Tracking`.
use llm_request_balancer.Common.{
  ◌≡◌, refl, ◌≢◌, inl, inr, Bool, true, false, Option, none, some, List, [], ◌∷◌, arith, String,
  Option-cases,
}
use llm_request_balancer.Llm.Types.{Request, Response}
use llm_request_balancer.Limiter.Types
use llm_request_balancer.Limiter.Types.{Limiter, LimiterError}
use llm_request_balancer.Queue.Item.{QueueItem}
use llm_request_balancer.Queue.Registry.{Channel, register, get}
use llm_request_balancer.Queue.Worker.{
  QueueMethods, Codec, Service, World, WorkerSettings, Times, QueuedRequest, Failure, Reply,
  responded, failed, Exit, finished, enqueue_request,
}
use llm_request_balancer.Queue.Worker.Processing.{
  delayed_item, answer, deliver, retry_later, call_service, check_limit, process_item,
}
use llm_request_balancer.Queue.Worker.Answers.{Result-cases}
use llm_request_balancer.Queue.Worker.Colliding.{Submission, submit}
use llm_request_balancer.Queue.Worker.Tracking.{
  Entering, entering, failing, Job, taken, looked, refused, calling, replying, removing, System,
  sends, item_of, marshaled, Step, Reach, here, next, registers, not_serialized, enqueued,
  not_enqueued, cleans_up, undecodable, looks_up, allows, refuses, limiter_fails, responds,
  service_fails, responds_nil, requeues, not_requeued, drops_reply, replies, removes,
}

module _ {Q L S P R : Type 0} (queues : QueueMethods Q) (contents : Q → List QueueItem)
    (limits : Limiter L) (llm : Service S P R) (codec : Codec P) (settings : WorkerSettings) where
  abbrev Runs : System Q L S P R → System Q L S P R → Type 0
  Runs = Reach queues contents limits llm codec settings

  after : (s t u : System Q L S P R) → Runs s t → Runs t u → Runs s u
  after s t u r here = r
  after s t u r (next {t = t'} r' step) = next (after s t t' r r') step

  module _ (clients : List (Entering P)) (js : List (Job P R)) (lost : List QueueItem) where
    abbrev pub with_job : Job P R → World Q L S R → System Q L S P R
    with_job j w = record { world = w; clients = clients; jobs = j ∷ js; lost = lost }

    abbrev pub without_job : World Q L S R → System Q L S P R
    without_job w = record { world = w; clients = clients; jobs = js; lost = lost }

    abbrev Goes : Job P R → World Q L S R → World Q L S R × Exit → Type 0
    Goes j w r = r.1 ≡ finished → Runs (with_job j w) (without_job r.0)

    first :
        (j j' : Job P R) (w w' : World Q L S R) (r : World Q L S R × Exit)
        → Step queues contents limits llm codec settings (with_job j w) (with_job j' w')
        → Goes j' w' r
        → Goes j w r
    first j j' w w' r step go f =
        after (with_job j w) (with_job j' w') (without_job r.0) (next here step) (go f)

    answer-Goes :
        (id : String) (ch : Option Channel) (response : Response Failure R) (w : World Q L S R)
        → Goes (replying id ch response) w (answer ch id response w, finished)
    unfolding answer
    answer-Goes id none response w f = next here (drops_reply id response [] js refl)
    answer-Goes id (some ch) response w f =
        next {t = with_job (removing id) _} (next here (replies id ch response [] js refl))
          (removes id [] js refl)

    retry_later-Goes :
        (times : Times) (item : QueueItem) (queued : QueuedRequest P) (request : Request P)
        (ch : Option Channel) (w : World Q L S R)
        → Goes
            (refused item queued request ch)
            w
            (retry_later queues settings times item queued.request_id request ch w, finished)
    unfolding retry_later
    retry_later-Goes times item queued request ch w =
        elim (Result-cases
          (queues.enqueue times.queued_at w.queue (some (delayed_item settings times item))).1) [
            | inl e ↦
                rw (e, retry_later)
                  (λ f. next here (requeues item queued request ch times [] js refl e))
            | inr (x, e) ↦
                rw (e, retry_later)
                  (first _ _ w _ _ (not_requeued item queued request ch times x [] js refl e)
                    (answer-Goes queued.request_id ch _ _))
          ]

    call_service-Goes :
        (queued : QueuedRequest P) (request : Request P) (ch : Option Channel) (w : World Q L S R)
        → Goes (calling queued request ch) w (call_service llm queued.request_id request ch w)
    unfolding call_service deliver answer
    call_service-Goes queued request ch w = go ch (llm.process w.service request).2 refl
      where
        go :
            (ch : Option Channel) (r : Reply (Response Failure R))
            → (llm.process w.service request).2 ≡ r
            → Goes (calling queued request ch) w (call_service llm queued.request_id request ch w)
        go none (responded none) e =
            rw (e, call_service) (λ f. next here (responds_nil queued request [] js refl e))
        go (some c) (responded none) e = rw (e, call_service) (λ f. absurd (ground (arith, f)))
        go none (responded (some a)) e =
            rw (e, call_service)
              (first _ _ w _ _ (responds queued request none a [] js refl e)
                (answer-Goes queued.request_id none a _))
        go (some c) (responded (some a)) e =
            rw (e, call_service)
              (first _ _ w _ _ (responds queued request (some c) a [] js refl e)
                (answer-Goes queued.request_id (some c) a _))
        go o (failed x) e =
            rw (e, call_service)
              (first _ _ w _ _ (service_fails queued request o x [] js refl e)
                (answer-Goes queued.request_id o _ _))

    check_limit-Goes :
        (times : Times) (item : QueueItem) (queued : QueuedRequest P) (request : Request P)
        (ch : Option Channel) (w : World Q L S R)
        → Goes
            (looked item queued request ch)
            w
            (check_limit queues limits llm settings times item queued request ch w)
    unfolding check_limit
    check_limit-Goes times item queued request ch w =
        go (limits.allow times.allowed_at queued.token_cost w.limiter).1 refl
      where
        go :
            (r : Types.Result Bool)
            → (limits.allow times.allowed_at queued.token_cost w.limiter).1 ≡ r
            → Goes
                (looked item queued request ch)
                w
                (check_limit queues limits llm settings times item queued request ch w)
        go (Types.err x) e =
            rw (e, check_limit)
              (first _ _ w _ _
                (limiter_fails item queued request ch times.allowed_at x [] js refl e)
                (answer-Goes queued.request_id ch _ _))
        go (Types.ok true) e =
            rw (e, check_limit)
              (first _ _ w _ _ (allows item queued request ch times.allowed_at [] js refl e)
                (call_service-Goes queued request ch _))
        go (Types.ok false) e =
            rw (e, check_limit)
              (first _ _ w _ _ (refuses item queued request ch times.allowed_at [] js refl e)
                (retry_later-Goes times item queued request ch _))

    -- `processItem` is made of the steps: a run of it that does not panic, with no other access in
    -- between, is a sequence of steps from its item in hand to its end, with the queue, limiter,
    -- service, registry and sent responses that `process_item` leaves, whatever the other calls are.
    pub process_item-Reach :
        (times : Times) (item : QueueItem) (w : World Q L S R)
        → (process_item queues limits llm codec settings times item w).1 ≡ finished
        → Reach queues contents limits llm codec settings
            (with_job (taken item) w)
            (without_job (process_item queues limits llm codec settings times item w).0)
    unfolding process_item
    process_item-Reach times item w = elim (Option-cases (codec.unmarshal item.payload)) [
      | inl d ↦ rw (d, process_item) (λ f. next here (undecodable item [] js refl d))
      | inr (queued, d) ↦ elim (Option-cases queued.request) [
        | inl n ↦ rw (d, process_item) (rw (n, process_item) (λ f. absurd (ground (arith, f))))
        | inr (request, n) ↦
            rw (d, process_item)
              (rw (n, process_item)
                (first _ _ w w _ (looks_up item queued request [] js refl d n)
                  (check_limit-Goes times item queued request _ w)))
      ]
    ]

    abbrev entered : Entering P → World Q L S R → System Q L S P R
    entered c w = record { world = w; clients = c ∷ clients; jobs = js; lost = lost }

    -- `EnqueueRequest` is made of the steps: a run of it with no other access in between, with an id
    -- that is not registered and a channel that is neither registered nor used, is a sequence of steps
    -- to the state that `enqueue_request` leaves, on success and on both of its errors.
    pub enqueue_request-Reach :
        (id : String) (sub : Submission P) (w : World Q L S R)
        → get id w.registry ≡ none
        → ((other : String) → get other w.registry ≢ some sub.channel)
        → sends sub.channel w.sent ≡ 0
        → Reach queues contents limits llm codec settings
            (without_job w)
            (without_job (submit queues codec id sub w).0)
    unfolding enqueue_request
    enqueue_request-Reach id sub w free new unsent = elim (Option-cases (marshaled codec id sub)) [
      | inl m ↦
          rw (m, enqueue_request)
            (next {t = entered (failing id) _}
              (next {t = entered (entering id sub) _} (next here start)
                (not_serialized id sub [] clients refl m))
              (cleans_up id [] clients refl))
      | inr (bytes, m) ↦
          elim (Result-cases
            (queues.enqueue sub.queued_at w.queue (some (item_of id sub bytes))).1) [
              | inl e ↦
                  rw (m, enqueue_request)
                    (rw (e, enqueue_request)
                      (next {t = entered (entering id sub) _} (next here start)
                        (enqueued id sub bytes [] clients refl m e)))
              | inr (x, e) ↦
                  rw (m, enqueue_request)
                    (rw (e, enqueue_request)
                      (next {t = entered (failing id) _}
                        (next {t = entered (entering id sub) _} (next here start)
                          (not_enqueued id sub bytes x [] clients refl m e))
                        (cleans_up id [] clients refl)))
            ]
    ]
      where
        start :
            Step queues contents limits llm codec settings (without_job w) (
              entered
                (entering id sub)
                (record w { registry = register id sub.channel w.registry }))
        start = registers id sub free new unsent
