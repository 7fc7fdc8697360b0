-- ===== src/Queue/Worker/Requests.antt =====
-- How a request enters the queue, and what stands between a request and the LLM service.
use llm_request_balancer.Common.{
  ◌≡◌, refl, ◌≢◌, ◌⊎◌, inl, inr, true, false, Option, none, some, List, [], ◌∷◌, ◌++◌, arith,
  String, str_eq, str_eq_refl,
}
use llm_request_balancer.Common.Int.{ℤ}
use llm_request_balancer.Common.Time.{Time}
use llm_request_balancer.Llm.Types.{Request}
use llm_request_balancer.Limiter.Types
use llm_request_balancer.Limiter.Types.{Limiter, LimiterError}
use llm_request_balancer.Queue.Item.{Bytes, QueueItem, QueueError, Result, ok, err}
use llm_request_balancer.Queue.Memory.{stamp}
use llm_request_balancer.Queue.Registry.{Channel, register, get, remove, get-register, get-remove}
use llm_request_balancer.Queue.Worker.{
  QueueMethods, Codec, Service, World, WorkerSettings, Times, QueuedRequest, queued_request,
  request_item, enqueue_request,
}
use llm_request_balancer.Queue.Worker.Processing.{process_item}
use llm_request_balancer.Queue.Worker.Answers.{IsQueue}

-- What a JSON decoder does with the text that the encoder made of a request.
abbrev pub IsCodec : {P : Type 0} → Codec P → Type 0
IsCodec {P} codec =
    (r : QueuedRequest P) (b : Bytes) → codec.marshal r ≡ some b → codec.unmarshal b ≡ some r

module _ {Q L S P R : Type 0} (queues : QueueMethods Q) (codec : Codec P)
    (contents : Q → List QueueItem) (created_at stamped_at queued_at : Time) (id : String)
    (request : Request P) (cost : ℤ) (ch : Channel) where
  sent-enqueue_request :
      (w : World Q L S R)
      → (enqueue_request queues codec created_at stamped_at queued_at id request cost ch w).0.sent
        ≡ w.sent
  unfolding enqueue_request
  sent-enqueue_request w = ground arith

  -- The two ways in which `EnqueueRequest` ends.
  abbrev pub Enqueues : World Q L S R → World Q L S R × Result (Unit {0}) → Type 0
  Enqueues w (w', r) =
      ((r ≡ ok tt)
        × (get id w'.registry ≡ some ch)
        × ((bytes : Bytes) × (codec.unmarshal bytes
              ≡ some (queued_request created_at id request cost))
            × (contents w'.queue
                ≡ contents w.queue
                  ++ stamp queued_at (request_item stamped_at id request cost bytes) ∷ [])))
      ⊎ ((e : QueueError) × (r ≡ err e)
          × (get id w'.registry ≡ none)
          × (contents w'.queue ≡ contents w.queue))

  get-enqueue_request_self :
      (codec_ok : IsCodec codec) (lawful : IsQueue queues contents) (w : World Q L S R)
      → Enqueues w
          (enqueue_request queues codec created_at stamped_at queued_at id request cost ch w)
  unfolding enqueue_request
  get-enqueue_request_self codec_ok lawful w =
      go (codec.marshal (queued_request created_at id request cost)) refl
    where
      taken : get id (register id ch w.registry) ≡ some ch
      taken = rw (get-register id id ch w.registry) (rw (str_eq_refl id))

      freed : get id (remove id (register id ch w.registry)) ≡ none
      freed = rw (get-remove id id (register id ch w.registry)) (rw (str_eq_refl id))

      try : (b : Bytes) → Result (Unit {0})
      try b =
          (queues.enqueue queued_at w.queue (some (request_item stamped_at id request cost b))).1

      go' :
          (b : Bytes) (r : Result (Unit {0}))
          → codec.marshal (queued_request created_at id request cost) ≡ some b
          → try b ≡ r
          → Enqueues w
              (enqueue_request queues codec created_at stamped_at queued_at id request cost ch w)
      go' b (ok u) m e =
          rw (m, enqueue_request)
            (rw (e, enqueue_request)
              (inl (refl, taken, (b, codec_ok _ b m, lawful.accepts _ _ _ e))))
      go' b (err x) m e =
          rw (m, enqueue_request)
            (rw (e, enqueue_request) (inr (x, refl, freed, lawful.refuses _ _ _ x e)))

      go :
          (m : Option Bytes)
          → codec.marshal (queued_request created_at id request cost) ≡ m
          → Enqueues w
              (enqueue_request queues codec created_at stamped_at queued_at id request cost ch w)
      go none m = rw (m, enqueue_request) (inr (QueueError.not_serialized, refl, freed, refl))
      go (some b) m = go' b (try b) m refl

  get-enqueue_request_ne :
      (w : World Q L S R) (other : String)
      → str_eq id other ≡ false
      → let w' =
          (enqueue_request queues codec created_at stamped_at queued_at id request cost ch w).0 in
        get other w'.registry ≡ get other w.registry
  unfolding enqueue_request
  get-enqueue_request_ne w other h =
      ground (
        arith,
        get-register id other ch w.registry,
        get-remove id other (register id ch w.registry),
      )

  -- Over a queue that appends what it accepts and stays as it was where `Enqueue` fails (`IsQueue`:
  -- the in-memory queue is one, and the one in Redis while no answer of the server is lost), and a
  -- codec that decodes what it encodes, `EnqueueRequest` succeeds with the response channel registered under the request's id and, at
  -- the end of the queue, an item that decodes to the request, its cost and its id; or it fails
  -- with an error, and then nothing is registered under the id and the queue is as it was. It
  -- changes the registration of no other id, and sends nothing.
  pub enqueue_request_cases :
      (codec_ok : IsCodec codec) (lawful : IsQueue queues contents) (w : World Q L S R)
      → let r = enqueue_request queues codec created_at stamped_at queued_at id request cost ch w in
        Enqueues w r
        × ((other : String)
            → str_eq id other ≡ false
            → get other r.0.registry ≡ get other w.registry)
        × (r.0.sent ≡ w.sent)
  enqueue_request_cases codec_ok lawful w = (
    get-enqueue_request_self codec_ok lawful w,
    λ other h. get-enqueue_request_ne w other h,
    sent-enqueue_request w,
  )

-- The limiter stands before the service.
module _ {Q L S P R : Type 0} (queues : QueueMethods Q) (limits : Limiter L)
    (llm : Service S P R) where
  -- An item that decodes to a request asks the limiter exactly once, for the request's cost. The
  -- service is called, once, if the limiter allows it, and otherwise not at all.
  pub process_item_gate :
      (codec : Codec P) (settings : WorkerSettings) (times : Times) (item : QueueItem)
      (queued : QueuedRequest P) (request : Request P) (w : World Q L S R)
      → codec.unmarshal item.payload ≡ some queued
      → queued.request ≡ some request
      → let w' = (process_item queues limits llm codec settings times item w).0 in
        let (l, r) = limits.allow times.allowed_at queued.token_cost w.limiter in
        (w'.limiter ≡ l)
        × (((r ≡ Types.ok true) × (w'.service ≡ (llm.process w.service request).0))
            ⊎ ((r ≢ Types.ok true) × (w'.service ≡ w.service)))
  unfolding process_item
  process_item_gate codec settings times item queued request w d n =
      rw (d, process_item) (rw (n, process_item) (ground arith, ground arith))
