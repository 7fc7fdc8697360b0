-- ===== src/Queue/Worker/Colliding.antt =====
-- What becomes of two requests whose ids are made at the same instant.
use llm_request_balancer.Common.{ℕ, ◌≡◌, refl, inl, inr, some, List, [], ◌∷◌, ◌++◌, arith, String}
use llm_request_balancer.Common.Int.{ℤ}
use llm_request_balancer.Common.Time.{Time}
use llm_request_balancer.Llm.Types.{Request}
use llm_request_balancer.Limiter.Types.{Limiter}
use llm_request_balancer.Logger.{generate_short_id}
use llm_request_balancer.Queue.Item.{Bytes, QueueItem, Result, ok}
use llm_request_balancer.Queue.Memory.{stamp}
use llm_request_balancer.Queue.Registry.{Channel, get}
use llm_request_balancer.Queue.Worker.{
  QueueMethods, Codec, Service, World, WorkerSettings, Times, queued_request, request_item,
  enqueue_request,
}
use llm_request_balancer.Queue.Worker.Processing.{process_item}
use llm_request_balancer.Queue.Worker.Answers.{IsQueue, Ends, process_item-Ends}
use llm_request_balancer.Queue.Worker.Requests.{IsCodec, Enqueues, enqueue_request_cases}

-- What a call of `EnqueueRequest` is given.
pub record Submission (P : Type 0) : Type 0 where
  pub created_at : Time
  pub stamped_at : Time
  pub queued_at : Time
  pub request : Request P
  pub cost : ℤ
  pub channel : Channel

module _ {Q L S P R : Type 0} (queues : QueueMethods Q) (codec : Codec P) where
  abbrev pub submit : String → Submission P → World Q L S R → World Q L S R × Result (Unit {0})
  submit id s w =
      enqueue_request queues codec s.created_at s.stamped_at s.queued_at id s.request s.cost
        s.channel w

module _ {Q L S P R : Type 0} (queues : QueueMethods Q) (codec : Codec P)
    (contents : Q → List QueueItem) (codec_ok : IsCodec codec)
    (lawful : IsQueue queues contents) where
  abbrev Queued : String → Submission P → World Q L S R → Type 0
  Queued id s w =
      (get id (submit queues codec id s w).0.registry ≡ some s.channel)
      × (bytes : Bytes) × (codec.unmarshal bytes
          ≡ some (queued_request s.created_at id s.request s.cost))
      × (contents (submit queues codec id s w).0.queue
          ≡ contents w.queue
            ++ stamp s.queued_at (request_item s.stamped_at id s.request s.cost bytes) ∷ [])

  submitted :
      (id : String) (s : Submission P) (w : World Q L S R)
      → (submit queues codec id s w).1 ≡ ok tt
      → Queued id s w
  submitted id s w h =
      go
        (enqueue_request_cases queues codec contents s.created_at s.stamped_at s.queued_at id
          s.request s.cost s.channel codec_ok lawful w).0
    where
      go :
          Enqueues queues codec contents s.created_at s.stamped_at s.queued_at id s.request s.cost
            s.channel w
            (submit queues codec id s w)
          → Queued id s w
      go (inl (k, g, (bytes, d, q))) = (g, bytes, d, q)
      go (inr (why, k, g, q)) = absurd (ground (arith, h, k))

  module _ (limits : Limiter L) (llm : Service S P R) (settings : WorkerSettings)
      (times : Times) where
    -- An id is made of two readings of the clock. Where these are the same for two requests, and both
    -- are accepted, only the second has its channel registered: a worker that then takes out the item
    -- of the first sends the response, if it sends one, to the client of the second.
    pub same_instant_crosses :
        (hex : ℕ → String) (intn : ℕ → ℕ) (nanos seed : ℕ) (first second : Submission P)
        (w : World Q L S R)
        → let id = generate_short_id hex intn nanos seed in
          let w' = (submit queues codec id first w).0 in
          let w'' = (submit queues codec id second w').0 in
          (submit queues codec id first w).1 ≡ ok tt
          → (submit queues codec id second w').1 ≡ ok tt
          → (get id w''.registry ≡ some second.channel)
            × (item : QueueItem) × (contents w'.queue ≡ contents w.queue ++ item ∷ [])
            × Ends llm contents settings times item first.request id second.channel w''
                (process_item queues limits llm codec settings times item w'')
    unfolding stamp request_item
    same_instant_crosses hex intn nanos seed first second w h k =
        let id = generate_short_id hex intn nanos seed in
        let w' = (submit queues codec id first w).0 in
        let (g, b, d, q) = submitted id first w h in
        let (g', b', d', q') = submitted id second w' k in
        let item =
          stamp first.queued_at (request_item first.stamped_at id first.request first.cost b) in
        (
          g',
          item,
          q,
          process_item-Ends queues limits llm contents lawful codec settings times item
              (queued_request first.created_at id first.request first.cost) first.request
              second.channel (submit queues codec id second w').0 d refl g',
        )
