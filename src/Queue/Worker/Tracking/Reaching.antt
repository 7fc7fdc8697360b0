-- ===== src/Queue/Worker/Tracking/Reaching.antt =====
-- What holds in every state that clients, queue and worker reach, in any interleaving.
use llm_request_balancer.Common.{
  ◌≤◌, ◌≡◌, refl, sym, ap, subst, inl, none, some, List, [], ◌∷◌, ◌++◌, arith, All, String, str_eq,
}
use llm_request_balancer.Common.Dict.{lookup}
use llm_request_balancer.Limiter.Types.{Limiter}
use llm_request_balancer.Queue.Item.{QueueItem}
use llm_request_balancer.Queue.Memory.{stamp}
use llm_request_balancer.Queue.Registry.{Channel, new_channel_registry, get}
use llm_request_balancer.Queue.Worker.{
  QueueMethods, Codec, Service, WorkerSettings, QueuedRequest, request_item,
}
use llm_request_balancer.Queue.Worker.Processing.{delayed_item}
use llm_request_balancer.Queue.Worker.Answers.{IsQueue}
use llm_request_balancer.Queue.Worker.Requests.{IsCodec}
use llm_request_balancer.Queue.Worker.Tracking.{
  entering, failing, Job, taken, looked, refused, calling, replying, System, sends, item_of, Step,
  Reach, here, next,
}
use llm_request_balancer.Queue.Worker.Tracking.Counting.{
  count, count-end, All-out, one_if, item_bears, client_bears, job_bears, carriers, removers,
  IsCurrent, Inv, Quiet-Inv,
}
use llm_request_balancer.Queue.Worker.Tracking.Quietly.{
  job_swapped, job_left, client_swapped, client_left, item_taken, same_items,
}
use llm_request_balancer.Queue.Worker.Tracking.Removing.{channel_held, cleans_up-Inv, removes-Inv}
use llm_request_balancer.Queue.Worker.Tracking.Registering.{registers-Inv}
use llm_request_balancer.Queue.Worker.Tracking.Replying.{replies-Inv}

module _ {Q L S P R : Type 0} (queues : QueueMethods Q) (contents : Q → List QueueItem)
    (limits : Limiter L) (llm : Service S P R) (codec : Codec P) (settings : WorkerSettings)
    (codec_ok : IsCodec codec) (lawful : IsQueue queues contents) where
  same_payload :
      (id : String) (a b : QueueItem)
      → a.payload ≡ b.payload
      → item_bears codec id a ≡ item_bears codec id b
  same_payload id a b e =
      ap
        (λ p. elim (codec.unmarshal p) [
          | none ↦ 0
          | some queued ↦ one_if (str_eq queued.request_id id)
        ])
        e

  decoded :
      (id : String) (item : QueueItem) (queued : QueuedRequest P)
      → codec.unmarshal item.payload ≡ some queued
      → item_bears codec id item ≡ one_if (str_eq queued.request_id id)
  decoded id item queued d = rw (d, item_bears) refl

  undecoded :
      (id : String) (item : QueueItem)
      → codec.unmarshal item.payload ≡ none
      → item_bears codec id item ≡ 0
  undecoded id item d = rw (d, item_bears) refl

  held :
      (j : Job P R) (xs ys : List (Job P R)) (s : System Q L S P R)
      → s.jobs ≡ xs ++ j ∷ ys
      → Inv contents codec s
      → IsCurrent codec s.world.registry j
  held j xs ys s at v =
      (All-out (IsCurrent codec s.world.registry) xs ys j
        (subst (All (IsCurrent codec s.world.registry)) at v.current)).0

  Step-Inv :
      (s t : System Q L S P R)
      → Step queues contents limits llm codec settings s t
      → Inv contents codec s
      → Inv contents codec t
  unfolding stamp request_item delayed_item count
  Step-Inv s t (Step.registers id sub free new unsent) v =
      registers-Inv contents codec id sub s free new unsent v
  Step-Inv s t (Step.not_serialized id sub xs ys at m) v =
      Quiet-Inv contents codec s t
        (client_swapped contents codec s s.world refl refl v (entering id sub) (failing id) xs ys at
          refl (λ i. refl))
        v
  Step-Inv s t (Step.enqueued id sub bytes xs ys at m e) v =
      Quiet-Inv contents codec s t
        (client_left contents codec s t.world refl refl v (entering id sub) xs ys
          (stamp sub.queued_at (item_of id sub bytes)) at (lawful.accepts _ _ _ e)
          (λ i. decoded i (stamp sub.queued_at (item_of id sub bytes)) _ (codec_ok _ bytes m)))
        v
  Step-Inv s t (Step.not_enqueued id sub bytes e xs ys at m f) v =
      Quiet-Inv contents codec s t
        (client_swapped contents codec s t.world refl refl v (entering id sub) (failing id) xs ys at
          (lawful.refuses _ _ _ e f) (λ i. refl))
        v
  Step-Inv s t (Step.cleans_up id xs ys at) v = cleans_up-Inv contents codec id xs ys s at v
  Step-Inv s t (Step.takes_out item q xs ys at e) v =
      Quiet-Inv contents codec s t (item_taken contents codec s t.world refl refl v item xs ys at e)
        v
  Step-Inv s t (Step.skips q e) v =
      Quiet-Inv contents codec s t (same_items contents codec s t.world refl refl v e) v
  Step-Inv s t (Step.puts_back item new q xs ys at p e) v =
      Quiet-Inv contents codec s t
        (job_left contents codec s t.world refl refl v (taken item) xs ys s.lost at
          (λ i. omega (
            arith,
            ap (λ m. count (item_bears codec i) m) e,
            count-end (item_bears codec i) (contents s.world.queue) new,
            same_payload i new item p,
          ))
          (λ i. refl))
        v
  Step-Inv s t (Step.loses item xs ys at) v =
      Quiet-Inv contents codec s t
        (job_left contents codec s s.world refl refl v (taken item) xs ys (item ∷ s.lost) at
          (λ i. omega arith) (λ i. refl))
        v
  Step-Inv s t (Step.undecodable item xs ys at d) v =
      Quiet-Inv contents codec s t
        (job_left contents codec s s.world refl refl v (taken item) xs ys s.lost at
          (λ i. omega (arith, undecoded i item d)) (λ i. refl))
        v
  Step-Inv s t (Step.looks_up item queued request xs ys at d n) v =
      Quiet-Inv contents codec s t
        (job_swapped contents codec s s.world refl refl v (taken item)
          (looked item queued request (get queued.request_id s.world.registry)) xs ys at refl
          (λ i. sym (decoded i item queued d)) (λ i. refl) (λ c. (refl, d)))
        v
  Step-Inv s t (Step.allows item queued request ch now xs ys at a) v =
      Quiet-Inv contents codec s t
        (job_swapped contents codec s t.world refl refl v (looked item queued request ch)
          (calling queued request ch) xs ys at refl (λ i. refl) (λ i. refl) (λ c. c.0))
        v
  Step-Inv s t (Step.refuses item queued request ch now xs ys at a) v =
      Quiet-Inv contents codec s t
        (job_swapped contents codec s t.world refl refl v (looked item queued request ch)
          (refused item queued request ch) xs ys at refl (λ i. refl) (λ i. refl) (λ c. c))
        v
  Step-Inv s t (Step.limiter_fails item queued request ch now e xs ys at a) v =
      Quiet-Inv contents codec s t
        (job_swapped contents codec s t.world refl refl v (looked item queued request ch)
          (replying queued.request_id ch _) xs ys at refl (λ i. refl) (λ i. refl) (λ c. c.0))
        v
  Step-Inv s t (Step.responds queued request ch response xs ys at a) v =
      Quiet-Inv contents codec s t
        (job_swapped contents codec s t.world refl refl v (calling queued request ch)
          (replying queued.request_id ch response) xs ys at refl (λ i. refl) (λ i. refl) (λ c. c))
        v
  Step-Inv s t (Step.service_fails queued request ch e xs ys at a) v =
      Quiet-Inv contents codec s t
        (job_swapped contents codec s t.world refl refl v (calling queued request ch)
          (replying queued.request_id ch _) xs ys at refl (λ i. refl) (λ i. refl) (λ c. c))
        v
  Step-Inv s t (Step.responds_nil queued request xs ys at a) v = absurd (
      channel_held contents codec queued.request_id (calling queued request none) xs ys s at refl v
        (held (calling queued request none) xs ys s at v))
  Step-Inv s t (Step.requeues item queued request ch times xs ys at e) v =
      Quiet-Inv contents codec s t
        (job_left contents codec s t.world refl refl v (refused item queued request ch) xs ys s.lost
          at
          (λ i. omega (
            arith,
            ap (λ m. count (item_bears codec i) m) (lawful.accepts _ _ _ e),
            count-end (item_bears codec i) (contents s.world.queue)
                (stamp times.queued_at (delayed_item settings times item)),
            decoded i item queued (held (refused item queued request ch) xs ys s at v).1,
          ))
          (λ i. refl))
        v
  Step-Inv s t (Step.not_requeued item queued request ch times e xs ys at f) v =
      Quiet-Inv contents codec s t
        (job_swapped contents codec s t.world refl refl v (refused item queued request ch)
          (replying queued.request_id ch _) xs ys at (lawful.refuses _ _ _ e f) (λ i. refl)
          (λ i. refl) (λ c. c.0))
        v
  Step-Inv s t (Step.drops_reply id response xs ys at) v = absurd (
      channel_held contents codec id (replying id none response) xs ys s at refl v
        (held (replying id none response) xs ys s at v))
  Step-Inv s t (Step.replies id ch response xs ys at) v =
      replies-Inv contents codec id ch response xs ys s at v
  Step-Inv s t (Step.removes id xs ys at) v = removes-Inv contents codec id xs ys s at v

  Reach-Inv :
      (s t : System Q L S P R)
      → Reach queues contents limits llm codec settings s t
      → Inv contents codec s
      → Inv contents codec t
  Reach-Inv s t here v = v
  Reach-Inv s t (next {t = t'} r step) v = Step-Inv t' t step (Reach-Inv s t' r v)

  module _ (s t : System Q L S P R) (empty : s.world.registry ≡ new_channel_registry)
      (unsent : s.world.sent ≡ []) (no_items : contents s.world.queue ≡ [])
      (no_clients : s.clients ≡ []) (no_jobs : s.jobs ≡ []) (no_lost : s.lost ≡ [])
      (run : Reach queues contents limits llm codec settings s t) where
    unregistered : (id : String) → get id s.world.registry ≡ none
    unfolding lookup get new_channel_registry
    unregistered id = ap (λ m. get id m) empty

    start-Inv : Inv contents codec s
    unfolding carriers count sends
    start-Inv = record {
      paired = λ id. inl (
        unregistered id,
        omega (
          arith,
          ap (λ m. count (client_bears codec id) m) no_clients,
          ap (λ m. count (item_bears codec id) m) no_items,
          ap (λ m. count (job_bears codec id) m) no_jobs,
          ap (λ m. count (item_bears codec id) m) no_lost,
        ),
      );
      current = subst (All (IsCurrent codec s.world.registry)) (sym no_jobs) tt;
      single = λ a b c g h. absurd (ground (arith, g, unregistered a));
      told = λ a c g. absurd (ground (arith, g, unregistered a));
      once = λ c. subst (λ m. sends c m ≤ 1) (sym unsent) (omega arith);
    }

    -- Nobody is answered twice: from an empty registry and queue, with nothing sent or under way, and
    -- after any interleaving of the single accesses of any number of `EnqueueRequest`, `Dequeue` and
    -- `processItem` calls (`Step`), no channel got two responses, and on the channel of a registered id
    -- a response was sent only where a `processItem` is between its send and its `Remove`, one for
    -- each. A request is registered under an id that is not registered, with a channel that is not, and
    -- on which nothing was sent; the codec decodes what it encodes; an `Enqueue` appends what it accepts
    -- and keeps the items where it fails (`IsQueue`), in Redis while no answer is lost; and nothing
    -- panics.
    pub Reach-once :
        ((ch : Channel) → sends ch t.world.sent ≤ 1)
        × ((id : String) (ch : Channel)
            → get id t.world.registry ≡ some ch
            → sends ch t.world.sent ≡ removers contents codec id t)
    Reach-once = ((Reach-Inv s t run start-Inv).once, (Reach-Inv s t run start-Inv).told)
