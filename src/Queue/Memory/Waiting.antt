-- ===== src/Queue/Memory/Waiting.antt =====
-- internal/queue/fifo_queue.go: the wait of `Dequeue` on an empty queue, with the goroutines that
-- watch the context for it, as steps. Each pass starts a watcher of its own; one of an earlier pass
-- goes on, and is stale. Nothing is put into the queue meanwhile.
use llm_request_balancer.Common.{
  ℕ, zero, suc, ◌+◌, ◌-◌, ◌<◌, ◌≡◌, refl, ap, Bool-cases, ◌≢◌, ◌⊎◌, inl, inr, Bool, true, false,
  arith,
}

-- Before `Wait`; in it; behind it; behind the return with the error of the context.
pub data Waiter : Type 0 where
  entering sleeping woken returned : Waiter

-- At `<-ctx.Done()`; between `Signal` and `close(done)`; and behind that.
pub data Watcher : Type 0 where
  watching signaled closed : Watcher

pub record Wait : Type 0 where
  pub waiter : Waiter
  pub current : Watcher
  pub stale : ℕ
  pub ctx_done : Bool

-- `Signal` wakes a call that is in `Wait`, and is lost on one that is not.
abbrev pub signal : Waiter → Waiter
signal entering = entering
signal sleeping = woken
signal woken = woken
signal returned = returned

-- A new pass leaves the watcher behind, if it still watches.
abbrev pub left_behind : Watcher → ℕ
left_behind watching = 1
left_behind signaled = 0
left_behind closed = 0

-- The first pass, at any state of the context.
pub data Step (s : Wait) : Wait → Type 0 where
  context_ends : s.ctx_done ≡ false → Step s (record s { ctx_done = true })
  sleeps : s.waiter ≡ entering → Step s (record s { waiter = sleeping })
  signals :
      s.current ≡ watching
      → s.ctx_done ≡ true
      → Step s (record s { current = signaled; waiter = signal s.waiter })
  closes : s.current ≡ signaled → Step s (record s { current = closed })
  stale_signals :
      0 < s.stale
      → s.ctx_done ≡ true
      → Step s (record s { stale = s.stale - 1; waiter = signal s.waiter })
  returns : s.waiter ≡ woken → s.current ≡ closed → Step s (record s { waiter = returned })
  again :
      s.waiter ≡ woken
      → s.current ≢ closed
      → Step s (record s {
        waiter = entering;
        current = watching;
        stale = s.stale + left_behind s.current;
      })

pub data Steps (s : Wait) : Wait → Type 0 where
  here : Steps s s
  next : {t u : Wait} → Steps s t → Step t u → Steps s u

abbrev pub first_pass : Bool → Wait
first_pass ctx_done = record {
  waiter = entering;
  current = watching;
  stale = 0;
  ctx_done = ctx_done;
}

-- A watcher that has signaled has seen the end of the context.
abbrev Seen : Wait → Type 0
Seen s = (s.current ≡ watching) ⊎ (s.ctx_done ≡ true)

Step-Seen : {s t : Wait} → Step s t → Seen s → Seen t
Step-Seen (context_ends h) v = inr refl
Step-Seen (sleeps h) v = v
Step-Seen (signals h k) v = inr k
Step-Seen (closes h) v = ground arith
Step-Seen (stale_signals h k) v = v
Step-Seen (returns h k) v = v
Step-Seen (again h k) v = inl refl

Steps-Seen : {s t : Wait} → Steps s t → Seen s → Seen t
Steps-Seen here v = v
Steps-Seen (next r st) v = Step-Seen st (Steps-Seen r v)

-- The call sleeps, and no watcher is left that could wake it.
record IsLost (s : Wait) : Type 0 where
  asleep : s.waiter ≡ sleeping
  unwatched : s.current ≢ watching
  none_stale : s.stale ≡ 0
  over : s.ctx_done ≡ true

Step-IsLost : {s t : Wait} → Step s t → IsLost s → IsLost t
Step-IsLost (context_ends h) v = cc (v.over)
Step-IsLost (sleeps h) v = cc (v.asleep)
Step-IsLost (signals h k) v = absurd (v.unwatched h)
Step-IsLost (closes h) v = ground arith
Step-IsLost (stale_signals h k) v = ground (arith, h)
Step-IsLost (returns h k) v = cc (v.asleep)
Step-IsLost (again h k) v = cc (v.asleep)

Steps-IsLost : {s t : Wait} → Steps s t → IsLost s → IsLost t
Steps-IsLost here v = v
Steps-IsLost (next r st) v = Step-IsLost st (Steps-IsLost r v)

Watcher-cases : (w : Watcher) → (w ≡ watching) ⊎ (w ≢ watching)
Watcher-cases watching = inl refl
Watcher-cases signaled = inr (λ h. cc)
Watcher-cases closed = inr (λ h. cc)

stale_cases : (n : ℕ) → (n ≡ 0) ⊎ (0 < n)
stale_cases zero = inl refl
stale_cases (suc n) = inr (omega arith)

-- The call sleeps, and whatever happens goes on to sleep.
abbrev pub Forever : Wait → Type 0
Forever s = (s.ctx_done ≡ true) × ((t : Wait) → Steps s t → t.waiter ≡ sleeping)

-- The call can still be woken.
abbrev pub Wakes : Wait → Type 0
Wakes s = (t : Wait) × Steps s t × (t.waiter ≡ woken)

IsLost-Forever : (s : Wait) → IsLost s → Forever s
IsLost-Forever s v = (v.over, λ t later. (Steps-IsLost later v).asleep)

-- A watcher that is there wakes the sleeping call, once the context has ended.
current-Wakes : (s : Wait) → s.waiter ≡ sleeping → s.current ≡ watching → Wakes s
current-Wakes s h w = elim (Bool-cases s.ctx_done) [
  | inl d ↦ (_, next here (signals w d), ap signal h)
  | inr d ↦ (_, next (next here (context_ends d)) (signals w refl), ap signal h)
]

stale-Wakes : (s : Wait) → s.waiter ≡ sleeping → 0 < s.stale → Wakes s
stale-Wakes s h p = elim (Bool-cases s.ctx_done) [
  | inl d ↦ (_, next here (stale_signals p d), ap signal h)
  | inr d ↦ (_, next (next here (context_ends d)) (stale_signals p refl), ap signal h)
]

-- The context ends, and the watcher signals, before the call is in `Wait`.
abbrev pub lost : Wait
lost = record { waiter = sleeping; current = closed; stale = 0; ctx_done = true }

loses : (ended : Bool) → Steps (first_pass ended) lost
loses true = next (next (next here (signals refl refl)) (closes refl)) (sleeps refl)
loses false =
    next (next (next (next here (context_ends refl)) (signals refl refl)) (closes refl))
      (sleeps refl)

lost-IsLost : IsLost lost
lost-IsLost = record { asleep = refl; unwatched = λ h. cc; none_stale = refl; over = refl }

-- A `Dequeue` that sleeps on an empty queue, into which nothing is put, is watched by a goroutine,
-- and can be woken by it when the context has ended; or the signal of the last one is lost, the
-- context has ended, and the call sleeps for ever. It may come to that, whether the context has ended
-- at first or not: the watchers signal without the lock, also before the call is in `Wait`.
pub Steps-watched :
    (ended : Bool) (s : Wait)
    → Steps (first_pass ended) s
    → s.waiter ≡ sleeping
    → ((((s.current ≡ watching) ⊎ (0 < s.stale)) × Wakes s) ⊎ Forever s)
      × Steps (first_pass ended) lost
      × Forever lost
Steps-watched ended s r h = (way, loses ended, IsLost-Forever lost lost-IsLost)
  where
    way : (((s.current ≡ watching) ⊎ (0 < s.stale)) × Wakes s) ⊎ Forever s
    way = elim (Watcher-cases s.current) [
      | inl w ↦ inl (inl w, current-Wakes s h w)
      | inr u ↦ elim (stale_cases s.stale) [
        | inr p ↦ inl (inr p, stale-Wakes s h p)
        | inl z ↦ inr (
            IsLost-Forever s (record {
              asleep = h;
              unwatched = u;
              none_stale = z;
              over = ground (arith, Steps-Seen r (inl refl), u);
            }))
      ]
    ]
