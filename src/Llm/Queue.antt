-- ===== src/Llm/Queue.antt =====
-- LlmQueue (backend/src/llm/llm-queue.ts): a limiter with priorities before the language model. A
-- task is a number; the promises of the tasks that run are the environment's, which tells the queue of
-- each that ends (`finish`) and of each timer that fires (`expire`). What a call does to the outside
-- is the list of its events.
pub mod Order
pub mod Pump
pub mod Bounds
use nocode_app.Base.{
  ℕ, zero, suc, ◌+◌, ◌-◌, Bool, true, false, ◌||◌, ◌&&◌, List, [], ◌∷◌, ◌++◌, if◌then◌else◌, ltb,
  leb, ◌==◌, length, any,
}
use nocode_app.Base.Int.{ℤ, ltb_ℤ}

pub record Config : Type 0 where
  pub max_concurrency : ℕ
  pub max_queue : ℕ
  pub queue_timeout_ms : ℕ

pub record Waiter : Type 0 where
  pub task : ℕ
  pub priority : ℤ
  pub seq : ℕ
  pub timed : Bool  -- whether `timer` is set

pub record Queue : Type 0 where
  pub cfg : Config
  pub running : ℕ
  pub waiters : List Waiter
  pub seq_counter : ℕ

pub data Event : Type 0 where
  started refused expired : ℕ → Event
  queued : ℕ → ℕ → ℕ → Event  -- task, position, waiting

unfoldable pub new : Config → Queue
new cfg = record { cfg = cfg; running = 0; waiters = []; seq_counter = 0 }

-- stats
pub record Stats : Type 0 where
  pub running : ℕ
  pub waiting : ℕ
  pub max_concurrency : ℕ
  pub max_queue : ℕ

unfoldable pub stats : Queue → Stats
stats q = record {
  running = q.running;
  waiting = length q.waiters;
  max_concurrency = q.cfg.max_concurrency;
  max_queue = q.cfg.max_queue;
}

-- `b.priority - a.priority || a.seq - b.seq` is negative
unfoldable pub before : Waiter → Waiter → Bool
before a b =
    ltb_ℤ b.priority a.priority || (if ltb_ℤ a.priority b.priority then false else ltb a.seq b.seq)

unfoldable pub insert : Waiter → List Waiter → List Waiter
insert w [] = w ∷ []
insert w (x ∷ xs) = if before x w then x ∷ insert w xs else w ∷ x ∷ xs

-- orderedWaiters: `[...waiters].sort(…)`, which is stable
unfoldable pub ordered : List Waiter → List Waiter
ordered [] = []
ordered (w ∷ ws) = insert w (ordered ws)

-- `waiters.splice(waiters.indexOf(w), 1)`; a waiter is known by its `seq`
unfoldable pub splice : ℕ → List Waiter → List Waiter
splice s [] = []
splice s (w ∷ ws) = if w.seq == s then ws else w ∷ splice s ws

abbrev pub start : Waiter → Queue → Queue
start w q = record q { running = q.running + 1; waiters = splice w.seq q.waiters }

-- The `while` of pump; each round takes one waiter, so their number bounds the rounds.
unfoldable pub pump_loop : ℕ → Queue → Queue × List Event
pump_loop zero q = (q, [])
pump_loop (suc n) q =
    if ltb q.running q.cfg.max_concurrency
    then elim (ordered q.waiters) [
      | [] ↦ (q, [])
      | w ∷ ws ↦ let (q', events) = pump_loop n (start w q) in (q', started w.task ∷ events)
    ]
    else (q, [])

unfoldable pub pump : Queue → Queue × List Event
unfolding pump_loop
pump q = pump_loop (length q.waiters) q

-- `findIndex((w) => w.seq === s) + 1`
unfoldable pub position : ℕ → List Waiter → ℕ
position s [] = 0
position s (w ∷ ws) =
    let rest = position s ws in if w.seq == s then 1 else (if rest == 0 then 0 else rest + 1)

abbrev pub push : ℕ → ℤ → Queue → Queue
push task priority q = record q {
  waiters =
      q.waiters
      ++ record {
        task = task;
        priority = priority;
        seq = q.seq_counter;
        timed = ltb 0 q.cfg.queue_timeout_ms;
      }
        ∷ [];
  seq_counter = q.seq_counter + 1;
}

-- enqueue; `priority` is 0 where the caller gives none
unfoldable pub enqueue : ℕ → ℤ → Queue → Queue × List Event
enqueue task priority q =
    if ltb q.running q.cfg.max_concurrency
    then (record q { running = q.running + 1 }, started task ∷ [])
    else if leb q.cfg.max_queue (length q.waiters)
    then (q, refused task ∷ [])
    else let q' = push task priority q in
      (q', queued task (position q.seq_counter (ordered q'.waiters)) (length q'.waiters) ∷ [])

-- The `finally` of a task that ran.
unfoldable pub finish : Queue → Queue × List Event
unfolding pump
finish q = pump (record q { running = q.running - 1 })

-- The timer of a waiter.
unfoldable pub expire : Waiter → Queue → Queue × List Event
expire w q =
    if any (λ v. v.seq == w.seq) q.waiters
    then (record q { waiters = splice w.seq q.waiters }, expired w.task ∷ [])
    else (q, [])

unfoldable pub set_config : Config → Queue → Queue × List Event
unfolding pump
set_config cfg q = pump (record q { cfg = cfg })
