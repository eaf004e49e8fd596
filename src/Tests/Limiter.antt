-- ===== src/Tests/Limiter.antt =====
-- The theorems on the limiter before the language model, at a queue with one slot.
use nocode_app.Base.{ℕ, [], ◌∷◌, ◌≡◌, refl, arith, Memᴰ, false}
use nocode_app.Base.Int.{pos}
use nocode_app.Llm.Queue.{
  Config, Waiter, Queue, new, enqueue, finish, position, splice, pump, pump_loop, ordered, insert,
  before,
}
use nocode_app.Llm.Queue.Order.{Precedes, pump_picks}
use nocode_app.Llm.Queue.Bounds.{
  World, Reach, Inv, here, next, submit, done, fresh_world, Reach-Inv,
}

abbrev one_slot : Config
one_slot = record { max_concurrency = 1; max_queue = 2; queue_timeout_ms = 0 }

abbrev waiter : ℕ → ℕ → ℕ → Waiter
waiter task priority seq = record { task = task; priority = pos priority; seq = seq; timed = false }

abbrev crowded : Queue
crowded = record {
  cfg = one_slot;
  running = 0;
  waiters = waiter 8 0 0 ∷ waiter 9 5 1 ∷ [];
  seq_counter = 2;
}

pump_picks_example :
    (w : Waiter) × Memᴰ w crowded.waiters × (w.task ≡ 9) × Precedes w (waiter 8 0 0)
unfolding pump ordered insert before
pump_picks_example = pump_picks crowded (waiter 8 0 0) refl (Memᴰ.head refl)

-- Two tasks are submitted, the first starts and ends, and the second starts.
abbrev one_runs : World
one_runs = record { queue = (enqueue 7 (pos 0) (new one_slot)).0; live = 7 ∷ [] }

abbrev one_waits : World
one_waits = record { queue = (enqueue 8 (pos 0) one_runs.queue).0; live = 7 ∷ [] }

abbrev second_runs : World
second_runs = record { queue = (finish one_waits.queue).0; live = 8 ∷ [] }

second_reached : Reach 1 2 (fresh_world one_slot) second_runs
unfolding enqueue new finish pump pump_loop ordered insert position splice
second_reached =
    next (next (next here (submit 7 (pos 0) refl)) (submit 8 (pos 0) refl))
      (done 7 (Memᴰ.head refl) refl)

Reach-Inv_example : Inv 1 2 second_runs
Reach-Inv_example = Reach-Inv 1 2 one_slot (omega arith) (omega arith) second_reached
