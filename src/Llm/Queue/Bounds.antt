-- ===== src/Llm/Queue/Bounds.antt =====
-- The bounds of the queue: how many tasks run, how many wait, and that no slot stays idle.
use mathlib.Core.List.Memᴰ
use nocode_app.Base.{
  ℕ, suc, ◌+◌, ◌-◌, ◌≤◌, List, [], ◌∷◌, ◌++◌, if◌then◌else◌, ltb, leb, length, length-append, any,
  ◌≡◌, ◌⊎◌, inl, inr, ⊎_elim, refl, arith, Memᴰ, Bool-cases, ◌==◌,
}
use nocode_app.Base.Int.{ℤ}
use nocode_app.Llm.Queue.{
  Config, Waiter, Queue, Event, new, splice, pump, enqueue, finish, expire, set_config,
}
use nocode_app.Llm.Queue.Pump.{
  Pumped, pump-Pumped, length-splice-le, tasks_started, pump_started, enqueue_started,
  expire_started,
}

-- The queue, and the tasks that were started and have not ended: what the events say, not its counter.
pub record World : Type 0 where
  pub queue : Queue
  pub live : List ℕ

abbrev pub remove_one : ℕ → List ℕ → List ℕ
remove_one t [] = []
remove_one t (u ∷ us) = let rest = remove_one t us in if u == t then us else u ∷ rest

length-remove_one : (t : ℕ) (us : List ℕ) → Memᴰ t us → suc (length (remove_one t us)) ≡ length us
length-remove_one t [] m = absurd (Memᴰ.not-nil m)
length-remove_one t (u ∷ us) m = elim (Memᴰ.cases_cons m) [
  | inl e ↦ ground arith
  | inr there ↦ ground (arith, length-remove_one t us there)
]

-- After a call: its queue, and the tasks that its events start.
abbrev pub after : List ℕ → Queue × List Event → World
after live call = record { queue = call.0; live = live ++ tasks_started call.1 }

-- What the environment may do: a task can end that was started and has not ended. Settings stay within the
-- bounds `c` and `m`.
pub data Step (c m : ℕ) (w w' : World) : Type 0 where
  submit :
      (task : ℕ) (priority : ℤ) → w' ≡ after w.live (enqueue task priority w.queue) → Step c m w w'
  done :
      (task : ℕ)
      → Memᴰ task w.live
      → w' ≡ after (remove_one task w.live) (finish w.queue)
      → Step c m w w'
  fire : (v : Waiter) → w' ≡ after w.live (expire v w.queue) → Step c m w w'
  configure :
      (cfg : Config)
      → cfg.max_concurrency ≤ c
      → cfg.max_queue ≤ m
      → w' ≡ after w.live (set_config cfg w.queue)
      → Step c m w w'

pub data Reach (c m : ℕ) (w : World) : World → Type 0 where
  here : Reach c m w w
  next : {r s : World} → Reach c m w r → Step c m r s → Reach c m w s

-- What holds of the queue alone.
record Bounded (c m : ℕ) (q : Queue) : Type 0 where
  pub limit : q.running ≤ c
  pub room : length q.waiters ≤ m
  pub busy : (q.waiters ≡ []) ⊎ (q.cfg.max_concurrency ≤ q.running)
  pub cfg_running : q.cfg.max_concurrency ≤ c
  pub cfg_waiting : q.cfg.max_queue ≤ m

Pumped-Bounded :
    (c m : ℕ) (q q' : Queue)
    → q.running ≤ c
    → length q.waiters ≤ m
    → q.cfg.max_concurrency ≤ c
    → q.cfg.max_queue ≤ m
    → Pumped q q'
    → Bounded c m q'
Pumped-Bounded c m q q' limit room cc' cm p =
    let same : q'.cfg ≡ q.cfg = p.cfg_kept in
    record {
      limit = ⊎_elim (λ h. omega arith) (λ h. omega arith) p.within;
      room = omega (arith, p.fewer);
      busy = ⊎_elim inl (λ h. inr (rw same h)) p.busy;
      cfg_running = rw same cc';
      cfg_waiting = rw same cm;
    }

enqueue-Bounded :
    (c m : ℕ) (q : Queue) (task : ℕ) (priority : ℤ)
    → Bounded c m q
    → Bounded c m (enqueue task priority q).0
unfolding enqueue
enqueue-Bounded c m q task priority h = elim (Bool-cases (ltb q.running q.cfg.max_concurrency)) [
  | inl free ↦ rw free (record {
    limit = ground (arith, h.cfg_running);
    room = h.room;
    busy = ⊎_elim inl (λ b. absurd (ground arith)) h.busy;
    cfg_running = h.cfg_running;
    cfg_waiting = h.cfg_waiting;
  })
  | inr full ↦ elim (Bool-cases (leb q.cfg.max_queue (length q.waiters))) [
    | inl crowded ↦ rw (full, crowded) h
    | inr space ↦
        rw (full, space)
          (record {
            limit = h.limit;
            room = rw (length-append {0}) (ground (arith, h.cfg_waiting));
            busy = inr (ground arith);
            cfg_running = h.cfg_running;
            cfg_waiting = h.cfg_waiting;
          })
  ]
]

expire-Bounded : (c m : ℕ) (q : Queue) (w : Waiter) → Bounded c m q → Bounded c m (expire w q).0
unfolding expire
expire-Bounded c m q w h = elim (Bool-cases (any (λ v. v.seq == w.seq) q.waiters)) [
  | inl there ↦ rw there (record {
    limit = h.limit;
    room = omega (arith, length-splice-le w.seq q.waiters, h.room);
    busy = ⊎_elim (λ e. inl (rw e (unfold splice in refl))) inr h.busy;
    cfg_running = h.cfg_running;
    cfg_waiting = h.cfg_waiting;
  })
  | inr gone ↦ rw gone h
]

pub record Inv (c m : ℕ) (w : World) : Type 0 where
  pub counted : w.queue.running ≡ length w.live
  pub limit : length w.live ≤ c
  pub room : length w.queue.waiters ≤ m
  pub busy : (w.queue.waiters ≡ []) ⊎ (w.queue.cfg.max_concurrency ≤ length w.live)
  pub cfg_running : w.queue.cfg.max_concurrency ≤ c
  pub cfg_waiting : w.queue.cfg.max_queue ≤ m

bounds_of : (c m : ℕ) (w : World) → Inv c m w → Bounded c m w.queue
bounds_of c m w h = record {
  limit = omega (arith, h.counted, h.limit);
  room = h.room;
  busy = ⊎_elim inl (λ b. inr (omega (arith, h.counted))) h.busy;
  cfg_running = h.cfg_running;
  cfg_waiting = h.cfg_waiting;
}

after-Inv :
    (c m running : ℕ) (live : List ℕ) (call : Queue × List Event)
    → Bounded c m call.0
    → running ≡ length live
    → call.0.running ≡ running + length (tasks_started call.1)
    → Inv c m (after live call)
after-Inv c m running live call b start_count more =
    let all : call.0.running ≡ length (live ++ tasks_started call.1) =
      rw (length-append {0}) (omega arith) in
    record {
      counted = all;
      limit = omega (arith, all, b.limit);
      room = b.room;
      busy = ⊎_elim inl (λ h. inr (omega (arith, all))) b.busy;
      cfg_running = b.cfg_running;
      cfg_waiting = b.cfg_waiting;
    }

pub Step-Inv : (c m : ℕ) {w w' : World} → Inv c m w → Step c m w w' → Inv c m w'
unfolding finish set_config
Step-Inv c m {w} h (submit task priority e) = rw e (
    after-Inv c m w.queue.running w.live (enqueue task priority w.queue)
      (enqueue-Bounded c m w.queue task priority (bounds_of c m w h)) h.counted
      (enqueue_started w.queue task priority))
Step-Inv c m {w} h (done task there e) =
    let q = record w.queue { running = w.queue.running - 1 } in
    let one_less = length-remove_one task w.live there in
    rw e (
      after-Inv c m q.running (remove_one task w.live) (pump q)
        (Pumped-Bounded c m q _ (omega (arith, (bounds_of c m w h).limit)) h.room h.cfg_running
          h.cfg_waiting (pump-Pumped q))
        (omega (arith, one_less, h.counted)) (pump_started q))
Step-Inv c m {w} h (fire v e) = rw e (
    after-Inv c m w.queue.running w.live (expire v w.queue)
      (expire-Bounded c m w.queue v (bounds_of c m w h)) h.counted (expire_started w.queue v))
Step-Inv c m {w} h (configure cfg lc lm e) =
    let q = record w.queue { cfg = cfg } in
    rw e (
      after-Inv c m q.running w.live (pump q)
        (Pumped-Bounded c m q _ (bounds_of c m w h).limit h.room lc lm (pump-Pumped q)) h.counted
        (pump_started q))

abbrev pub fresh_world : Config → World
fresh_world cfg = record { queue = new cfg; live = [] }

-- Whatever is submitted, ends, times out or is reconfigured, in whatever order: with settings that
-- never exceed `c` and `m`, the counter `running` is the number of tasks that were started and have not ended, at
-- most `c` such tasks are there, at most `m` wait, and where any waits all the slots of the current settings are
-- taken by such tasks.
pub Reach-Inv :
    (c m : ℕ) (cfg : Config) {w : World}
    → cfg.max_concurrency ≤ c
    → cfg.max_queue ≤ m
    → Reach c m (fresh_world cfg) w
    → Inv c m w
unfolding new
Reach-Inv c m cfg lc lm here = record {
  counted = refl;
  limit = omega arith;
  room = omega arith;
  busy = inl refl;
  cfg_running = lc;
  cfg_waiting = lm;
}
Reach-Inv c m cfg lc lm (next r s) = Step-Inv c m (Reach-Inv c m cfg lc lm r) s
