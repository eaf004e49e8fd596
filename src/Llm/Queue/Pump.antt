-- ===== src/Llm/Queue/Pump.antt =====
-- What `pump` of the queue does: how many tasks it starts, and that no slot stays idle.
use mathlib.Core.List.Memᴰ
use nocode_app.Base.{
  ℕ, zero, suc, ◌+◌, ◌≤◌, ◌<◌, List, [], ◌∷◌, ltb, leb, length, any, ◌≡◌, ◌⊎◌, inl, inr, ⊎_elim,
  refl, sym, ap, ◌∙◌, arith, Memᴰ, Bool-cases, List-cases, ◌==◌,
}
use nocode_app.Base.Int.{ℤ}
use nocode_app.Llm.Queue.{
  Waiter, Queue, Event, started, insert, ordered, splice, start, pump_loop, pump, enqueue, expire,
}
use nocode_app.Llm.Queue.Order.{mem-ordered}

length-insert : (w : Waiter) (ws : List Waiter) → length (insert w ws) ≡ suc (length ws)
unfolding insert
length-insert w [] = refl
length-insert w (x ∷ ws) = ground (arith, length-insert w ws)

length-ordered : (ws : List Waiter) → length (ordered ws) ≡ length ws
unfolding ordered
length-ordered [] = refl
length-ordered (w ∷ ws) = length-insert w (ordered ws) ∙ ap suc (length-ordered ws)

pub length-splice :
    (w : Waiter) (ws : List Waiter) → Memᴰ w ws → suc (length (splice w.seq ws)) ≡ length ws
unfolding splice
length-splice w [] m = absurd (Memᴰ.not-nil m)
length-splice w (x ∷ ws) m = elim (Memᴰ.cases_cons m) [
  | inl e ↦ let same : x.seq ≡ w.seq = ap (λ (y : Waiter). y.seq) (sym e) in ground arith
  | inr t ↦ ground (arith, length-splice w ws t)
]

pub length-splice-le : (s : ℕ) (ws : List Waiter) → length (splice s ws) ≤ length ws
unfolding splice
length-splice-le s [] = omega arith
length-splice-le s (x ∷ ws) = ground (arith, length-splice-le s ws)

-- What a pump leaves: the settings as they were, tasks started within the limit, and no idle slot.
pub record Pumped (q q' : Queue) : Type 0 where
  pub cfg_kept : q'.cfg ≡ q.cfg
  pub seq_kept : q'.seq_counter ≡ q.seq_counter
  pub moved : q'.running + length q'.waiters ≡ q.running + length q.waiters
  pub fewer : length q'.waiters ≤ length q.waiters
  pub within : (q'.running ≤ q.running) ⊎ (q'.running ≤ q.cfg.max_concurrency)
  pub busy : (q'.waiters ≡ []) ⊎ (q.cfg.max_concurrency ≤ q'.running)

Pumped-refl : (q : Queue) → (q.waiters ≡ []) ⊎ (q.cfg.max_concurrency ≤ q.running) → Pumped q q
Pumped-refl q b = record {
  cfg_kept = refl;
  seq_kept = refl;
  moved = refl;
  fewer = omega arith;
  within = inl (omega arith);
  busy = b;
}

nil_of_length : (ws : List Waiter) → length ws ≡ 0 → ws ≡ []
nil_of_length [] h = refl
nil_of_length (w ∷ ws) h = absurd (omega arith)

Pumped-start :
    (q q' : Queue) (w : Waiter)
    → Memᴰ w q.waiters
    → q.running < q.cfg.max_concurrency
    → Pumped (start w q) q'
    → Pumped q q'
Pumped-start q q' w there free p =
    let shorter = length-splice w q.waiters there in
    record {
      cfg_kept = p.cfg_kept;
      seq_kept = p.seq_kept;
      moved = omega (arith, shorter, p.moved);
      fewer = omega (arith, shorter, p.fewer);
      within = inr (⊎_elim (λ h. omega arith) (λ h. h) p.within);
      busy = p.busy;
    }

pub loop-Pumped : (n : ℕ) (q : Queue) → length q.waiters ≤ n → Pumped q (pump_loop n q).0
unfolding pump_loop
loop-Pumped zero q h = Pumped-refl q (inl (nil_of_length q.waiters (omega arith)))
loop-Pumped (suc n) q h = elim (Bool-cases (ltb q.running q.cfg.max_concurrency)) [
  | inl free ↦ elim (List-cases (ordered q.waiters)) [
    | inl nobody ↦
        rw (free, nobody, pump_loop)
          (Pumped-refl q (
            inl (
              nil_of_length q.waiters (omega (arith, length-ordered q.waiters, ap length nobody)))))
    | inr (w, rest, e) ↦
        let there = mem-ordered w q.waiters (rw e (Memᴰ.head refl)) in
        let shorter = length-splice w q.waiters there in
        let ih = loop-Pumped n (start w q) (omega arith) in
        rw (free, e, pump_loop)
          (Pumped-start q (pump_loop n (start w q)).0 w there (ground arith) ih)
  ]
  | inr full ↦ rw full (Pumped-refl q (inr (ground arith)))
]

pub pump-Pumped : (q : Queue) → Pumped q (pump q).0
unfolding pump
pump-Pumped q = loop-Pumped (length q.waiters) q (omega arith)

-- The tasks that the events of a call start.
abbrev pub tasks_started : List Event → List ℕ
tasks_started [] = []
tasks_started (started task ∷ es) = task ∷ tasks_started es
tasks_started (e ∷ es) = tasks_started es

loop_started :
    (n : ℕ) (q : Queue)
    → (pump_loop n q).0.running ≡ q.running + length (tasks_started (pump_loop n q).1)
unfolding pump_loop
loop_started zero q = omega arith
loop_started (suc n) q = elim (Bool-cases (ltb q.running q.cfg.max_concurrency)) [
  | inl free ↦ elim (List-cases (ordered q.waiters)) [
    | inl nobody ↦ rw (free, nobody, pump_loop) (omega arith)
    | inr (w, rest, e) ↦ rw (free, e, pump_loop) (omega (arith, loop_started n (start w q)))
  ]
  | inr full ↦ rw full (omega arith)
]

pub pump_started : (q : Queue) → (pump q).0.running ≡ q.running + length (tasks_started (pump q).1)
unfolding pump
pump_started q = loop_started (length q.waiters) q

pub enqueue_started :
    (q : Queue) (task : ℕ) (priority : ℤ)
    → (enqueue task priority q).0.running
      ≡ q.running + length (tasks_started (enqueue task priority q).1)
unfolding enqueue
enqueue_started q task priority = elim (Bool-cases (ltb q.running q.cfg.max_concurrency)) [
  | inl free ↦ rw free refl
  | inr full ↦ elim (Bool-cases (leb q.cfg.max_queue (length q.waiters))) [
    | inl crowded ↦ rw (full, crowded) (omega arith)
    | inr space ↦ rw (full, space) (omega arith)
  ]
]

pub expire_started :
    (q : Queue) (w : Waiter)
    → (expire w q).0.running ≡ q.running + length (tasks_started (expire w q).1)
unfolding expire
expire_started q w = elim (Bool-cases (any (λ v. v.seq == w.seq) q.waiters)) [
  | inl there ↦ rw there (omega arith)
  | inr gone ↦ rw gone (omega arith)
]
