-- ===== src/Llm/Queue/Order.antt =====
-- Which waiter the queue serves next: the highest priority, and the earliest of those.
use mathlib.Core.List.Memᴰ
use nocode_app.Base.{
  ℕ, zero, suc, ◌≤◌, true, false, List, [], ◌∷◌, ltb, length, ◌≡◌, ◌⊎◌, inl, inr, ⊎_elim, refl,
  arith, Memᴰ, Bool-cases, List-cases,
}
use nocode_app.Base.Int.{◌≤ℤ◌, ◌<ℤ◌}
use nocode_app.Llm.Queue.{Waiter, Queue, Event, started, before, insert, ordered, pump_loop, pump}

before_neg_trans : (v x w : Waiter) → before v x ≡ false → before x w ≡ false → before v w ≡ false
unfolding before
before_neg_trans v x w h k = ground arith

before_asym : (x w : Waiter) → before x w ≡ true → before w x ≡ false
unfolding before
before_asym x w h = ground arith

pub mem-insert : (a w : Waiter) (ws : List Waiter) → Memᴰ a (insert w ws) → (a ≡ w) ⊎ Memᴰ a ws
unfolding insert
mem-insert a w [] m = inl (Memᴰ.eq_of_singleton m)
mem-insert a w (x ∷ ws) m = elim (Bool-cases (before x w)) [
  | inl later ↦
      ⊎_elim (λ e. inr (Memᴰ.head e))
        (λ t. ⊎_elim inl (λ r. inr (Memᴰ.tail r)) (mem-insert a w ws t))
        (Memᴰ.cases_cons (rw later at m))
  | inr here ↦ Memᴰ.cases_cons (rw here at m)
]

pub insert-mem : (a w : Waiter) (ws : List Waiter) → (a ≡ w) ⊎ Memᴰ a ws → Memᴰ a (insert w ws)
unfolding insert
insert-mem a w [] (inl e) = Memᴰ.head e
insert-mem a w [] (inr m) = absurd (Memᴰ.not-nil m)
insert-mem a w (x ∷ ws) h = elim (Bool-cases (before x w)) [
  | inl later ↦ rw later (
      ⊎_elim (λ e. Memᴰ.tail (insert-mem a w ws (inl e)))
        (λ m.
          ⊎_elim (λ e. Memᴰ.head e) (λ t. Memᴰ.tail (insert-mem a w ws (inr t)))
            (Memᴰ.cases_cons m))
        h)
  | inr here ↦ rw here (⊎_elim (λ e. Memᴰ.head e) (λ m. Memᴰ.tail m) h)
]

pub mem-ordered : (a : Waiter) (ws : List Waiter) → Memᴰ a (ordered ws) → Memᴰ a ws
unfolding ordered
mem-ordered a [] m = m
mem-ordered a (w ∷ ws) m =
    ⊎_elim (λ e. Memᴰ.head e) (λ t. Memᴰ.tail (mem-ordered a ws t)) (mem-insert a w (ordered ws) m)

pub ordered-mem : (a : Waiter) (ws : List Waiter) → Memᴰ a ws → Memᴰ a (ordered ws)
unfolding ordered
ordered-mem a [] m = m
ordered-mem a (w ∷ ws) m =
    insert-mem a w (ordered ws) (⊎_elim inl (λ t. inr (ordered-mem a ws t)) (Memᴰ.cases_cons m))

-- Nothing in the list comes before the head, and so on down.
abbrev IsOrdered : List Waiter → Type 0
IsOrdered [] = Unit {0}
IsOrdered (w ∷ ws) = ((v : Waiter) → Memᴰ v ws → before v w ≡ false) × IsOrdered ws

insert-IsOrdered : (w : Waiter) (ws : List Waiter) → IsOrdered ws → IsOrdered (insert w ws)
unfolding insert
insert-IsOrdered w [] h = (λ v m. absurd (Memᴰ.not-nil m), tt)
insert-IsOrdered w (x ∷ ws) h = elim (Bool-cases (before x w)) [
  | inl later ↦ rw later (
    λ v m. ⊎_elim (λ e. rw e (before_asym x w later)) (λ t. h.0 v t) (mem-insert v w ws m),
    insert-IsOrdered w ws h.1,
  )
  | inr here ↦ rw here (
    λ v m. ⊎_elim (λ e. rw e here) (λ t. before_neg_trans v x w (h.0 v t) here) (Memᴰ.cases_cons m),
    h,
  )
]

ordered-IsOrdered : (ws : List Waiter) → IsOrdered (ordered ws)
unfolding ordered
ordered-IsOrdered [] = tt
ordered-IsOrdered (w ∷ ws) = insert-IsOrdered w (ordered ws) (ordered-IsOrdered ws)

-- `w` is served no later than `v`: its priority is higher, or as high and it came no later.
abbrev pub Precedes : Waiter → Waiter → Type 0
Precedes w v = (v.priority <ℤ w.priority) ⊎ ((v.priority ≤ℤ w.priority) × (w.seq ≤ v.seq))

not-before : (v w : Waiter) → before v w ≡ false → Precedes w v
unfolding before
not-before v w h = ground arith

pub head-Precedes :
    (ws : List Waiter) (w : Waiter) {rest : List Waiter}
    → ordered ws ≡ w ∷ rest
    → Memᴰ w ws × ((v : Waiter) → Memᴰ v ws → Precedes w v)
head-Precedes ws w {rest} e = (
  mem-ordered w ws (rw e (Memᴰ.head refl)),
  λ v m.
      ⊎_elim (λ same. rw same (inr (omega arith, omega arith)))
        (λ t. not-before v w ((rw e at (ordered-IsOrdered ws)).0 v t))
        (Memᴰ.cases_cons (rw e at (ordered-mem v ws m))),
)

loop_picks :
    (n : ℕ) (q : Queue) (v : Waiter) {task : ℕ} {events : List Event}
    → (pump_loop n q).1 ≡ started task ∷ events
    → Memᴰ v q.waiters
    → (w : Waiter) × Memᴰ w q.waiters × (w.task ≡ task) × Precedes w v
unfolding pump_loop
loop_picks zero q v h m = cc
loop_picks (suc n) q v h m = elim (Bool-cases (ltb q.running q.cfg.max_concurrency)) [
  | inl free ↦ elim (List-cases (ordered q.waiters)) [
    | inl nobody ↦ cc (rw (free, nobody, pump_loop) at h)
    | inr (w, rest, e) ↦
        let (there, first) = head-Precedes q.waiters w e in
        (w, there, cc (rw (free, e, pump_loop) at h), first v m)
  ]
  | inr full ↦ cc (rw full at h)
]

-- The first task that `pump` starts is that of a waiter that precedes every waiter of the queue.
pub pump_picks :
    (q : Queue) (v : Waiter) {task : ℕ} {events : List Event}
    → (pump q).1 ≡ started task ∷ events
    → Memᴰ v q.waiters
    → (w : Waiter) × Memᴰ w q.waiters × (w.task ≡ task) × Precedes w v
unfolding pump
pump_picks q v h m = loop_picks (length q.waiters) q v h m
