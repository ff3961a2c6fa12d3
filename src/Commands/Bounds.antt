-- ===== src/Commands/Bounds.antt =====
-- The command queue's invariant: bounded, non-empty queues, each entry under its own lease.
use apipi.Base.{
  ℕ, ◌≤◌, ◌<◌, ◌≡◌, refl, false, List, [], ◌∷◌, ◌++◌, Option, none, some, is_empty, leb, leb→lt,
  ◌==◌, ==_eq, if◌then◌else◌, length, length-append, All, All-append, Bool-cases, Option-cases, inl,
  inr, arith, subst, some_eq,
}
use mathlib.Core.Option
use apipi.Base.Dict
use apipi.Base.Dict.{Dict}
use apipi.Commands.Queue.{
  PendingCommand, CommandQueue, Wire, push, new_entry, discard, remove_first, equals, ack, get,
  forget_turns, drop_lease, mark_sent, stamp, for_lease, max_pending_per_lease,
}

-- The queue of one lease.
pub record LeaseOk (l : ℕ) (es : List PendingCommand) : Type 0 where
  pub some_left : 0 < length es
  pub bounded : length es ≤ max_pending_per_lease
  pub own : All (λ e. e.lease_id ≡ l) es

pub record QueueOk (q : CommandQueue) : Type 0 where
  pub distinct : Dict.Distinct q.by_lease
  pub each : (l : ℕ) (es : List PendingCommand) → Dict.get q.by_lease l ≡ some es → LeaseOk l es

put-QueueOk :
    (q q' : CommandQueue) (l : ℕ) (es : List PendingCommand)
    → QueueOk q
    → q'.by_lease ≡ Dict.put q.by_lease l es
    → LeaseOk l es
    → QueueOk q'
put-QueueOk q q' l es k e h = record {
  distinct = rw e (Dict.put-Distinct q.by_lease l es k.distinct);
  each = λ m fs g. pick m fs (rw (← (Dict.get-put q.by_lease l m es)) (rw (← e) g));
}
  where
    pick :
        (m : ℕ) (fs : List PendingCommand)
        → (if l == m then some es else Dict.get q.by_lease m) ≡ some fs
        → LeaseOk m fs
    pick m fs g = elim (Bool-cases (l == m)) [
      | inl p ↦
          subst (λ n. LeaseOk n fs) {x = l} {y = m} (==_eq l m p)
            (subst (LeaseOk l) {x = es} {y = fs} (some_eq (rw p at g)) h)
      | inr p ↦ k.each m fs (rw p at g)
    ]

remove-QueueOk :
    (q q' : CommandQueue) (l : ℕ) → QueueOk q → q'.by_lease ≡ Dict.remove q.by_lease l → QueueOk q'
remove-QueueOk q q' l k e = record {
  distinct = rw e (Dict.remove-Distinct q.by_lease l k.distinct);
  each = λ m fs g. pick m fs (rw (← (Dict.get-remove q.by_lease l m)) (rw (← e) g));
}
  where
    pick :
        (m : ℕ) (fs : List PendingCommand)
        → (if l == m then none else Dict.get q.by_lease m) ≡ some fs
        → LeaseOk m fs
    pick m fs g = elim (Bool-cases (l == m)) [
      | inl p ↦ cc (rw p at g)
      | inr p ↦ k.each m fs (rw p at g)
    ]

-- An absent lease has an empty queue, which is within the bound and all its own.
pub for_lease-own :
    (q : CommandQueue) (l : ℕ) → QueueOk q → All (λ e. e.lease_id ≡ l) (for_lease q l)
unfolding for_lease
for_lease-own q l k = elim (Option-cases (Dict.get q.by_lease l)) [
  | inl e ↦ rw e tt
  | inr (es, e) ↦ rw e (k.each l es e).own
]

for_lease-le :
    (q : CommandQueue) (l : ℕ) → QueueOk q → length (for_lease q l) ≤ max_pending_per_lease
unfolding for_lease
for_lease-le q l k = elim (Option-cases (Dict.get q.by_lease l)) [
  | inl e ↦ rw e (omega arith)
  | inr (es, e) ↦ rw e (k.each l es e).bounded
]

push-QueueOk :
    (q : CommandQueue) (w : Wire) (worker : Option ℕ) (now : ℕ)
    → QueueOk q
    → QueueOk (push q w worker now).0
unfolding push new_entry
push-QueueOk q w worker now k =
    let l = w.lease_id in
    let es = for_lease q l in
    let own = for_lease-own q l k in
    elim (Bool-cases (leb max_pending_per_lease (length es))) [
      | inl full ↦ rw full (
          put-QueueOk q _ l es k refl
            (record { some_left = ground arith; bounded = for_lease-le q l k; own = own }))
      | inr room ↦
          let e = new_entry q w worker now in
          let le = leb→lt max_pending_per_lease (length es) room in
          rw room (
            put-QueueOk q _ l (es ++ e ∷ []) k refl (record {
              some_left = omega (arith, length-append es (e ∷ []));
              bounded = omega (arith, le, length-append es (e ∷ []));
              own = All-append (λ x. x.lease_id ≡ l) es _ own (refl, tt);
            }))
    ]

length-remove_first-le :
    (e : PendingCommand) (es : List PendingCommand) → length (remove_first e es) ≤ length es
unfolding remove_first
length-remove_first-le e [] = omega arith
length-remove_first-le e (x ∷ es) = ground (arith, length-remove_first-le e es)

remove_first-All {κ} :
    (Q : PendingCommand → Type κ) (e : PendingCommand) (es : List PendingCommand)
    → All Q es
    → All Q (remove_first e es)
unfolding remove_first
remove_first-All Q e [] h = tt
remove_first-All Q e (x ∷ es) h = elim (Bool-cases (equals x e)) [
  | inl p ↦ rw p h.1
  | inr p ↦ rw p (h.0, remove_first-All Q e es h.1)
]

not_empty : (es : List PendingCommand) → is_empty es ≡ false → 0 < length es
not_empty [] h = cc
not_empty (x ∷ es) h = omega arith

pub discard-QueueOk : (q : CommandQueue) (e : PendingCommand) → QueueOk q → QueueOk (discard q e)
unfolding discard
discard-QueueOk q e k = elim (Option-cases (Dict.get q.by_lease e.lease_id)) [
  | inl g ↦ rw (g, discard) k
  | inr (es, g) ↦
      let o = k.each e.lease_id es g in
      elim (Bool-cases (is_empty (remove_first e es))) [
        | inl p ↦ rw (g, p, discard) (remove-QueueOk q _ e.lease_id k refl)
        | inr p ↦
            rw (g, p, discard)
              (put-QueueOk q _ e.lease_id (remove_first e es) k refl (record {
                some_left = not_empty (remove_first e es) p;
                bounded = omega (arith, o.bounded, length-remove_first-le e es);
                own = remove_first-All (λ x. x.lease_id ≡ e.lease_id) e es o.own;
              }))
      ]
]

ack-QueueOk : (q : CommandQueue) (l c : ℕ) → QueueOk q → QueueOk (ack q l c).0
unfolding ack
ack-QueueOk q l c k = elim (Option-cases (get q l c)) [
  | inl g ↦ rw (g, ack) k
  | inr (e, g) ↦ rw (g, ack) (discard-QueueOk q e k)
]

length-stamp :
    (e : PendingCommand) (now : ℕ) (es : List PendingCommand) → length (stamp e now es) ≡ length es
unfolding stamp
length-stamp e now [] = refl
length-stamp e now (x ∷ es) = omega (arith, length-stamp e now es)

stamp-own :
    (l : ℕ) (e : PendingCommand) (now : ℕ) (es : List PendingCommand)
    → All (λ x. x.lease_id ≡ l) es
    → All (λ x. x.lease_id ≡ l) (stamp e now es)
unfolding stamp
stamp-own l e now [] h = tt
stamp-own l e now (x ∷ es) h = (ground arith, stamp-own l e now es h.1)

mark_sent-QueueOk :
    (q : CommandQueue) (e : PendingCommand) (now : ℕ) → QueueOk q → QueueOk (mark_sent q e now)
unfolding mark_sent
mark_sent-QueueOk q e now k = record {
  distinct = Dict.map_values-Distinct (stamp e now) q.by_lease k.distinct;
  each = λ l fs g. pick l fs (rw (Dict.get-map_values (stamp e now) q.by_lease l) at g);
}
  where
    pick :
        (l : ℕ) (fs : List PendingCommand)
        → Option.map (stamp e now) (Dict.get q.by_lease l) ≡ some fs
        → LeaseOk l fs
    pick l fs g = elim (Option-cases (Dict.get q.by_lease l)) [
      | inl n ↦ cc (rw n at g)
      | inr (es, n) ↦
          let o = k.each l es n in
          subst (LeaseOk l) {x = stamp e now es} {y = fs} (some_eq (rw n at g)) (record {
            some_left = omega (arith, o.some_left, length-stamp e now es);
            bounded = omega (arith, o.bounded, length-stamp e now es);
            own = stamp-own l e now es o.own;
          })
    ]

-- The calls of the queue.
pub data Op : Type 0 where
  pushes : Wire → Option ℕ → ℕ → Op
  acks : ℕ → ℕ → Op
  discards : PendingCommand → Op
  marks : PendingCommand → ℕ → Op
  forgets drops : ℕ → Op

unfoldable pub step : CommandQueue → Op → CommandQueue
step q (pushes w worker now) = (push q w worker now).0
step q (acks l c) = (ack q l c).0
step q (discards e) = discard q e
step q (marks e now) = mark_sent q e now
step q (forgets l) = forget_turns q l
step q (drops l) = (drop_lease q l).0

unfoldable pub run : CommandQueue → List Op → CommandQueue
run q [] = q
run q (op ∷ ops) = run (step q op) ops

unfoldable pub empty : CommandQueue
empty = record { by_lease = []; turns = []; allocated = 0 }

step-QueueOk : (q : CommandQueue) (op : Op) → QueueOk q → QueueOk (step q op)
unfolding step forget_turns drop_lease
step-QueueOk q (pushes w worker now) k = push-QueueOk q w worker now k
step-QueueOk q (acks l c) k = ack-QueueOk q l c k
step-QueueOk q (discards e) k = discard-QueueOk q e k
step-QueueOk q (marks e now) k = mark_sent-QueueOk q e now k
step-QueueOk q (forgets l) k = elim (Bool-cases (is_empty (for_lease q l))) [
  | inl p ↦ rw p (record { distinct = k.distinct; each = k.each })
  | inr p ↦ rw p k
]
step-QueueOk q (drops l) k = remove-QueueOk q _ l k refl

pub run-QueueOk : (q : CommandQueue) (ops : List Op) → QueueOk q → QueueOk (run q ops)
unfolding run
run-QueueOk q [] k = k
run-QueueOk q (op ∷ ops) k = run-QueueOk (step q op) ops (step-QueueOk q op k)

-- After any calls on a new queue no lease stands twice or with an empty list, no lease has more
-- than 16 unacked commands, and every command stands under the lease that it names.
pub queue-QueueOk : (ops : List Op) → QueueOk (run empty ops)
unfolding empty Dict.get
queue-QueueOk ops = run-QueueOk _ ops (record { distinct = tt; each = λ l es g. cc g })
