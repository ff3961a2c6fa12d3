-- ===== src/Commands/Acks.antt =====
-- Order of the command queue: a push goes to the end of its lease, an ack takes out one command.
use apipi.Base.{
  ℕ, ◌≡◌, refl, sym, ap, ◌∙◌, true, not, ◌&&◌, List, [], ◌∷◌, ◌++◌, Option, none, some, is_empty,
  leb, ◌==◌, ==_eq, ==_refl, if◌then◌else◌, length, All, Bool-cases, Option-cases, inl, inr, arith,
  some_eq, subst, ok, err,
}
use text.Mathlib.TextPositions.{eq_refl}
use apipi.Base.Dict
use apipi.Commands.Queue.{
  PendingCommand, CommandQueue, Wire, push, new_entry, discard, remove_first, equals, same_option,
  ack, find, get, for_lease, max_pending_per_lease, queue_full,
}
use apipi.Commands.Bounds.{QueueOk}

same_option_refl : (a : Option ℕ) → same_option a a ≡ true
unfolding same_option
same_option_refl none = refl
same_option_refl (some n) = ==_refl n

equals_refl : (e : PendingCommand) → equals e e ≡ true
unfolding equals
equals_refl e = simp (==_refl, eq_refl, same_option_refl)

-- Equal commands have the same id.
equals-id : (a b : PendingCommand) → equals a b ≡ true → (a.wire.id == b.wire.id) ≡ true
unfolding equals
equals-id a b h = elim (Bool-cases (a.wire.id == b.wire.id)) [ inl p ↦ p | inr p ↦ cc (rw p at h) ]

-- The queue of a lease without the first command of an id.
unfoldable pub without_id : ℕ → List PendingCommand → List PendingCommand
without_id c [] = []
without_id c (e ∷ es) = if e.wire.id == c then es else e ∷ without_id c es

remove_first-find :
    (c : ℕ) (e : PendingCommand) (es : List PendingCommand)
    → find c es ≡ some e
    → (remove_first e es ≡ without_id c es) × (e.wire.id ≡ c)
unfolding find remove_first without_id
remove_first-find c e [] h = cc
remove_first-find c e (x ∷ es) h = elim (Bool-cases (x.wire.id == c)) [
  | inl p ↦
      let same : x ≡ e = some_eq (rw p at h) in
      rw (p, ← same) (rw (equals_refl x) (refl, ==_eq x.wire.id c p))
  | inr p ↦
      let (ih, id) = remove_first-find c e es (rw p at h) in
      elim (Bool-cases (equals x e)) [
        | inl q ↦ cc (p, rw id at (equals-id x e q))
        | inr q ↦ rw (p, q) (ap (◌∷◌ x) ih, id)
      ]
]

find-own :
    (l c : ℕ) (e : PendingCommand) (es : List PendingCommand)
    → All (λ x. x.lease_id ≡ l) es
    → find c es ≡ some e
    → e.lease_id ≡ l
unfolding find
find-own l c e [] h f = cc
find-own l c e (x ∷ es) h f = elim (Bool-cases (x.wire.id == c)) [
  | inl p ↦ ap (λ (y : PendingCommand). y.lease_id) (sym (some_eq (rw p at f))) ∙ h.0
  | inr p ↦ find-own l c e es h.1 (rw p at f)
]

is_empty-eq : (es : List PendingCommand) → is_empty es ≡ true → es ≡ []
is_empty-eq [] h = refl
is_empty-eq (e ∷ es) h = cc

without_id_absent : (c : ℕ) (es : List PendingCommand) → find c es ≡ none → without_id c es ≡ es
unfolding find without_id
without_id_absent c [] h = refl
without_id_absent c (e ∷ es) h = ground (arith, without_id_absent c es)

find-nil : (c : ℕ) (e : PendingCommand) → ¬ (find c [] ≡ some e)
unfolding find
find-nil c e h = cc

module _ (q : CommandQueue) (k : QueueOk q) where
  discard_own :
      (m c : ℕ) (e : PendingCommand) (es : List PendingCommand)
      → Dict.get q.by_lease e.lease_id ≡ some es
      → find c es ≡ some e
      → for_lease (discard q e) m ≡ (if e.lease_id == m then without_id c es else for_lease q m)
  unfolding discard for_lease
  discard_own m c e es g f =
      let out = (remove_first-find c e es f).0 in
      elim (Bool-cases (is_empty (remove_first e es))) [
        | inl p ↦
            rw (g, p, discard)
              (Dict.get_or-remove q.by_lease e.lease_id m []
                ∙ rw (← out, is_empty-eq (remove_first e es) p) refl)
        | inr p ↦
            rw (g, p, discard)
              (Dict.get_or-put q.by_lease e.lease_id m (remove_first e es) [] ∙ rw out refl)
      ]

  discard-for_lease :
      (l m c : ℕ) (e : PendingCommand)
      → find c (for_lease q l) ≡ some e
      → for_lease (discard q e) m ≡ (if l == m then without_id c (for_lease q l) else for_lease q m)
  discard-for_lease l m c e f = elim (Option-cases (Dict.get q.by_lease l)) [
    | inl g ↦ absurd (find-nil c e (unfold for_lease in rw g at f))
    | inr (es, g) ↦
        let queue : for_lease q l ≡ es = unfold for_lease in rw g refl in
        let f' : find c es ≡ some e = rw queue at f in
        let own : e.lease_id ≡ l = find-own l c e es (k.each l es g).own f' in
        rw queue (
          subst
            (λ n. for_lease (discard q e) m ≡ (if n == m then without_id c es else for_lease q m))
            own (discard_own m c e es (rw (ap (Dict.get q.by_lease) own) g) f'))
  ]

  -- An ack, in a queue that its calls have made: it returns the first command of that lease with
  -- that id, or none if there is none; it takes that one command out of its lease and keeps the
  -- order of the others; the queues of the other leases stay as they are.
  pub ack-for_lease :
      (l m c : ℕ)
      → ((ack q l c).1 ≡ find c (for_lease q l))
        × (for_lease (ack q l c).0 m
            ≡ (if l == m then without_id c (for_lease q l) else for_lease q m))
  unfolding ack get
  ack-for_lease l m c = elim (Option-cases (find c (for_lease q l))) [
    | inl n ↦
        rw (n, ack)
          (
            refl,
            elim (Bool-cases (l == m)) [
              | inl p ↦ rw (p, without_id_absent c (for_lease q l) n) (rw (==_eq l m p))
              | inr p ↦ rw p
            ],
          )
    | inr (e, f) ↦ rw (f, ack) (refl, discard-for_lease l m c e f)
  ]

-- A push, whatever the queue: the command goes behind the earlier ones of its lease if that lease
-- has fewer than 16, and no other queue changes. It fails exactly where it is not queued.
pub push-for_lease :
    (q : CommandQueue) (w : Wire) (worker : Option ℕ) (now m : ℕ)
    → let full = leb max_pending_per_lease (length (for_lease q w.lease_id)) in
      let e = new_entry q w worker now in
      (for_lease (push q w worker now).0 m
        ≡ (if w.lease_id == m && not full then for_lease q m ++ e ∷ [] else for_lease q m))
      × ((push q w worker now).1 ≡ (if full then err (queue_full w.lease_id) else ok e))
unfolding push for_lease
push-for_lease q w worker now m =
    let l = w.lease_id in
    let es = for_lease q l in
    let e = new_entry q w worker now in
    elim (Bool-cases (leb max_pending_per_lease (length es))) [
      | inl p ↦ rw p (
        Dict.get_or-put q.by_lease l m es []
            ∙ elim (Bool-cases (l == m)) [ inl h ↦ rw h (rw (==_eq l m h)) | inr h ↦ rw h ],
        refl,
      )
      | inr p ↦ rw p (
        Dict.get_or-put q.by_lease l m (es ++ e ∷ []) []
            ∙ elim (Bool-cases (l == m)) [ inl h ↦ rw h (rw (==_eq l m h)) | inr h ↦ rw h ],
        refl,
      )
    ]
