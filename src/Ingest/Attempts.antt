-- ===== src/Ingest/Attempts.antt =====
-- The tries of one batch and the acks sent for it (_apply_batch and _after_flush of
-- src/apipi/workerhub/serve.py). The delays between the tries are left out.
use apipi.Base.{
  ℕ, zero, suc, ◌≤◌, ◌<◌, ◌≡◌, refl, Bool, true, false, ◌&&◌, List, [], ◌∷◌, ◌++◌, append_assoc,
  append-nil, ==_eq, Option, some, leb, ◌==◌, if◌then◌else◌, is_empty, All, All-append, arith,
  Bool-cases, Option-cases, inl, inr, ◌⊎◌,
}
use apipi.Base.Dict
use apipi.Base.Dict.{Dict}
use apipi.Ingest.Batch.{
  Item, Reason, Verdict, Row, Db, Outcome, nothing, ack_of, ingest_item, ingest_items, flush_batch,
}
use apipi.Ingest.Acks.{settled, waits, ingest_item-Round}
use apipi.Ingest.Retry.{Later, InOrder, Decided, waiting, All-both, ingest_items-Decided}

abbrev pub ingest_attempts : ℕ
ingest_attempts = 3

-- What is left of a batch: the acks that were sent, and whether the socket is to close.
pub record Sent (S : Type 0) : Type 0 where
  pub db : Db S
  pub acks : List (ℕ × ℕ)
  pub closed : Bool

-- An ack that covers an envelope.
unfoldable pub covers : List (ℕ × ℕ) → ℕ → ℕ → Bool
covers [] s n = false
covers ((t, m) ∷ acks) s n = if t == s && leb n m then true else covers acks s n

abbrev pub covered : List (ℕ × ℕ) → Item → Bool
covered acks i = covers acks i.session_id i.seq

covers-append :
    (xs ys : List (ℕ × ℕ)) (s n : ℕ)
    → covers (xs ++ ys) s n ≡ (if covers xs s n then true else covers ys s n)
unfolding covers
covers-append [] ys s n = refl
covers-append ((t, m) ∷ xs) ys s n = ground (arith, covers-append xs ys s n)

get-covered :
    (acks : Dict ℕ) (i : Item) (n : ℕ)
    → Dict.get acks i.session_id ≡ some n
    → i.seq ≤ n
    → covered acks i ≡ true
unfolding covers Dict.get
get-covered [] i n g h = cc
get-covered ((s, m) ∷ acks) i n g h = ground (arith, get-covered acks i n)

ack_of-covered :
    (out : Outcome) (i : Item)
    → 0 < i.seq
    → i.seq ≤ ack_of out i.session_id
    → covered out.acks i ≡ true
unfolding ack_of
ack_of-covered out i pos h = elim (Option-cases (Dict.get out.acks i.session_id)) [
  | inl g ↦ absurd (omega (arith, rw g at h))
  | inr (n, g) ↦ get-covered out.acks i n g (rw g at h)
]

waiting-covered :
    (acks : List (ℕ × ℕ)) (i : Item) (is : List Item)
    → All (λ j. covered acks j ≡ true) is
    → waiting i.session_id i.seq is ≡ true
    → covered acks i ≡ true
waiting-covered acks i [] h w = cc
waiting-covered acks i (j ∷ is) h w =
    elim (Bool-cases (j.session_id == i.session_id && j.seq == i.seq)) [
      | inr q ↦ waiting-covered acks i is h.1 (rw q at w)
      | inl q ↦
          rw
            (
              ← (==_eq j.session_id i.session_id (ground arith)),
              ← (==_eq j.seq i.seq (ground arith)),
            )
            h.0
    ]

none_waits :
    (i : Item) (is : List Item) → is_empty is ≡ true → ¬ (waiting i.session_id i.seq is ≡ true)
none_waits i [] e w = cc
none_waits i (j ∷ is) e w = cc

-- Envelopes that wait stay in order before those to come.
Later-append : (i : Item) (is js : List Item) → Later i (is ++ js) → Later i is × Later i js
Later-append i [] js h = (tt, h)
Later-append i (j ∷ is) js h = let (a, b) = Later-append i is js h.1 in ((h.0, a), b)

InOrder-drop :
    (is : List Item) (i : Item) (js : List Item) → InOrder (is ++ i ∷ js) → InOrder (is ++ js)
InOrder-drop [] i js h = h.1
InOrder-drop (k ∷ is) i js h =
    let (a, b) = Later-append k is (i ∷ js) h.0 in
    (
      All-append (λ (j : Item). (k.session_id == j.session_id) ≡ true → k.seq < j.seq) is js a b.1,
      InOrder-drop is i js h.1,
    )

abbrev Positive : Item → Type 0
Positive i = 0 < i.seq

module _ {S : Type 0} (validate : S → Row → Item → Option Reason)
    (apply : S → Row → Item → Verdict S) (worker : ℕ) where
  ingest_items-InOrder :
      (db : Db S) (out : Outcome) (is : List Item)
      → InOrder (out.retry ++ is)
      → All Positive out.retry
      → All Positive is
      → let done = (ingest_items validate apply worker db out is).1 in
        InOrder done.retry × All Positive done.retry
  unfolding ingest_items
  ingest_items-InOrder db out [] o p q = (rw (append-nil out.retry) at o, p)
  ingest_items-InOrder db out (i ∷ is) o p q =
      let step = ingest_item validate apply worker db out i in
      elim (ingest_item-Round validate apply worker db out i) [
        | settled e r s m ↦
            ingest_items-InOrder step.0 step.1 is (rw r (InOrder-drop out.retry i is o)) (rw r p)
              q.1
        | waits e r s m ↦
            ingest_items-InOrder step.0 step.1 is (rw r (rw (append_assoc out.retry (i ∷ []) is) o))
              (rw r (All-append Positive out.retry (i ∷ []) p (q.0, tt))) q.1
      ]

  retry_InOrder :
      (db : Db S) (is : List Item)
      → InOrder is
      → All Positive is
      → let out = (flush_batch validate apply worker db is).1 in
        InOrder out.retry × All Positive out.retry
  unfolding flush_batch
  retry_InOrder db is o p = ingest_items-InOrder db nothing is o tt p

  flush_batch-Decided :
      (db : Db S) (is : List Item) → All (Decided (flush_batch validate apply worker db is).1) is
  unfolding flush_batch
  flush_batch-Decided db is = ingest_items-Decided validate apply worker db nothing is

  later_try :
      (db : Db S) (is : List Item)
      → All Positive is
      → (acks : List (ℕ × ℕ))
      → let out = (flush_batch validate apply worker db is).1 in
        All (λ i. covered acks i ≡ true) out.retry
        → All (λ i. covered (out.acks ++ acks) i ≡ true) is
  later_try db is p acks h =
      let out = (flush_batch validate apply worker db is).1 in
      All-both
        (λ i pos d. rw (covers-append out.acks acks i.session_id i.seq) (elim d [
          | inl a ↦ rw (ack_of-covered out i pos a) refl
          | inr w ↦ rw (waiting-covered acks i out.retry h w) (ground arith)
        ]))
        is p (flush_batch-Decided db is)

  first_try :
      (db : Db S) (is : List Item)
      → All Positive is
      → let out = (flush_batch validate apply worker db is).1 in
        is_empty out.retry ≡ true → All (λ i. covered out.acks i ≡ true) is
  first_try db is p e =
      let out = (flush_batch validate apply worker db is).1 in
      All-both
        (λ i pos d. elim d [
          | inl a ↦ ack_of-covered out i pos a
          | inr w ↦ absurd (none_waits i out.retry e w)
        ])
        is p (flush_batch-Decided db is)

-- What validation and the writes do may differ from try to try: `n` is the number of tries left
-- behind it, and a failure that was temporary may be gone.
module _ {S : Type 0} (validate : ℕ → S → Row → Item → Option Reason)
    (apply : ℕ → S → Row → Item → Verdict S) (worker : ℕ) where
  -- _apply_batch with `n` tries left; `raised` says which of them fail as a whole, which leaves the
  -- database as it was.
  unfoldable pub apply_batch : ℕ → (ℕ → Bool) → Db S → List Item → Sent S
  apply_batch zero raised db pending = record { db = db; acks = []; closed = true }
  apply_batch (suc n) raised db pending =
      let out = flush_batch (validate n) (apply n) worker db pending in
      let again = apply_batch n raised db pending in
      let rest = apply_batch n raised out.0 out.1.retry in
      if raised n
      then again
      else if is_empty out.1.retry
      then record { db = out.0; acks = out.1.acks; closed = false }
      else record rest { acks = out.1.acks ++ rest.acks }

  -- A batch whose numbers are positive and rise in each session, whatever fails in whichever try and
  -- is gone in the next: at the end the socket is to be closed, or an ack that covers it was sent for
  -- each envelope of the batch.
  pub apply_batch-covered :
      (n : ℕ) (raised : ℕ → Bool) (db : Db S) (pending : List Item)
      → InOrder pending
      → All Positive pending
      → let r = apply_batch n raised db pending in
        (r.closed ≡ true) ⊎ All (λ i. covered r.acks i ≡ true) pending
  unfolding apply_batch
  apply_batch-covered zero raised db pending o p = inl refl
  apply_batch-covered (suc n) raised db pending o p =
      let out = flush_batch (validate n) (apply n) worker db pending in
      elim (Bool-cases (raised n)) [
        | inl e ↦ rw e (apply_batch-covered n raised db pending o p)
        | inr e ↦ elim (Bool-cases (is_empty out.1.retry)) [
          | inl q ↦ rw (e, q) (inr (first_try (validate n) (apply n) worker db pending p q))
          | inr q ↦
              let (o', p') = retry_InOrder (validate n) (apply n) worker db pending o p in
              elim (apply_batch-covered n raised out.0 out.1.retry o' p') [
                | inl c ↦ rw (e, q) (inl c)
                | inr c ↦
                    rw (e, q)
                      (inr (
                        later_try (validate n) (apply n) worker db pending p
                          (apply_batch n raised out.0 out.1.retry).acks c))
              ]
        ]
      ]
