-- ===== src/Ingest/Retry.antt =====
-- Acks and retries of a whole batch (flush_batch of src/apipi/services/ingest.py).
use apipi.Base.{
  ℕ, ◌≤◌, ◌<◌, ◌≡◌, refl, sym, ap, max, Bool, true, not, ◌&&◌, List, [], ◌∷◌, ◌++◌, Option, any,
  leb, ◌==◌, ==_eq, ==_refl, if◌then◌else◌, All, All-append, Bool-cases, inl, inr, ◌⊎◌, arith,
  subst,
}
use apipi.Base.Dict
use apipi.Ingest.Batch.{
  Item, Reason, Verdict, Row, Db, Outcome, nothing, mem, ack_of, ingest_item, ingest_items,
  flush_batch,
}
use apipi.Ingest.Acks.{Round, settled, waits, ingest_item-Round}

-- In each session the numbers of a batch rise, as the worker sends them.
abbrev pub Later : Item → List Item → Type 0
Later i is = All (λ j. (i.session_id == j.session_id) ≡ true → i.seq < j.seq) is

abbrev pub InOrder : List Item → Type 0
InOrder [] = Unit
InOrder (i ∷ is) = Later i is × InOrder is

-- Whether an envelope is among those to be tried again.
abbrev pub waiting : ℕ → ℕ → List Item → Bool
waiting s n is = any (λ (j : Item). j.session_id == s && j.seq == n) is

-- The envelopes that the rest of the loop still brings lie beyond the acks.
abbrev Fresh : Outcome → Item → Type 0
Fresh out i = ack_of out i.session_id < i.seq

-- Retries lie beyond the acks too, and their sessions are stalled.
record Sound (out : Outcome) : Type 0 where
  beyond : All (Fresh out) out.retry
  stopped : All (λ i. mem i.session_id out.stalled ≡ true) out.retry

-- An envelope that the loop has seen.
abbrev pub Decided : Outcome → Item → Type 0
Decided out i = (i.seq ≤ ack_of out i.session_id) ⊎ (waiting i.session_id i.seq out.retry ≡ true)

All-map :
    {A : Type 0} {P Q : A → Type 0} → ((x : A) → P x → Q x) → (xs : List A) → All P xs → All Q xs
All-map f [] h = tt
All-map f (x ∷ xs) h = (f x h.0, All-map f xs h.1)

pub All-both :
    {A : Type 0} {P Q R : A → Type 0}
    → ((x : A) → P x → Q x → R x)
    → (xs : List A) → All P xs
    → All Q xs
    → All R xs
All-both f [] h k = tt
All-both f (x ∷ xs) h k = (f x h.0 k.0, All-both f xs h.1 k.1)

waiting-append :
    (s n : ℕ) (is js : List Item)
    → waiting s n (is ++ js) ≡ (if waiting s n is then true else waiting s n js)
waiting-append s n [] js = refl
waiting-append s n (i ∷ is) js = ground (arith, waiting-append s n is js)

waiting-last : (i : Item) (is : List Item) → waiting i.session_id i.seq (is ++ i ∷ []) ≡ true
waiting-last i is =
    rw (waiting-append i.session_id i.seq is (i ∷ []), ==_refl i.session_id, ==_refl i.seq)
      (ground arith)

ack_of-settled :
    (out out' : Outcome) (i : Item) (s : ℕ)
    → out'.acks ≡ Dict.put out.acks i.session_id (max (ack_of out i.session_id) i.seq)
    → ack_of out' s
      ≡ (if i.session_id == s then max (ack_of out i.session_id) i.seq else ack_of out s)
unfolding ack_of
ack_of-settled out out' i s e =
    rw e (Dict.get_or-put out.acks i.session_id s (max (ack_of out i.session_id) i.seq) 0)

ack_of-waits : (out out' : Outcome) (s : ℕ) → out'.acks ≡ out.acks → ack_of out' s ≡ ack_of out s
unfolding ack_of
ack_of-waits out out' s e = rw e

Round-Later :
    (out out' : Outcome) (i j : Item)
    → Round out i out'
    → ((i.session_id == j.session_id) ≡ true → i.seq < j.seq)
    → Fresh out j
    → Fresh out' j
Round-Later out out' i j (settled e _ _ _) l f = elim (Bool-cases (i.session_id == j.session_id)) [
  | inl q ↦
      rw (ack_of-settled out out' i j.session_id e, q)
        (omega (arith, l q, ap (ack_of out) (==_eq i.session_id j.session_id q)))
  | inr q ↦ rw (ack_of-settled out out' i j.session_id e, q) f
]
Round-Later out out' i j (waits e _ _ _) l f = rw (ack_of-waits out out' j.session_id e) f

-- A stalled session's ack does not move.
Round-stalled :
    (out out' : Outcome) (i j : Item)
    → Round out i out'
    → mem j.session_id out.stalled ≡ true
    → Fresh out j
    → Fresh out' j
Round-stalled out out' i j (settled e r s m) h f =
    Round-Later out out' i j (settled e r s m)
      (λ q. cc (rw (==_eq i.session_id j.session_id q) at m, h)) f
Round-stalled out out' i j (waits e _ _ _) h f = rw (ack_of-waits out out' j.session_id e) f

Round-Sound :
    (out out' : Outcome) (i : Item) → Round out i out' → Fresh out i → Sound out → Sound out'
Round-Sound out out' i (settled e r s m) f k = record {
  beyond = subst (All (Fresh out')) (sym r) (
      All-both (λ j h b. Round-stalled out out' i j (settled e r s m) h b) out.retry k.stopped
        k.beyond);
  stopped = rw (r, s) k.stopped;
}
Round-Sound out out' i (waits e r s m) f k = record {
  beyond = subst (All (Fresh out')) (sym r) (
      All-append (Fresh out') out.retry (i ∷ [])
        (All-map (λ j b. rw (ack_of-waits out out' j.session_id e) b) out.retry k.beyond)
        (rw (ack_of-waits out out' i.session_id e) f, tt));
  stopped = rw r (
      All-append (λ j. mem j.session_id out'.stalled ≡ true) out.retry (i ∷ [])
        (All-map (λ j. m j.session_id) out.retry k.stopped) (s, tt));
}

Round-Decided : (out out' : Outcome) (i : Item) → Round out i out' → Decided out' i
Round-Decided out out' i (settled e r s m) =
    inl (rw (ack_of-settled out out' i i.session_id e, ==_refl i.session_id) (omega arith))
Round-Decided out out' i (waits e r s m) = inr (rw r (waiting-last i out.retry))

-- Acks and retries only grow.
ack_of-grows :
    (out out' : Outcome) (i : Item) (s : ℕ) → Round out i out' → ack_of out s ≤ ack_of out' s
ack_of-grows out out' i s (settled e _ _ _) = elim (Bool-cases (i.session_id == s)) [
  | inl q ↦
      rw (ack_of-settled out out' i s e, q)
        (omega (arith, ap (ack_of out) (==_eq i.session_id s q)))
  | inr q ↦ rw (ack_of-settled out out' i s e, q) (omega arith)
]
ack_of-grows out out' i s (waits e _ _ _) = rw (ack_of-waits out out' s e) (omega arith)

waiting-grows :
    (out out' : Outcome) (i : Item) (s n : ℕ)
    → Round out i out'
    → waiting s n out.retry ≡ true
    → waiting s n out'.retry ≡ true
waiting-grows out out' i s n (settled _ r _ _) h = rw r h
waiting-grows out out' i s n (waits _ r _ _) h =
    rw (r, waiting-append s n out.retry (i ∷ []), h) refl

Round-keeps-Decided :
    (out out' : Outcome) (i j : Item) → Round out i out' → Decided out j → Decided out' j
Round-keeps-Decided out out' i j r (inl h) =
    inl (omega (arith, h, ack_of-grows out out' i j.session_id r))
Round-keeps-Decided out out' i j r (inr h) = inr (waiting-grows out out' i j.session_id j.seq r h)

waiting-Fresh :
    (out : Outcome) (s n : ℕ) (is : List Item)
    → All (Fresh out) is
    → waiting s n is ≡ true
    → ack_of out s < n
waiting-Fresh out s n [] h w = cc
waiting-Fresh out s n (j ∷ is) h w = elim (Bool-cases (j.session_id == s && j.seq == n)) [
  | inr q ↦ waiting-Fresh out s n is h.1 (rw q at w)
  | inl q ↦ omega (
    arith,
    h.0,
    ap (ack_of out) (==_eq j.session_id s (ground arith)),
    ==_eq j.seq n (ground arith),
  )
]

-- What the proof reads off for one envelope at the end.
verdict :
    (out : Outcome) (i : Item)
    → Sound out
    → Decided out i
    → waiting i.session_id i.seq out.retry ≡ not (leb i.seq (ack_of out i.session_id))
verdict out i k d = elim (Bool-cases (waiting i.session_id i.seq out.retry)) [
  | inl w ↦
      let beyond = waiting-Fresh out i.session_id i.seq out.retry k.beyond w in rw w (ground arith)
  | inr w ↦ elim d [ inl h ↦ rw w (ground arith) | inr h ↦ cc (w, h) ]
]

module _ {S : Type 0} (validate : S → Row → Item → Option Reason)
    (apply : S → Row → Item → Verdict S) (worker : ℕ) where
  Fresh-step :
      (db : Db S) (out : Outcome) (i : Item) (is : List Item)
      → Later i is
      → All (Fresh out) is
      → All (Fresh (ingest_item validate apply worker db out i).1) is
  Fresh-step db out i is =
      All-both
        (λ j.
          Round-Later out (ingest_item validate apply worker db out i).1 i j
            (ingest_item-Round validate apply worker db out i))
        is

  ingest_items-Sound :
      (db : Db S) (out : Outcome) (is : List Item)
      → InOrder is
      → All (Fresh out) is
      → Sound out
      → Sound (ingest_items validate apply worker db out is).1
  unfolding ingest_items
  ingest_items-Sound db out [] o f k = k
  ingest_items-Sound db out (i ∷ is) o f k =
      let step = ingest_item validate apply worker db out i in
      ingest_items-Sound step.0 step.1 is o.1 (Fresh-step db out i is o.0 f.1)
        (Round-Sound out step.1 i (ingest_item-Round validate apply worker db out i) f.0 k)

  ingest_items-keeps :
      (db : Db S) (out : Outcome) (j : Item) (is : List Item)
      → Decided out j
      → Decided (ingest_items validate apply worker db out is).1 j
  unfolding ingest_items
  ingest_items-keeps db out j [] d = d
  ingest_items-keeps db out j (i ∷ is) d =
      let step = ingest_item validate apply worker db out i in
      ingest_items-keeps step.0 step.1 j is
        (Round-keeps-Decided out step.1 i j (ingest_item-Round validate apply worker db out i) d)

  pub ingest_items-Decided :
      (db : Db S) (out : Outcome) (is : List Item)
      → All (Decided (ingest_items validate apply worker db out is).1) is
  unfolding ingest_items
  ingest_items-Decided db out [] = tt
  ingest_items-Decided db out (i ∷ is) =
      let step = ingest_item validate apply worker db out i in
      (
        ingest_items-keeps step.0 step.1 i is
            (Round-Decided out step.1 i (ingest_item-Round validate apply worker db out i)),
        ingest_items-Decided step.0 step.1 is,
      )

  -- A batch whose numbers are positive and rise in each session, whatever validation and apply do:
  -- each of its envelopes is either acked, its number being at most the ack of its session, or
  -- among the retries, and never both.
  pub acked_or_retried :
      (db : Db S) (is : List Item)
      → InOrder is
      → All (λ i. 0 < i.seq) is
      → let out = (flush_batch validate apply worker db is).1 in
        All
          (λ i. waiting i.session_id i.seq out.retry ≡ not (leb i.seq (ack_of out i.session_id)))
          is
  unfolding flush_batch
  acked_or_retried db is o pos =
      let out = (ingest_items validate apply worker db nothing is).1 in
      let sound : Sound out =
        ingest_items-Sound db nothing is o (unfold ack_of Dict.get in pos)
          (record { beyond = tt; stopped = tt }) in
      All-map (λ i. verdict out i sound) is (ingest_items-Decided db nothing is)
