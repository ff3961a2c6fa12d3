-- ===== src/Ingest/Acks.antt =====
-- What one round of the loop of flush_batch does to the acks and the retries.
use apipi.Base.{
  ℕ, ◌≡◌, refl, max, true, false, str_eq, [], ◌∷◌, ◌++◌, Option, ltb, ==_refl, Bool-cases,
  Option-cases, inl, inr, arith,
}
use apipi.Base.Dict
use apipi.Base.Dict.{Dict}
use apipi.Outbox.State.{max_message_bytes}
use apipi.Ingest.Batch.{
  Item, Reason, Verdict, applied, refused, failed, transient, Row, Db, Outcome, mem, claimed,
  is_lease_free, is_deferred, is_leased, ack_of, note_ack, reject, stall, defer, note_stopped,
  settle, judge, ingest_leased, ingest_item, not_leased, oversize, not_implemented, ingest_error,
}

-- Each round either settles the envelope and acks up to it, or leaves it for another try.
pub data Round (out : Outcome) (i : Item) (out' : Outcome) : Type 0 where
  settled :
      out'.acks ≡ Dict.put out.acks i.session_id (max (ack_of out i.session_id) i.seq)
      → out'.retry ≡ out.retry
      → out'.stalled ≡ out.stalled
      → mem i.session_id out.stalled ≡ false
      → Round out i out'
  waits :
      out'.acks ≡ out.acks
      → out'.retry ≡ out.retry ++ i ∷ []
      → mem i.session_id out'.stalled ≡ true
      → ((s : ℕ) → mem s out.stalled ≡ true → mem s out'.stalled ≡ true)
      → Round out i out'

note_ack-Round :
    (out base : Outcome) (i : Item)
    → base.acks ≡ out.acks
    → base.retry ≡ out.retry
    → base.stalled ≡ out.stalled
    → mem i.session_id out.stalled ≡ false
    → Round out i (note_ack base i)
unfolding note_ack ack_of
note_ack-Round out base i e₁ e₂ e₃ m = settled (rw e₁) e₂ e₃ m

stall-Round : (out : Outcome) (i : Item) → Round out i (stall out i)
unfolding stall
stall-Round out i = waits refl refl (rw (==_refl i.session_id)) (λ s h. ground arith)

note_stopped-same :
    (out : Outcome) (i : Item)
    → ((note_stopped out i).acks ≡ out.acks)
      × ((note_stopped out i).retry ≡ out.retry)
      × ((note_stopped out i).stalled ≡ out.stalled)
unfolding note_stopped
note_stopped-same out i = elim (Bool-cases (str_eq i.kind "session.stopped")) [
  | inl e ↦ rw e (refl, refl, refl)
  | inr e ↦ rw e (refl, refl, refl)
]

module _ {S : Type 0} (validate : S → Row → Item → Option Reason)
    (apply : S → Row → Item → Verdict S) where
  settle-Round :
      (db : Db S) (out base done : Outcome) (i : Item) (v : Verdict S) (commit : S → Db S)
      → mem i.session_id out.stalled ≡ false
      → (base.acks ≡ out.acks) × (base.retry ≡ out.retry) × (base.stalled ≡ out.stalled)
      → (done.acks ≡ out.acks) × (done.retry ≡ out.retry) × (done.stalled ≡ out.stalled)
      → Round out i (settle validate apply db base i v commit done).1
  unfolding settle reject stall
  settle-Round db out base done i (applied c) commit m (a, b, c₁) (d, e, f) =
      note_ack-Round out done i d e f m
  settle-Round db out base done i (refused r) commit m (a, b, c) d =
      note_ack-Round out (reject base i r) i a b c m
  settle-Round db out base done i failed commit m (a, b, c) d =
      note_ack-Round out (reject base i ingest_error) i a b c m
  settle-Round db out base done i transient commit m (a, b, c) d =
      waits a (rw b) (rw (==_refl i.session_id)) (λ s h. rw c (ground arith))

  rejected-Round :
      (out : Outcome) (i : Item) (r : Reason)
      → mem i.session_id out.stalled ≡ false
      → Round out i (note_ack (reject out i r) i)
  unfolding reject
  rejected-Round out i r m = note_ack-Round out (reject out i r) i refl refl refl m

  ingest_leased-Round :
      (db : Db S) (out : Outcome) (row : Row) (i : Item)
      → mem i.session_id out.stalled ≡ false
      → Round out i (ingest_leased validate apply db out row i).1
  unfolding ingest_leased
  ingest_leased-Round db out row i m =
      let same = note_stopped-same out i in
      let new = note_stopped out i in
      elim (Bool-cases (claimed i.session_id i.seq db.ledger)) [
        | inr c ↦ rw c (
            settle-Round db out out new i (judge validate apply db.content row i)
              (λ c. record db { ledger = db.ledger ++ (i.session_id, i.seq) ∷ []; content = c }) m
              (refl, refl, refl) same)
        | inl c ↦ elim (Bool-cases (str_eq i.kind "artifact.presign")) [
          | inl k ↦
              rw (c, k)
                (settle-Round db out new new i (apply db.content row i)
                  (λ c. record db { content = c }) m same same)
          | inr k ↦ rw (c, k) (note_ack-Round out new i same.0 same.1 same.2 m)
        ]
      ]

  pub ingest_item-Round :
      (worker : ℕ) (db : Db S) (out : Outcome) (i : Item)
      → Round out i (ingest_item validate apply worker db out i).1
  unfolding ingest_item
  ingest_item-Round worker db out i = elim (Bool-cases (mem i.session_id out.stalled)) [
    | inl m ↦ rw m (unfold defer in waits refl refl m (λ s h. h))
    | inr m ↦ elim (Option-cases (Dict.get db.rows i.session_id)) [
      | inl g ↦ rw (m, g, ingest_item) (rejected-Round out i not_leased m)
      | inr (row, g) ↦ elim (Bool-cases (is_lease_free i.kind)) [
        | inl a ↦ rw (m, g, a, ingest_item) (note_ack-Round out out i refl refl refl m)
        | inr a ↦ elim (Bool-cases (is_leased worker row)) [
          | inr b ↦ rw (m, g, a, b, ingest_item) (rejected-Round out i not_leased m)
          | inl b ↦ elim (Bool-cases (ltb max_message_bytes i.raw_size)) [
            | inl c ↦ rw (m, g, a, b, c, ingest_item) (rejected-Round out i oversize m)
            | inr c ↦ elim (Bool-cases (is_deferred i.kind)) [
              | inl d ↦ rw (m, g, a, b, c, d, ingest_item) (rejected-Round out i not_implemented m)
              | inr d ↦ rw (m, g, a, b, c, d, ingest_item) (ingest_leased-Round db out row i m)
            ]
          ]
        ]
      ]
    ]
  ]
