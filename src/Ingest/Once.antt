-- ===== src/Ingest/Once.antt =====
-- Envelopes are applied at most once (the ledger of flush_batch, src/apipi/services/ingest.py).
use apipi.Base.{
  ℕ, ◌≡◌, refl, sym, ap, true, false, str_eq, List, [], ◌∷◌, ◌++◌, Option, none, ltb, if◌then◌else◌,
  All, Bool-cases, Option-cases, inl, inr, arith, subst,
}
use apipi.Base.Dict
use apipi.Outbox.State.{max_message_bytes}
use apipi.Ingest.Batch.{
  Item, Reason, Verdict, applied, refused, failed, transient, Row, Db, Outcome, nothing, mem,
  claimed, is_lease_free, is_deferred, is_leased, settle, judge, ingest_leased, ingest_item,
  ingest_items, flush_batch, note_stopped,
}

abbrev pub NoRepeat : List (ℕ × ℕ) → Type 0
NoRepeat [] = Unit
NoRepeat ((s, n) ∷ l) = (claimed s n l ≡ false) × NoRepeat l

claimed-append :
    (s n : ℕ) (l r : List (ℕ × ℕ))
    → claimed s n (l ++ r) ≡ (if claimed s n l then true else claimed s n r)
claimed-append s n [] r = refl
claimed-append s n ((t, m) ∷ l) r = ground (arith, claimed-append s n l r)

NoRepeat-snoc :
    (s n : ℕ) (l : List (ℕ × ℕ)) → NoRepeat l → claimed s n l ≡ false → NoRepeat (l ++ (s, n) ∷ [])
NoRepeat-snoc s n [] h c = (refl, tt)
NoRepeat-snoc s n ((t, m) ∷ l) h c =
    (rw (claimed-append t m l ((s, n) ∷ [])) (ground arith), NoRepeat-snoc s n l h.1 (ground arith))

module _ {S : Type 0} (validate : S → Row → Item → Option Reason)
    (apply : S → Row → Item → Verdict S) where
  -- The ways in which the database moves: an envelope whose number is not in the ledger passes
  -- validation, is applied and enters the ledger; a presign that is there is answered again.
  pub data Moves (from : Db S) : S → List (ℕ × ℕ) → Type 0 where
    still : Moves from from.content from.ledger
    once :
        (c c' : S) (l : List (ℕ × ℕ)) (row : Row) (i : Item)
        → Moves from c l
        → claimed i.session_id i.seq l ≡ false
        → validate c row i ≡ none
        → apply c row i ≡ applied c'
        → Moves from c' (l ++ (i.session_id, i.seq) ∷ [])
    again :
        (c c' : S) (l : List (ℕ × ℕ)) (row : Row) (i : Item)
        → Moves from c l
        → claimed i.session_id i.seq l ≡ true
        → str_eq i.kind "artifact.presign" ≡ true
        → apply c row i ≡ applied c'
        → Moves from c' l

  Moves-NoRepeat :
      (from : Db S) (c : S) (l : List (ℕ × ℕ)) → Moves from c l → NoRepeat from.ledger → NoRepeat l
  Moves-NoRepeat from _ _ still h = h
  Moves-NoRepeat from _ _ (once c c' l row i m n _ _) h =
      NoRepeat-snoc i.session_id i.seq l (Moves-NoRepeat from c l m h) n
  Moves-NoRepeat from _ _ (again c c' l row i m _ _ _) h = Moves-NoRepeat from c l m h

  -- A database that came about by such moves, with its rows as they were.
  abbrev pub Reached : Db S → Db S → Type 0
  Reached from db = Moves from db.content db.ledger

  judge-applied :
      (c c' : S) (row : Row) (i : Item)
      → judge validate apply c row i ≡ applied c'
      → (validate c row i ≡ none) × (apply c row i ≡ applied c')
  unfolding judge
  judge-applied c c' row i h = elim (Option-cases (validate c row i)) [
    | inl n ↦ (n, rw (n, judge) at h)
    | inr (r, e) ↦ cc (rw (e, judge) at h)
  ]

  settle-Reached :
      (from db : Db S) (base done : Outcome) (i : Item) (v : Verdict S) (commit : S → Db S)
      → Reached from db
      → ((c : S) → v ≡ applied c → Reached from (commit c))
      → Reached from (settle validate apply db base i v commit done).0
  unfolding settle
  settle-Reached from db base done i (applied c) commit r f = f c refl
  settle-Reached from db base done i (refused _) commit r f = r
  settle-Reached from db base done i failed commit r f = r
  settle-Reached from db base done i transient commit r f = r

  ingest_leased-Reached :
      (from db : Db S) (out : Outcome) (row : Row) (i : Item)
      → Reached from db
      → Reached from (ingest_leased validate apply db out row i).0
  unfolding ingest_leased
  ingest_leased-Reached from db out row i r =
      let new = note_stopped out i in
      elim (Bool-cases (claimed i.session_id i.seq db.ledger)) [
        | inr c ↦ rw c (
            settle-Reached from db out new i (judge validate apply db.content row i)
              (λ c'. record db { ledger = db.ledger ++ (i.session_id, i.seq) ∷ []; content = c' }) r
              (λ c' e.
                let (v, a) = judge-applied db.content c' row i e in
                once db.content c' db.ledger row i r c v a))
        | inl c ↦ elim (Bool-cases (str_eq i.kind "artifact.presign")) [
          | inl k ↦
              rw (c, k)
                (settle-Reached from db new new i (apply db.content row i)
                  (λ c'. record db { content = c' }) r
                  (λ c' e. again db.content c' db.ledger row i r c k e))
          | inr k ↦ rw (c, k) r
        ]
      ]

  ingest_item-Reached :
      (worker : ℕ) (from db : Db S) (out : Outcome) (i : Item)
      → Reached from db
      → Reached from (ingest_item validate apply worker db out i).0
  unfolding ingest_item
  ingest_item-Reached worker from db out i r = elim (Bool-cases (mem i.session_id out.stalled)) [
    | inl m ↦ rw m r
    | inr m ↦ elim (Option-cases (Dict.get db.rows i.session_id)) [
      | inl g ↦ rw (m, g, ingest_item) r
      | inr (row, g) ↦ elim (Bool-cases (is_lease_free i.kind)) [
        | inl a ↦ rw (m, g, a, ingest_item) r
        | inr a ↦ elim (Bool-cases (is_leased worker row)) [
          | inr b ↦ rw (m, g, a, b, ingest_item) r
          | inl b ↦ elim (Bool-cases (ltb max_message_bytes i.raw_size)) [
            | inl c ↦ rw (m, g, a, b, c, ingest_item) r
            | inr c ↦ elim (Bool-cases (is_deferred i.kind)) [
              | inl d ↦ rw (m, g, a, b, c, d, ingest_item) r
              | inr d ↦
                  rw (m, g, a, b, c, d, ingest_item) (ingest_leased-Reached from db out row i r)
            ]
          ]
        ]
      ]
    ]
  ]

  ingest_items-Reached :
      (worker : ℕ) (from db : Db S) (out : Outcome) (is : List Item)
      → Reached from db
      → Reached from (ingest_items validate apply worker db out is).0
  unfolding ingest_items
  ingest_items-Reached worker from db out [] r = r
  ingest_items-Reached worker from db out (i ∷ is) r =
      let step = ingest_item validate apply worker db out i in
      ingest_items-Reached worker from step.0 step.1 is (ingest_item-Reached worker from db out i r)

  -- Batches of workers, one after another, with whatever they repeat of earlier ones.
  unfoldable pub flushes : Db S → List (ℕ × List Item) → Db S
  flushes db [] = db
  flushes db ((worker, is) ∷ bs) = flushes (flush_batch validate apply worker db is).0 bs

  pub flushes-Reached :
      (from db : Db S) (bs : List (ℕ × List Item)) → Reached from db → Reached from (flushes db bs)
  unfolding flushes flush_batch
  flushes-Reached from db [] r = r
  flushes-Reached from db ((worker, is) ∷ bs) r =
      flushes-Reached from (flush_batch validate apply worker db is).0 bs
        (ingest_items-Reached worker from db nothing is r)

  -- Any batches of any workers on a database whose ledger has no repeats: the content and the ledger
  -- have moved only by `once` and `again`. So the content changes only by an envelope whose number
  -- was not in the ledger and enters it, or by a presign of the ledger that is answered again, and no
  -- number enters twice.
  pub flushes-NoRepeat :
      (db : Db S) (bs : List (ℕ × List Item))
      → NoRepeat db.ledger
      → Reached db (flushes db bs) × NoRepeat (flushes db bs).ledger
  flushes-NoRepeat db bs h =
      let r = flushes-Reached db db bs still in
      (r, Moves-NoRepeat db (flushes db bs).content (flushes db bs).ledger r h)

  -- An envelope of the ledger, other than a presign, changes nothing.
  abbrev pub Known : Db S → Item → Type 0
  Known db i =
      (claimed i.session_id i.seq db.ledger ≡ true) × (str_eq i.kind "artifact.presign" ≡ false)

  ingest_item-Known :
      (worker : ℕ) (db : Db S) (out : Outcome) (i : Item)
      → Known db i
      → (ingest_item validate apply worker db out i).0 ≡ db
  unfolding ingest_item
  ingest_item-Known worker db out i (c, k) = elim (Bool-cases (mem i.session_id out.stalled)) [
    | inl m ↦ rw m refl
    | inr m ↦ elim (Option-cases (Dict.get db.rows i.session_id)) [
      | inl g ↦ rw (m, g, ingest_item) refl
      | inr (row, g) ↦
          let leased : (ingest_leased validate apply db out row i).0 ≡ db =
            unfold ingest_leased in rw (c, k) refl in
          rw (m, g, ingest_item) (ground (arith, leased))
    ]
  ]

  ingest_items-Known :
      (worker : ℕ) (db : Db S) (out : Outcome) (is : List Item)
      → All (Known db) is
      → (ingest_items validate apply worker db out is).0 ≡ db
  unfolding ingest_items
  ingest_items-Known worker db out [] h = refl
  ingest_items-Known worker db out (i ∷ is) h =
      let out' = (ingest_item validate apply worker db out i).1 in
      subst (λ d. (ingest_items validate apply worker d out' is).0 ≡ db)
        (sym (ingest_item-Known worker db out i h.0)) (ingest_items-Known worker db out' is h.1)

  -- A batch delivered again, each of whose envelopes is in the ledger and no presign: it changes
  -- neither the ledger nor the content, whatever validation and apply would say now.
  pub redelivered :
      (worker : ℕ) (db : Db S) (is : List Item)
      → All (Known db) is
      → let after = (flush_batch validate apply worker db is).0 in
        (after.ledger ≡ db.ledger) × (after.content ≡ db.content)
  unfolding flush_batch
  redelivered worker db is h =
      let same = ingest_items-Known worker db nothing is h in
      (ap (λ (d : Db S). d.ledger) same, ap (λ (d : Db S). d.content) same)
