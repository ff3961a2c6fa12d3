-- ===== src/Ingest/Tests.antt =====
-- The ingest theorems at concrete inputs.
use apipi.Base.{
  false, ℕ, ◌+◌, ◌≡◌, refl, true, not, List, [], ◌∷◌, ◌++◌, Option, none, some, leb, ◌==◌,
  if◌then◌else◌, All, arith, ◌⊎◌,
}
use apipi.Base.Dict
use apipi.Ingest.Batch.{
  Item, Reason, Verdict, applied, transient, Row, Db, flush_batch, ack_of, ingest_items,
  ingest_item, is_lease_free, is_leased, is_deferred, ingest_leased, note_ack, note_stopped, settle,
  judge, stall, advance,
}
use apipi.Ingest.Batcher.{init}
use apipi.Ingest.Retry.{waiting, acked_or_retried}
use apipi.Ingest.Once.{NoRepeat, Reached, flushes, flushes-NoRepeat, redelivered}
use apipi.Ingest.Serve.{
  Arrival, envelope, lease_release, timeout, item, release, items, departures, run_ingest,
  run_ingest-events,
}
use apipi.Ingest.Attempts.{apply_batch, covered, apply_batch-covered, ingest_attempts}

-- A database that adds payloads up, and fails for the time being at a payload of 0.
abbrev no_check : ℕ → Row → Item → Option Reason
no_check c row i = none

abbrev add_up : ℕ → Row → Item → Verdict ℕ
add_up c row i = if i.payload == 0 then transient else applied (c + i.payload)

abbrev entry : ℕ → ℕ → ℕ → Item
entry s n p = record { session_id = s; seq = n; kind = "event"; raw_size = 10; payload = p }

abbrev leased : Db ℕ
leased = record {
  rows =
      (1, record { worker_id = some 9; lease_id = some 4; worker_seq = 0 })
      ∷ (2, record { worker_id = some 9; lease_id = some 5; worker_seq = 0 })
      ∷ [];
  ledger = (1, 1) ∷ [];
  content = 7;
}

abbrev batch : List Item
batch = entry 1 1 5 ∷ entry 2 1 0 ∷ entry 1 2 6 ∷ entry 2 2 3 ∷ []

-- Session 2 waits, session 1's first number is in the ledger, and its second one is applied.
mixed_batch : (flush_batch no_check add_up 9 leased batch).0.content ≡ 13
unfolding flush_batch ingest_items ingest_item Dict.get is_lease_free is_leased is_deferred
    ingest_leased note_ack note_stopped settle judge stall
mixed_batch = refl

acked_or_retried_example :
    let out = (flush_batch no_check add_up 9 leased batch).1 in
    All
      (λ i. waiting i.session_id i.seq out.retry ≡ not (leb i.seq (ack_of out i.session_id)))
      batch
acked_or_retried_example =
    acked_or_retried no_check add_up 9 leased batch
      (
        ((λ h. cc), ((λ h. omega arith), ((λ h. cc), tt))),
        (((λ h. cc), ((λ h. omega arith), tt)), (((λ h. cc), tt), (tt, tt))),
      )
      (omega arith, (omega arith, (omega arith, (omega arith, tt))))

abbrev twice : List (ℕ × List Item)
twice = (9, batch) ∷ (9, batch) ∷ []

flushes-NoRepeat_example :
    Reached no_check add_up leased (flushes no_check add_up leased twice)
    × NoRepeat (flushes no_check add_up leased twice).ledger
flushes-NoRepeat_example = flushes-NoRepeat no_check add_up leased twice (refl, tt)

redelivered_example :
    let after = (flush_batch no_check add_up 9 leased (entry 1 1 5 ∷ [])).0 in
    (after.ledger ≡ (1, 1) ∷ []) × (after.content ≡ 7)
redelivered_example = redelivered no_check add_up 9 leased (entry 1 1 5 ∷ []) ((refl, refl), tt)

abbrev inputs : List (Arrival × ℕ × ℕ)
inputs = (envelope (entry 1 1 5), 0, 0) ∷ (lease_release 4, 1, 1) ∷ (timeout, 2, 2) ∷ []

run_ingest-events_example :
    let r = run_ingest 5 (init 100 1000) inputs in
    departures r.1 ++ items r.0.queued ≡ item (entry 1 1 5) ∷ release 4 ∷ []
unfolding init
run_ingest-events_example = run_ingest-events 5 (init 100 1000) inputs

-- The tries of a batch whose second envelope fails for the time being in the first of them.
abbrev fails_once : ℕ → ℕ → Row → Item → Verdict ℕ
fails_once n c row i =
    if n == 2
    then if i.seq == 3 then transient else applied (c + i.payload)
    else applied (c + i.payload)

abbrev no_checks : ℕ → ℕ → Row → Item → Option Reason
no_checks n c row i = none

abbrev retried : List Item
retried = entry 1 2 5 ∷ entry 1 3 6 ∷ []

gone_on_retry :
    let r = apply_batch no_checks fails_once 9 ingest_attempts (λ n. false) leased retried in
    (r.closed ≡ false) × (r.acks ≡ (1, 2) ∷ (1, 3) ∷ []) × (r.db.content ≡ 18)
unfolding apply_batch flush_batch ingest_items ingest_item Dict.get Dict.put is_lease_free is_leased
    is_deferred ingest_leased note_ack note_stopped settle judge stall ack_of advance
gone_on_retry = (refl, refl, refl)

apply_batch-covered_example :
    let r = apply_batch no_checks fails_once 9 ingest_attempts (λ n. n == 1) leased retried in
    (r.closed ≡ true) ⊎ All (λ i. covered r.acks i ≡ true) retried
apply_batch-covered_example =
    apply_batch-covered no_checks fails_once 9 ingest_attempts (λ n. n == 1) leased retried
      (((λ h. omega arith), tt), (tt, tt)) (omega arith, (omega arith, tt))
