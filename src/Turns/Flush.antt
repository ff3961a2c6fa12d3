-- ===== src/Turns/Flush.antt =====
-- flush_batch over `_validate` and `_apply` of src/apipi/services/ingest.py.
use apipi.Base.{ℕ, ◌≤◌, ◌≡◌, List, Option}
use apipi.Ingest.Batch.{Item, Reason, Row, Verdict, Db}
use apipi.Ingest.Once.{Moves, still, once, again, flushes, flushes-Reached}
use apipi.Turns.Store.{Store, SessionEvent, or_keep}
use apipi.Turns.Validate.{Envelope, validate}
use apipi.Turns.Apply.{apply}
use apipi.Turns.Running.{TurnsOk, running_count, running_count-TurnsOk}
use apipi.Turns.Keeps.{OneTurn, apply-TurnsOk, apply-presign}

-- `envelope_of` is the envelope that the parser made of a queued item; `other` is what the calls
-- outside the model do.
module _ {R : Type 0} (other : R → Row → Envelope → Verdict (R × List SessionEvent))
    (envelope_of : Item → Envelope) where
  -- The batch asks for the lease of its worker before it validates, so the row names the worker.
  unfoldable pub validate_item : Store R → Row → Item → Option Reason
  validate_item st row i = validate (or_keep row.worker_id 0) st.turns row (envelope_of i)

  unfoldable pub apply_item : Store R → Row → Item → Verdict (Store R)
  apply_item st row i = apply other st row (envelope_of i)

  -- What the parser gives for every item: the type of the item, and one turn.
  abbrev pub Parsed : Type 0
  Parsed = (i : Item) → ((envelope_of i).kind ≡ i.kind) × OneTurn (envelope_of i)

  Moves-TurnsOk :
      (from : Db (Store R)) (st : Store R) (l : List (ℕ × ℕ))
      → Parsed
      → TurnsOk from.content.turns
      → Moves validate_item apply_item from st l
      → TurnsOk st.turns
  unfolding validate_item apply_item
  Moves-TurnsOk from _ _ parsed h still = h
  Moves-TurnsOk from _ _ parsed h (once st st' l row i m n v a) =
      apply-TurnsOk other (or_keep row.worker_id 0) st st' row (envelope_of i)
        (Moves-TurnsOk from st l parsed h m) (parsed i).1 v a
  Moves-TurnsOk from _ _ parsed h (again st st' l row i m n k a) =
      apply-presign other st st' row (envelope_of i) (Moves-TurnsOk from st l parsed h m)
        (rw (parsed i).0 k) a

  -- From a table where it holds, whatever batches of whatever workers arrive, with repeats and with
  -- failures outside: no id of a turn stands twice, and of each session at most one turn is in
  -- progress, which is its newest. Each envelope names one turn, as the worker's sink writes it, and
  -- has a status of the protocol.
  pub flushes-TurnsOk :
      (db : Db (Store R)) (bs : List (ℕ × List Item))
      → Parsed
      → TurnsOk db.content.turns
      → let turns = (flushes validate_item apply_item db bs).content.turns in
        TurnsOk turns × ((s : ℕ) → running_count turns s ≤ 1)
  flushes-TurnsOk db bs parsed h =
      let after = flushes validate_item apply_item db bs in
      let ok : TurnsOk after.content.turns =
        Moves-TurnsOk db after.content after.ledger parsed h
          (flushes-Reached validate_item apply_item db db bs still) in
      (ok, λ s. running_count-TurnsOk after.content.turns s ok)
