-- ===== src/Ingest/Batcher.antt =====
-- IngestBatcher of src/apipi/services/ingest.py.
use apipi.Base.{
  ℕ, ◌+◌, ◌-◌, Bool, false, not, ◌&&◌, ◌||◌, List, [], ◌∷◌, ◌++◌, Option, none, some, leb,
  if◌then◌else◌, length, is_empty,
}
use apipi.Ingest.Batch.{Item}

pub record IngestBatcher : Type 0 where
  pub max_messages : ℕ
  pub max_bytes : ℕ
  pub queued : List Item
  pub bytes : ℕ
  pub first_at : Option ℕ

unfoldable pub init : ℕ → ℕ → IngestBatcher
init m n = record { max_messages = m; max_bytes = n; queued = []; bytes = 0; first_at = none }

unfoldable pub add : IngestBatcher → Item → ℕ → IngestBatcher
add b i now = record b {
  first_at = elim b.first_at [ none ↦ some now | some t ↦ some t ];
  queued = b.queued ++ i ∷ [];
  bytes = b.bytes + i.raw_size;
}

unfoldable pub full : IngestBatcher → Bool
full b = leb b.max_messages (length b.queued) || leb b.max_bytes b.bytes

-- `now - first_at >= window` on a clock that does not run backwards
unfoldable pub window_expired : IngestBatcher → ℕ → ℕ → Bool
window_expired b window now = elim b.first_at [ none ↦ false | some t ↦ leb (t + window) now ]

-- `max(window - (now - first_at), 0)`
unfoldable pub poll_timeout : IngestBatcher → ℕ → ℕ → Option ℕ
poll_timeout b window now =
    if is_empty b.queued
    then none
    else elim b.first_at [ none ↦ none | some t ↦ some (window - (now - t)) ]

unfoldable pub should_flush : IngestBatcher → ℕ → ℕ → Bool
should_flush b window now = not (is_empty b.queued) && (full b || window_expired b window now)

unfoldable pub take : IngestBatcher → IngestBatcher × List Item
take b = (record b { queued = []; bytes = 0; first_at = none }, b.queued)
