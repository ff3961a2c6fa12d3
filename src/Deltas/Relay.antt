-- ===== src/Deltas/Relay.antt =====
-- DeltaRelay of src/apipi/worker/deltas.py: fragments of streamed text are gathered for a while and
-- leave in numbered envelopes, at most once. The pieces of a flush leave one by one, and other calls
-- come between them.
use apipi.Base.{
  ℕ, suc, ◌+◌, Bool, true, false, not, ◌&&◌, List, [], ◌∷◌, ◌++◌, map, ltb, ◌==◌, if◌then◌else◌,
  is_empty,
}
use apipi.Base.Dict
use apipi.Base.Dict.{Dict}
use apipi.Outbox.State.{max_message_bytes}
use apipi.Deltas.Split.{Text, join, split}

pub data Kind : Type 0 where
  delta_text delta_reasoning : Kind

pub record Key : Type 0 where
  pub session_id : ℕ
  pub turn_id : ℕ
  pub kind : Kind

abbrev pub same_kind : Kind → Kind → Bool
same_kind delta_text delta_text = true
same_kind delta_reasoning delta_reasoning = true
same_kind delta_text delta_reasoning = false
same_kind delta_reasoning delta_text = false

unfoldable pub same_key : Key → Key → Bool
same_key j k = j.session_id == k.session_id && (j.turn_id == k.turn_id && same_kind j.kind k.kind)

pub record Chunk : Type 0 where
  pub key : Key
  pub text : Text

-- The task that flushes: none or ended, asleep for the window, or with chunks that are left to send.
pub data FlushTask : Type 0 where
  done sleeping : FlushTask
  sending : List Chunk → FlushTask

abbrev pub Buffers : Type 0
Buffers = List (Key × List Text)

pub record DeltaRelay : Type 0 where
  pub attached : Bool
  pub buffers : Buffers
  pub seq : Dict ℕ
  pub flush_task : FlushTask
  pub dropped : ℕ

abbrev pub init : DeltaRelay
init = record { attached = false; buffers = []; seq = []; flush_task = done; dropped = 0 }

unfoldable pub attach : DeltaRelay → DeltaRelay
attach r = record r { attached = true }

unfoldable pub detach : DeltaRelay → DeltaRelay
detach r = record r { attached = false }

-- The buffers of the other sessions.
unfoldable pub without : ℕ → Buffers → Buffers
without s [] = []
without s ((k, ts) ∷ bs) = if k.session_id == s then without s bs else (k, ts) ∷ without s bs

unfoldable pub forget : DeltaRelay → ℕ → DeltaRelay
forget r s = record r { buffers = without s r.buffers; seq = Dict.remove r.seq s }

-- `self._buffers.setdefault(key, []).append(text)`
unfoldable pub add_text : Buffers → Key → Text → Buffers
add_text [] k t = (k, t ∷ []) ∷ []
add_text ((j, ts) ∷ bs) k t =
    if same_key j k then (j, ts ++ t ∷ []) ∷ bs else (j, ts) ∷ add_text bs k t

abbrev pub started : FlushTask → FlushTask
started done = sleeping
started sleeping = sleeping
started (sending cs) = sending cs

unfoldable pub submit : DeltaRelay → Key → Text → DeltaRelay
submit r k t =
    if is_empty t
    then r
    else record r { buffers = add_text r.buffers k t; flush_task = started r.flush_task }

-- What a flush sends for the buffers, in the order of the keys.
unfoldable pub chunks : ℕ → Buffers → List Chunk
chunks limit [] = []
chunks limit ((k, ts) ∷ bs) =
    if is_empty (join ts)
    then chunks limit bs
    else map (λ t. record { key = k; text = t }) (split (join ts) limit) ++ chunks limit bs

abbrev pub left : List Chunk → FlushTask
left [] = done
left (c ∷ cs) = sending (c ∷ cs)

-- The sleep ends and the flush takes the buffers.
unfoldable pub wake : ℕ → DeltaRelay → DeltaRelay
wake limit r = record r { buffers = []; flush_task = left (chunks limit r.buffers) }

-- What becomes of a chunk.
pub data Out : Type 0 where
  sent : ℕ → Chunk → Out
  lost : Chunk → Out

abbrev pub note_dropped : DeltaRelay → DeltaRelay
note_dropped r = record r { dropped = suc r.dropped }

-- _emit: `size` is the size of the envelope on the wire, `works` whether the socket takes it.
unfoldable pub emit : (ℕ → Chunk → ℕ) → DeltaRelay → Chunk → Bool → DeltaRelay × Out
emit size r c works =
    if not r.attached
    then (note_dropped r, lost c)
    else let last = Dict.get_or r.seq c.key.session_id 0 + 1 in
      let r' = record r { seq = Dict.put r.seq c.key.session_id last } in
      if ltb max_message_bytes (size last c)
      then (note_dropped r', lost c)
      else if works
      then (r', sent last c)
      else (note_dropped r', lost c)

pub data Step : Type 0 where
  submits : Key → Text → Step
  wakes : Step
  emits : Bool → Step
  forgets : ℕ → Step
  attaches detaches : Step

-- The relay and what became of its chunks, the last one first.
abbrev pub State : Type 0
State = DeltaRelay × List Out

module _ (size : ℕ → Chunk → ℕ) (limit : ℕ) where
  abbrev pub send_next : FlushTask → Bool → State → State
  send_next (sending (c ∷ cs)) works (r, outs) =
      let (r', out) = emit size r c works in (record r' { flush_task = left cs }, out ∷ outs)
  send_next (sending []) works st = st
  send_next done works st = st
  send_next sleeping works st = st

  abbrev pub wake_up : FlushTask → State → State
  wake_up sleeping (r, outs) = (wake limit r, outs)
  wake_up done st = st
  wake_up (sending cs) st = st

  unfoldable pub step : State → Step → State
  step (r, outs) (submits k t) = (submit r k t, outs)
  step (r, outs) wakes = wake_up r.flush_task (r, outs)
  step (r, outs) (emits works) = send_next r.flush_task works (r, outs)
  step (r, outs) (forgets s) = (forget r s, outs)
  step (r, outs) attaches = (attach r, outs)
  step (r, outs) detaches = (detach r, outs)

  unfoldable pub run : State → List Step → State
  run st [] = st
  run st (x ∷ xs) = run (step st x) xs
