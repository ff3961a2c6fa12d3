-- ===== src/Ingest/Serve.antt =====
-- The ingest lane of a worker connection (_run_ingest and _flush of src/apipi/workerhub/serve.py).
use apipi.Base.{
  ℕ, ◌≡◌, refl, sym, ap, ◌∙◌, Bool, true, false, not, ◌&&◌, ◌||◌, List, [], ◌∷◌, ◌++◌, append-nil,
  append_assoc, if◌then◌else◌, is_empty, Bool-cases, inl, inr,
}
use apipi.Ingest.Batch.{Item}
use apipi.Ingest.Batcher.{IngestBatcher, add, should_flush, take}

-- What the lane brings: an envelope, a control frame, or nothing until the poll timeout. The frame
-- of a lease's release waits for its turn here, other frames only pass.
pub data Arrival : Type 0 where
  envelope : Item → Arrival
  lease_release : ℕ → Arrival
  control : Arrival
  timeout : Arrival

-- What the lane hands on: a batch for the database, or a release.
pub data Action : Type 0 where
  flushed : List Item → Action
  released : ℕ → Action

-- _flush: an empty batch is not applied.
unfoldable pub flush : IngestBatcher → IngestBatcher × List Action
flush b = ((take b).0, if is_empty (take b).1 then [] else flushed (take b).1 ∷ [])

-- The end of a round, with the clock reading of `should_flush`.
unfoldable pub maybe_flush : IngestBatcher → ℕ → Bool → ℕ → IngestBatcher × List Action
maybe_flush b window timed_out now =
    if not (is_empty b.queued) && (timed_out || should_flush b window now) then flush b else (b, [])

-- One round of the loop of _run_ingest, with the clock readings of `add` and `should_flush`.
unfoldable pub ingest_round : ℕ → IngestBatcher → Arrival → ℕ → ℕ → IngestBatcher × List Action
ingest_round window b (envelope i) t now = maybe_flush (add b i t) window false now
ingest_round window b (lease_release l) t now =
    let (b', out) = flush b in (b', out ++ released l ∷ [])
ingest_round window b control t now = (b, [])
ingest_round window b timeout t now = maybe_flush b window true now

unfoldable pub run_ingest : ℕ → IngestBatcher → List (Arrival × ℕ × ℕ) → IngestBatcher × List Action
run_ingest window b [] = (b, [])
run_ingest window b ((a, t, now) ∷ ins) =
    let (b₁, out) = ingest_round window b a t now in
    let (b₂, rest) = run_ingest window b₁ ins in (b₂, out ++ rest)

-- The stream of envelopes and releases, as it arrives and as it leaves.
pub data Event : Type 0 where
  item : Item → Event
  release : ℕ → Event

abbrev pub items : List Item → List Event
items [] = []
items (i ∷ is) = item i ∷ items is

abbrev pub arrivals : List (Arrival × ℕ × ℕ) → List Event
arrivals [] = []
arrivals ((envelope i, _, _) ∷ ins) = item i ∷ arrivals ins
arrivals ((lease_release l, _, _) ∷ ins) = release l ∷ arrivals ins
arrivals ((control, _, _) ∷ ins) = arrivals ins
arrivals ((timeout, _, _) ∷ ins) = arrivals ins

abbrev pub departures : List Action → List Event
departures [] = []
departures (flushed is ∷ out) = items is ++ departures out
departures (released l ∷ out) = release l ∷ departures out

items-append : (is js : List Item) → items (is ++ js) ≡ items is ++ items js
items-append [] js = refl
items-append (i ∷ is) js = rw (items-append is js)

departures-append : (xs ys : List Action) → departures (xs ++ ys) ≡ departures xs ++ departures ys
departures-append [] ys = refl
departures-append (flushed is ∷ xs) ys =
    rw (departures-append xs ys) (sym (append_assoc (items is) (departures xs) (departures ys)))
departures-append (released l ∷ xs) ys = rw (departures-append xs ys)

empty_queue : (is : List Item) → is_empty is ≡ true → is ≡ []
empty_queue [] h = refl
empty_queue (i ∷ is) h = cc

-- A batcher's queue leaves in one piece, or stays.
flush-events :
    (b : IngestBatcher) → (departures (flush b).1 ≡ items b.queued) × ((flush b).0.queued ≡ [])
unfolding flush take
flush-events b = elim (Bool-cases (is_empty b.queued)) [
  | inr e ↦ rw e (append-nil (items b.queued), refl)
  | inl e ↦ rw (e, empty_queue b.queued e) (refl, refl)
]

maybe_flush-events :
    (b : IngestBatcher) (window : ℕ) (timed_out : Bool) (now : ℕ)
    → let r = maybe_flush b window timed_out now in
      departures r.1 ++ items r.0.queued ≡ items b.queued
unfolding maybe_flush
maybe_flush-events b window timed_out now =
    elim (Bool-cases (not (is_empty b.queued) && (timed_out || should_flush b window now))) [
      | inl e ↦ let (d, q) = flush-events b in rw e (rw (d, q) (append-nil (items b.queued)))
      | inr e ↦ rw e
    ]

items-add :
    (b : IngestBatcher) (i : Item) (t : ℕ)
    → items (add b i t).queued ≡ items b.queued ++ item i ∷ []
unfolding add
items-add b i t = items-append b.queued (i ∷ [])

ingest_round-events :
    (window : ℕ) (b : IngestBatcher) (a : Arrival) (t now : ℕ)
    → let r = ingest_round window b a t now in
      departures r.1 ++ items r.0.queued ≡ items b.queued ++ arrivals ((a, t, now) ∷ [])
unfolding ingest_round
ingest_round-events window b (envelope i) t now =
    maybe_flush-events (add b i t) window false now ∙ items-add b i t
ingest_round-events window b (lease_release l) t now =
    let (d, q) = flush-events b in
    rw (departures-append (flush b).1 (released l ∷ []), d, q)
      (append-nil (items b.queued ++ release l ∷ []))
ingest_round-events window b control t now = sym (append-nil (items b.queued))
ingest_round-events window b timeout t now =
    maybe_flush-events b window true now ∙ sym (append-nil (items b.queued))

arrivals-cons :
    (a : Arrival) (t now : ℕ) (ins : List (Arrival × ℕ × ℕ))
    → arrivals ((a, t, now) ∷ ins) ≡ arrivals ((a, t, now) ∷ []) ++ arrivals ins
arrivals-cons (envelope i) t now ins = refl
arrivals-cons (lease_release l) t now ins = refl
arrivals-cons control t now ins = refl
arrivals-cons timeout t now ins = refl

-- Any arrivals with any clock readings: the envelopes and the releases leave the lane in the order
-- of their arrival, each once, and those that have not left are what the batcher holds. So the
-- envelopes that came before a release are applied before it is handled.
pub run_ingest-events :
    (window : ℕ) (b : IngestBatcher) (ins : List (Arrival × ℕ × ℕ))
    → let r = run_ingest window b ins in
      departures r.1 ++ items r.0.queued ≡ items b.queued ++ arrivals ins
unfolding run_ingest
run_ingest-events window b [] = sym (append-nil (items b.queued))
run_ingest-events window b ((a, t, now) ∷ ins) =
    let r = ingest_round window b a t now in
    let rest = run_ingest window r.0 ins in
    rw (departures-append r.1 rest.1) (
      append_assoc (departures r.1) (departures rest.1) (items rest.0.queued)
      ∙ ap (λ l. departures r.1 ++ l) (run_ingest-events window r.0 ins)
      ∙ sym (append_assoc (departures r.1) (items r.0.queued) (arrivals ins))
      ∙ ap (λ l. l ++ arrivals ins) (ingest_round-events window b a t now)
      ∙ append_assoc (items b.queued) (arrivals ((a, t, now) ∷ [])) (arrivals ins)
      ∙ ap (λ l. items b.queued ++ l) (sym (arrivals-cons a t now ins)))
