-- ===== src/Writer/Order.antt =====
-- Frames are written in the order of their calls (src/apipi/workerhub/writer.py).
use apipi.Base.{
  ℕ, ◌≤◌, ◌≡◌, refl, sym, ap, ◌∙◌, Bool, true, false, List, [], ◌∷◌, ◌++◌, append-nil, append_assoc,
  map, Option, none, some, leb, leb→lt, is_empty, subst, if◌then◌else◌, length, length-append,
  arith, inl, inr, ◌⊎◌, Option-cases,
}
use apipi.Writer.Queue.{
  Entry, ConnectionWriter, WorkerSendError, started, enqueue, admit, queued, futures, drop_flying,
  fail_pending, errors, Event, sends, submits, takes, wrote, times_out, fails, stops, empties,
  take_next, write_done, write_stopped, cancel, step, accepted_by, run, write_timeout, write_failed,
  connection_closed, error_of,
}

List-cases : (xs : List Entry) → (xs ≡ []) ⊎ ((x : Entry) × (ys : List Entry) × (xs ≡ x ∷ ys))
List-cases [] = inl refl
List-cases (x ∷ xs) = inr (x, xs, refl)

abbrev pub frames : List (Entry × Bool) → List Entry
frames ps = map (λ p. p.0) ps

frames-append :
    (ps : List (Entry × Bool)) (es : List Entry) (c : Bool)
    → frames (ps ++ map (λ e. (e, c)) es) ≡ frames ps ++ es
frames-append [] [] c = refl
frames-append [] (e ∷ es) c = ap (λ l. e ∷ l) (frames-append [] es c)
frames-append (p ∷ ps) es c = ap (λ l. p.0 ∷ l) (frames-append ps es c)

futures-append : (xs ys : List Entry) → futures (xs ++ ys) ≡ futures xs ++ futures ys
unfolding futures
futures-append [] ys = refl
futures-append (x ∷ xs) ys = elim (Option-cases x.done) [
  | inl e ↦ rw (futures, e) (futures-append xs ys)
  | inr (f, e) ↦ rw (futures, e) (ap (λ l. f ∷ l) (futures-append xs ys))
]

-- The futures that were told of an error.
abbrev pub refused : List (ℕ × WorkerSendError) → List ℕ
refused fs = map (λ p. p.0) fs

refused-append :
    (fs : List (ℕ × WorkerSendError)) (ns : List ℕ) (r : WorkerSendError)
    → refused (fs ++ map (λ f. (f, r)) ns) ≡ refused fs ++ ns
refused-append [] [] r = refl
refused-append [] (n ∷ ns) r = ap (λ l. n ∷ l) (refused-append [] ns r)
refused-append (f ∷ fs) ns r = ap (λ l. f.0 ∷ l) (refused-append fs ns r)

-- What was queued is what passed, then what was given up, then what is still to come; a task that
-- runs has given up nothing, and the queue keeps its limit. The futures of the frames that passed
-- were told of success and those of the frames that were given up of an error, each once and in
-- order, and no other future was told.
pub record Ordered (w : ConnectionWriter) (accepted : List Entry) : Type 0 where
  pub whole : frames w.passed ++ (w.lost ++ (w.flying ++ w.queue)) ≡ accepted
  pub live : w.running ≡ true → w.lost ≡ []
  pub idle : w.running ≡ false → w.flying ≡ []
  pub tasked : w.has_task ≡ false → w.running ≡ false
  pub room : length w.queue ≤ w.limit
  pub successes : w.succeeded ≡ futures (frames w.passed)
  pub failures : refused w.failed ≡ futures w.lost

-- A frame that is not queued changes nothing of it.
same-Ordered :
    (w v : ConnectionWriter) (acc : List Entry)
    → Ordered w acc
    → v.passed ≡ w.passed
    → v.lost ≡ w.lost
    → v.flying ≡ w.flying
    → v.queue ≡ w.queue
    → v.running ≡ w.running
    → v.has_task ≡ w.has_task
    → v.limit ≡ w.limit
    → v.succeeded ≡ w.succeeded
    → v.failed ≡ w.failed
    → Ordered v acc
same-Ordered w v acc k a b c d e f g h i = record {
  whole = rw (a, b, c, d) k.whole;
  live = λ r. rw b (k.live (rw e at r));
  idle = λ r. rw c (k.idle (rw e at r));
  tasked = λ r. rw e (k.tasked (rw f at r));
  room = rw (d, g) k.room;
  successes = rw (h, a) k.successes;
  failures = rw (i, b) k.failures;
}

snoc_assoc :
    (a b c d : List Entry) (e : Entry)
    → a ++ (b ++ (c ++ (d ++ e ∷ []))) ≡ (a ++ (b ++ (c ++ d))) ++ e ∷ []
snoc_assoc a b c d e =
    rw
      (
        append_assoc a (b ++ (c ++ d)) (e ∷ []),
        append_assoc b (c ++ d) (e ∷ []),
        append_assoc c d (e ∷ []),
      )
      refl

admit-Ordered :
    (w : ConnectionWriter) (e : Entry) (acc : List Entry) (f : Option WorkerSendError) (full : Bool)
    → full ≡ leb w.limit (length w.queue)
    → Ordered w acc
    → Ordered (admit w e f full).0 (acc ++ queued (admit w e f full).1)
unfolding admit
admit-Ordered w e acc (some x) full b k = rw (append-nil acc) k
admit-Ordered w e acc none true b k =
    rw (append-nil acc) (same-Ordered w _ acc k refl refl refl refl refl refl refl refl refl)
admit-Ordered w e acc none false b k = record {
  whole = snoc_assoc (frames w.passed) w.lost w.flying w.queue e ∙ ap (λ l. l ++ e ∷ []) k.whole;
  live = k.live;
  idle = k.idle;
  tasked = k.tasked;
  room = omega (arith, length-append w.queue (e ∷ []), leb→lt w.limit (length w.queue) (sym b));
  successes = k.successes;
  failures = k.failures;
}

enqueue-Ordered :
    (w : ConnectionWriter) (e : Entry) (acc : List Entry)
    → Ordered w acc
    → Ordered (enqueue w e).0 (acc ++ queued (enqueue w e).1)
unfolding enqueue
enqueue-Ordered w e acc k = admit-Ordered w e acc w.failure (leb w.limit (length w.queue)) refl k

if-Ordered :
    (t : Bool) (x y : ConnectionWriter) (acc : List Entry)
    → (t ≡ true → Ordered x acc)
    → (t ≡ false → Ordered y acc)
    → Ordered (if t then x else y) acc
if-Ordered true x y acc a b = a refl
if-Ordered false x y acc a b = b refl

take_next-Ordered :
    (w : ConnectionWriter) (acc : List Entry)
    → w.running ≡ true
    → Ordered w acc
    → Ordered (take_next w) acc
unfolding take_next
take_next-Ordered w acc r k = elim (List-cases w.flying) [
  | inr (x, xs, f) ↦ rw (f, take_next) k
  | inl f ↦ elim (List-cases w.queue) [
    | inl q ↦ rw (f, q, take_next) k
    | inr (x, xs, q) ↦
        rw (f, q, take_next)
          (record {
            whole = rw (f, q) at k.whole;
            live = k.live;
            idle = λ n. cc (r, n);
            tasked = k.tasked;
            room = omega (arith, k.room, ap length q);
            successes = k.successes;
            failures = k.failures;
          })
  ]
]

write_done-Ordered :
    (w : ConnectionWriter) (acc : List Entry) (c : Bool)
    → w.running ≡ true
    → Ordered w acc
    → Ordered (write_done w c) acc
unfolding write_done
write_done-Ordered w acc c r k = record {
  whole =
      rw (k.live r, frames-append w.passed w.flying c)
        (append_assoc (frames w.passed) w.flying w.queue ∙ (rw (k.live r) at k.whole));
  live = k.live;
  idle = λ n. refl;
  tasked = k.tasked;
  room = k.room;
  successes =
      rw (frames-append w.passed w.flying c, futures-append (frames w.passed) w.flying)
        (ap (λ l. l ++ futures w.flying) k.successes);
  failures = k.failures;
}

told_failed :
    (w : ConnectionWriter) (acc es : List Entry) (error : WorkerSendError)
    → Ordered w acc
    → refused (w.failed ++ errors error es) ≡ futures (w.lost ++ es)
told_failed w acc es error k =
    refused-append w.failed (futures es) error
    ∙ ap (λ l. l ++ futures es) k.failures
    ∙ sym (futures-append w.lost es)

drop_flying-Ordered :
    (w : ConnectionWriter) (acc : List Entry) (error : WorkerSendError)
    → Ordered w acc
    → Ordered (drop_flying w error) acc
unfolding drop_flying
drop_flying-Ordered w acc error k = record {
  whole = rw (append_assoc w.lost w.flying w.queue) k.whole;
  live = λ h. cc;
  idle = λ n. refl;
  tasked = λ n. refl;
  room = k.room;
  successes = k.successes;
  failures = told_failed w acc w.flying error k;
}

fail_pending-Ordered :
    (w : ConnectionWriter) (acc : List Entry) (error : WorkerSendError)
    → w.running ≡ false
    → Ordered w acc
    → Ordered (fail_pending w error) acc
unfolding fail_pending
fail_pending-Ordered w acc error r k = record {
  whole = rw (k.idle r, append-nil (w.lost ++ w.queue)) (rw (k.idle r) at k.whole);
  live = λ h. cc (r, h);
  idle = k.idle;
  tasked = k.tasked;
  room = omega arith;
  successes = k.successes;
  failures = told_failed w acc w.queue error k;
}

write_stopped-Ordered :
    (w : ConnectionWriter) (acc : List Entry) (a : WorkerSendError) (c : Bool)
    → Ordered w acc
    → Ordered (write_stopped w a c) acc
unfolding write_stopped
write_stopped-Ordered w acc a c k =
    let noted = record w { failure = some a; close_requested = c } in
    fail_pending-Ordered (drop_flying noted a) acc a (unfold drop_flying in refl) (
      drop_flying-Ordered noted acc a
        (same-Ordered w noted acc k refl refl refl refl refl refl refl refl refl))

stop_write-Ordered :
    (w : ConnectionWriter) (acc : List Entry) (a : WorkerSendError) (c : Bool)
    → Ordered w acc
    → Ordered (if w.running then if is_empty w.flying then w else write_stopped w a c else w) acc
stop_write-Ordered w acc a c k =
    if-Ordered w.running (if is_empty w.flying then w else write_stopped w a c) w acc
      (λ _.
        if-Ordered (is_empty w.flying) w (write_stopped w a c) acc (λ _. k)
          (λ _. write_stopped-Ordered w acc a c k))
      (λ _. k)

cancel-Ordered : (w : ConnectionWriter) (acc : List Entry) → Ordered w acc → Ordered (cancel w) acc
unfolding cancel
cancel-Ordered w acc k =
    let w' = record w { has_task = false } in
    if-Ordered w.running (drop_flying w' connection_closed) w' acc
      (λ _.
        unfold drop_flying in
        record {
          whole = rw (append_assoc w.lost w.flying w.queue) k.whole;
          live = λ h. cc;
          idle = λ n. refl;
          tasked = λ n. refl;
          room = k.room;
          successes = k.successes;
          failures = told_failed w acc w.flying connection_closed k;
        })
      (λ r. record {
        whole = k.whole;
        live = k.live;
        idle = k.idle;
        tasked = λ _. r;
        room = k.room;
        successes = k.successes;
        failures = k.failures;
      })

-- A frame goes to the queue, or is written inline.
sent-Ordered :
    (w : ConnectionWriter) (e : Entry) (acc : List Entry) (t : Bool)
    → Ordered w acc
    → Ordered
        (if t then (enqueue w e).0 else record w { inline = w.inline ++ e ∷ [] })
        (acc ++ (if t then queued (enqueue w e).1 else []))
sent-Ordered w e acc true k = enqueue-Ordered w e acc k
sent-Ordered w e acc false k =
    rw (append-nil acc) (same-Ordered w _ acc k refl refl refl refl refl refl refl refl refl)

step-Ordered :
    (w : ConnectionWriter) (acc : List Entry) (v : Event)
    → Ordered w acc
    → Ordered (step w v) (acc ++ accepted_by w v)
unfolding step accepted_by
step-Ordered w acc (sends e) k = sent-Ordered w e acc w.has_task k
step-Ordered w acc (submits e) k = enqueue-Ordered w e acc k
step-Ordered w acc takes k =
    rw (append-nil acc)
      (if-Ordered w.running (take_next w) w acc (λ r. take_next-Ordered w acc r k) (λ _. k))
step-Ordered w acc (wrote c) k =
    rw (append-nil acc)
      (if-Ordered w.running (write_done w c) w acc (λ r. write_done-Ordered w acc c r k) (λ _. k))
step-Ordered w acc times_out k = rw (append-nil acc) (stop_write-Ordered w acc write_timeout true k)
step-Ordered w acc fails k =
    rw (append-nil acc) (stop_write-Ordered w acc write_failed w.close_requested k)
step-Ordered w acc stops k = rw (append-nil acc) (cancel-Ordered w acc k)
step-Ordered w acc empties k = rw (append-nil acc) (
    if-Ordered w.has_task w (fail_pending w (error_of w.failure)) acc (λ _. k)
      (λ t. fail_pending-Ordered w acc (error_of w.failure) (k.tasked t) k))

run-Ordered :
    (w : ConnectionWriter) (acc : List Entry) (vs : List Event)
    → Ordered w acc
    → Ordered (run w vs).0 (acc ++ (run w vs).1)
unfolding run
run-Ordered w acc [] k = rw (append-nil acc) k
run-Ordered w acc (v ∷ vs) k =
    subst (Ordered (run (step w v) vs).0) (append_assoc acc (accepted_by w v) (run (step w v) vs).1)
      (run-Ordered (step w v) (acc ++ accepted_by w v) vs (step-Ordered w acc v k))

-- A writer from the start of its task, whatever is sent, however the writes end, stops included, and
-- the task not started again: the frames that its calls queued are, in their order, those that
-- passed _write, those that were given up, the one in flight and those in the queue. While the task
-- runs none was given up, and the queue keeps its limit. Of the callers' futures those of the frames
-- that passed _write were told of success, those of the frames given up of an error, each once, and
-- no other was told. A frame that _write skips on a socket that is not connected counts as passed,
-- and frames that are sent inline after a stop are not among the queued ones.
pub run-started :
    (limit : ℕ) (vs : List Event) → Ordered (run (started limit) vs).0 (run (started limit) vs).1
unfolding started futures
run-started limit vs = run-Ordered (started limit) [] vs (record {
  whole = refl;
  live = λ _. refl;
  idle = λ _. refl;
  tasked = λ h. cc;
  room = omega arith;
  successes = refl;
  failures = refl;
})
