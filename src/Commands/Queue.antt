-- ===== src/Commands/Queue.antt =====
-- src/apipi/workerhub/command_queue.py. Ids and clock readings are numbers; `wire` is cut down to
-- the fields that the queue reads, with the rest of the frame as `payload`.
use apipi.Base.{
  ℕ, ◌+◌, Bool, true, false, not, ◌&&◌, ◌||◌, String, List, [], ◌∷◌, ◌++◌, Option, none, some, keep,
  is_empty, leb, ◌==◌, str_eq, if◌then◌else◌, length, Result, ok, err,
}
use apipi.Base.Dict
use apipi.Base.Dict.{Dict}

abbrev pub max_pending_per_lease : ℕ
max_pending_per_lease = 16

pub record Wire : Type 0 where
  pub id : ℕ
  pub op : String
  pub lease_id : ℕ
  pub session_id : ℕ
  pub payload : ℕ

-- PendingCommand; `ident` is the identity of the object, which its fields do not show.
pub record PendingCommand : Type 0 where
  pub ident : ℕ
  pub wire : Wire
  pub lease_id : ℕ
  pub session_id : ℕ
  pub worker_id : Option ℕ
  pub created : ℕ
  pub sent_at : Option ℕ
  pub sends : ℕ

pub record CommandQueue : Type 0 where
  pub by_lease : Dict (List PendingCommand)
  pub turns : Dict ℕ
  pub allocated : ℕ

pub data QueueError : Type 0 where
  queue_full : ℕ → QueueError

-- CURSOR_OPS of src/apipi/protocol/constants.py
unfoldable pub is_cursor_op : String → Bool
is_cursor_op op = str_eq op "turn.start" || (str_eq op "turn.continue" || str_eq op "sandbox.boot")

-- `self._by_lease.get(lease_id, [])`
unfoldable pub for_lease : CommandQueue → ℕ → List PendingCommand
for_lease q l = Dict.get_or q.by_lease l []

unfoldable pub turns_of : CommandQueue → ℕ → ℕ
turns_of q l = Dict.get_or q.turns l 0

unfoldable pub new_entry : CommandQueue → Wire → Option ℕ → ℕ → PendingCommand
new_entry q w worker now = record {
  ident = q.allocated;
  wire = w;
  lease_id = w.lease_id;
  session_id = w.session_id;
  worker_id = worker;
  created = now;
  sent_at = none;
  sends = 0;
}

-- push, with the clock reading
unfoldable pub push :
    CommandQueue → Wire → Option ℕ → ℕ → CommandQueue × Result QueueError PendingCommand
push q w worker now =
    let l = w.lease_id in
    let e = new_entry q w worker now in
    let es = for_lease q l in
    if leb max_pending_per_lease (length es)
    then (record q { by_lease = Dict.put q.by_lease l es }, err (queue_full l))
    else (
      record q {
        by_lease = Dict.put q.by_lease l (es ++ e ∷ []);
        turns = if is_cursor_op w.op then Dict.put q.turns l (turns_of q l + 1) else q.turns;
        allocated = q.allocated + 1;
      },
      ok e,
    )

-- The first entry with a command id.
unfoldable pub find : ℕ → List PendingCommand → Option PendingCommand
find c [] = none
find c (e ∷ es) = if e.wire.id == c then some e else find c es

unfoldable pub get : CommandQueue → ℕ → ℕ → Option PendingCommand
get q l c = find c (for_lease q l)

unfoldable pub same_option : Option ℕ → Option ℕ → Bool
same_option none none = true
same_option (some a) (some b) = a == b
same_option _ _ = false

-- The dataclass equality that `in` and `list.remove` use.
unfoldable pub equals : PendingCommand → PendingCommand → Bool
equals a b =
    a.wire.id == b.wire.id
    && (str_eq a.wire.op b.wire.op
        && (a.wire.lease_id == b.wire.lease_id
            && (a.wire.session_id == b.wire.session_id
                && (a.wire.payload == b.wire.payload
                    && (a.lease_id == b.lease_id
                        && (a.session_id == b.session_id
                            && (same_option a.worker_id b.worker_id
                                && (a.created == b.created
                                    && (same_option a.sent_at b.sent_at
                                        && a.sends == b.sends)))))))))

unfoldable pub remove_first : PendingCommand → List PendingCommand → List PendingCommand
remove_first e [] = []
remove_first e (x ∷ xs) = if equals x e then xs else x ∷ remove_first e xs

unfoldable pub discard : CommandQueue → PendingCommand → CommandQueue
discard q e = elim (Dict.get q.by_lease e.lease_id) [
  | none ↦ q
  | some es ↦
      let rest = remove_first e es in
      record q {
        by_lease =
            if is_empty rest
            then Dict.remove q.by_lease e.lease_id
            else Dict.put q.by_lease e.lease_id rest;
      }
]

unfoldable pub ack : CommandQueue → ℕ → ℕ → CommandQueue × Option PendingCommand
ack q l c = elim (get q l c) [ none ↦ (q, none) | some e ↦ (discard q e, some e) ]

unfoldable pub forget_turns : CommandQueue → ℕ → CommandQueue
forget_turns q l =
    if is_empty (for_lease q l) then record q { turns = Dict.remove q.turns l } else q

unfoldable pub drop_lease : CommandQueue → ℕ → CommandQueue × List PendingCommand
drop_lease q l =
    (record q { turns = Dict.remove q.turns l; by_lease = Dict.remove q.by_lease l }, for_lease q l)

unfoldable pub has_lease : CommandQueue → ℕ → Bool
has_lease q l = not (is_empty (for_lease q l))

unfoldable pub leases : CommandQueue → List ℕ
leases q = Dict.keys q.by_lease

-- __iter__: the queues of the leases one after another
unfoldable pub entries : Dict (List PendingCommand) → List PendingCommand
entries [] = []
entries ((l, es) ∷ d) = es ++ entries d

unfoldable pub for_worker : CommandQueue → ℕ → List PendingCommand
for_worker q w = keep (λ e. same_option e.worker_id (some w)) (entries q.by_lease)

-- mark_sent changes the object wherever it is queued.
unfoldable pub stamp : PendingCommand → ℕ → List PendingCommand → List PendingCommand
stamp e now [] = []
stamp e now (x ∷ xs) =
    (if x.ident == e.ident then record x { sent_at = some now; sends = x.sends + 1 } else x)
    ∷ stamp e now xs

unfoldable pub mark_sent : CommandQueue → PendingCommand → ℕ → CommandQueue
mark_sent q e now = record q { by_lease = Dict.map_values (stamp e now) q.by_lease }

-- `now - t >= d` on a clock that does not run backwards
unfoldable pub due : CommandQueue → ℕ → ℕ → List PendingCommand
due q interval now =
    keep (λ e. elim e.sent_at [ none ↦ false | some t ↦ leb (t + interval) now ])
      (entries q.by_lease)

unfoldable pub expired : CommandQueue → ℕ → ℕ → List PendingCommand
expired q ttl now = keep (λ e. leb (e.created + ttl) now) (entries q.by_lease)

unfoldable pub size : CommandQueue → ℕ
size q = Dict.total length q.by_lease
