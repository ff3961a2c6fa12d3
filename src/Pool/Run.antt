-- ===== src/Pool/Run.antt =====
-- The pool as its callers drive it: what the methods do between two waits is one step, and the steps
-- of different calls come in any order (src/apipi/worker/pi/pool.py).
use apipi.Base.{ℕ, Bool, List, [], ◌∷◌, ◌++◌, Option, none, some, if◌then◌else◌}
use apipi.Base.Dict
use apipi.Pool.State.{Call, Settings, PiPool}
use apipi.Pool.Ops.{
  Hook, held, hold, release, release_after_turn, touch, kill_begin, kill_hook, kill_count, kill_end,
  after_turn, get_locked, store_proc, finish_spawn, dies,
}

-- `booted` and `boot_failed` are the ends of the spawn that `get` waits for; the numbers are the new
-- process and the clock. `kill_breaks` is the end of a kill whose _kill raises or is cancelled: the
-- exception skips after_turn.
pub data Step : Type 0 where
  gets : ℕ → Call → ℕ → Step
  booted : ℕ → ℕ → ℕ → Step
  boot_failed : ℕ → Step
  kills : ℕ → Step
  hooks : ℕ → Option ℕ → Bool → Step
  kill_ends : ℕ → Step
  kill_breaks : ℕ → Step
  holds : ℕ → Step
  marks : ℕ → Step
  turn_ends : ℕ → Bool → Step
  touches : ℕ → ℕ → Step
  exits : ℕ → Step

-- Only a call that was told to spawn boots a process.
unfoldable pub boot : PiPool → ℕ → ℕ → ℕ → PiPool
boot p s ident now = elim (Dict.get p.inflight s) [ none ↦ p | some a ↦ store_proc p s a ident now ]

-- A turn's end in src/apipi/worker/runtime.py and src/apipi/worker/client.py: `release`, a mark
-- unless the turn `ended` well, and after_turn, without a wait between them.
unfoldable pub turn_over : PiPool → ℕ → Bool → PiPool × List Hook
turn_over p s ended =
    after_turn (if ended then release p s else release_after_turn (release p s) s) s

-- A mark is set while a turn or a command holds the session.
unfoldable pub mark_held : PiPool → ℕ → PiPool
mark_held p s = if held p s then release_after_turn p s else p

unfoldable pub step : Settings → PiPool → Step → PiPool × List Hook
step c p (gets s a now) = ((get_locked c p s a now).0, [])
step c p (booted s ident now) = (boot p s ident now, [])
step c p (boot_failed s) = (finish_spawn p s, [])
step c p (kills s) = (kill_begin p s, [])
step c p (hooks s proc let_go) = kill_hook p s proc let_go
step c p (kill_ends s) = kill_end p s
step c p (kill_breaks s) = (kill_count p s, [])
step c p (holds s) = (hold p s, [])
step c p (marks s) = (mark_held p s, [])
step c p (turn_ends s ended) = turn_over p s ended
step c p (touches s now) = (touch p s now, [])
step c p (exits s) = (dies p s, [])

unfoldable pub run : Settings → PiPool → List Step → PiPool × List Hook
run c p [] = (p, [])
run c p (v ∷ vs) = let (p', out) = step c p v in let (p'', rest) = run c p' vs in (p'', out ++ rest)
