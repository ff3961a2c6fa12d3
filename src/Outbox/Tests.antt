-- ===== src/Outbox/Tests.antt =====
-- Runs of the outbox, and its theorems at concrete inputs.
use apipi.Base.{
  ◌⊎◌, ℕ, map, ◌≡◌, refl, true, false, List, [], ◌∷◌, ◌++◌, none, some, keep, ltb, arith,
}
use apipi.Base.Dict
use apipi.Outbox.State.{Envelope, Outbox}
use apipi.Outbox.Spool.{ensure, store, fresh, floor_of, spool_append, remove_spool}
use apipi.Outbox.Ops.{
  Call, append, append_to, append_bounded, missing_feature, build, refuses, exceeds, over_worker,
  over_session, admit, acked, trim, trim_envelopes, drop_first, drop_seen, after_trim,
  begin_connection,
}
use apipi.Outbox.Load.{load_spool}
use apipi.Outbox.Valid.{WellFormed}
use apipi.Outbox.Run.{
  Op, init, appends, acks, connects, step, run, outbox-WellFormed, init-WellFormed,
}
use apipi.Outbox.Spec.{view, view_of, quiet}
use apipi.Outbox.Moves.{spec, outcome}
use apipi.Outbox.Refines.{Evicted, view-step}
use apipi.Outbox.Lossless.{accepted, cut, lossless, AllFair}

-- Envelopes whose payload is their size.
abbrev weight : Envelope ℕ → ℕ
weight e = e.payload

abbrev send : ℕ → ℕ → Call ℕ
send s n = record {
  session_id = s;
  kind = "item.done";
  payload = n;
  turn_id = none;
  emergency = false;
  now = 5;
  disk = true;
}

abbrev empty : Outbox ℕ
empty = init 8 4096 2 1 2 none

abbrev script : List (Op ℕ)
script = appends (send 1 30) ∷ appends (send 1 40) ∷ acks 1 1 true ∷ connects ∷ []

outbox-WellFormed_example :
    WellFormed weight
      (run weight (load_spool weight (init 8 4096 2 1 2 (some [])) (λ s. true) 7) script)
outbox-WellFormed_example = outbox-WellFormed weight 8 4096 2 1 2 (some []) (λ s. true) 7 script

empty-WellFormed : WellFormed weight empty
empty-WellFormed = init-WellFormed weight 8 4096 2 1 2 none

view-step_example :
    (view (step weight empty (appends (send 1 30))) 1
      ≡ spec (appends (send 1 30)) (outcome weight empty (appends (send 1 30))) 1 (view empty 1))
    ⊎ Evicted weight empty (appends (send 1 30)) 1
unfolding init
view-step_example = view-step weight empty (appends (send 1 30)) 1 empty-WellFormed

script-AllFair : AllFair weight 1 empty script
unfolding init step append append_to append_bounded missing_feature ensure store fresh floor_of
    spool_append build refuses exceeds over_worker over_session admit acked trim trim_envelopes
    drop_first drop_seen after_trim remove_spool begin_connection view view_of quiet Dict.get
    Dict.put Dict.remove Dict.map_values
script-AllFair = omega arith

lossless_example :
    (view (run weight empty script) 1).pending
    ≡ keep
        (λ e. ltb (cut 1 script) e.seq)
        ((view empty 1).pending ++ accepted weight 1 empty script)
lossless_example = lossless weight 1 empty script empty-WellFormed script-AllFair

-- A run of the script by evaluation: the second envelope is left.
script_runs : map (λ e. e.seq) (view (run weight empty script) 1).pending ≡ 2 ∷ []
unfolding init run step append append_to append_bounded missing_feature ensure store fresh floor_of
    spool_append build refuses exceeds over_worker over_session admit acked trim trim_envelopes
    drop_first drop_seen after_trim remove_spool begin_connection view view_of quiet Dict.get
    Dict.put Dict.remove Dict.map_values
script_runs = refl
