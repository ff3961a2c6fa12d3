-- ===== src/Outbox/Moves.antt =====
-- The specification of each call, and the calls that move a buffer (src/apipi/worker/outbox.py).
use apipi.Base.{
  ℕ, max, ◌≡◌, refl, ◌∙◌, Bool, [], ◌∷◌, ◌++◌, keep, ltb, ◌==◌, ==_eq, if◌then◌else◌, Option, none,
  some, Bool-cases, Option-cases, inl, inr, Result, ok, err, is_empty,
}
use apipi.Base.Dict
use apipi.Base.Dict.{Dict}
use apipi.Outbox.State.{Envelope, Held, Buffer, Outbox, max_message_bytes}
use apipi.Outbox.Spool.{ensure}
use apipi.Outbox.Ops.{
  Call, append, append_to, append_bounded, refuses, build, admit, acked, set_base, begin_connection,
  rewind, mark_sent, drop_head, drop_seen, missing_feature, AppendError,
}
use apipi.Outbox.Trim.{drop_seen-eq-keep, shrunk, cut}
use apipi.Outbox.Valid.{WellFormed, Rising-suffix}
use apipi.Outbox.Keeps.{trim_lem, ensure-get, ensure-WellFormed}
use apipi.Outbox.Run.{Op, appends, acks, bases, connects, syncs, marks, releases, drops, compacts}
use apipi.Outbox.Spec.{
  View, view, view_of, quiet, view-here, view-store, view-ensure, view-spool_append,
  view-after_trim,
}

module _ {P : Type 0} where
  -- The moves of the specification.
  unfoldable pub accept : Held P → View P → View P
  accept e v = record v {
    pending = v.pending ++ e ∷ [];
    unsent = v.unsent ++ e ∷ [];
    issued = e.seq;
  }

  unfoldable pub discard : ℕ → View P → View P
  discard n v = record v {
    pending = keep (λ e. ltb n e.seq) v.pending;
    unsent = keep (λ e. ltb n e.seq) v.unsent;
  }

  unfoldable pub rebase : ℕ → View P → View P
  unfolding discard
  rebase n v = record (discard n v) { issued = max v.issued n }

  unfoldable pub restart : View P → View P
  restart v = record v { unsent = v.pending }

  unfoldable pub transmit : Held P → View P → View P
  transmit e v = record v { unsent = drop_head v.unsent e }

  -- A session with nothing left is forgotten but for its numbering.
  unfoldable pub retire : View P → View P
  unfolding quiet
  retire v = if is_empty v.pending then quiet v.issued else v

  -- The specification of a call, with the envelope that append returned.
  unfoldable pub spec : Op P → Option (Held P) → ℕ → View P → View P
  unfolding accept rebase restart transmit retire
  spec (appends c) (some e) t v = if c.session_id == t then accept e v else v
  spec (appends c) none t v = v
  spec (acks s n _) _ t v = if s == t then discard n v else v
  spec (bases s n _) _ t v = if s == t then rebase n v else v
  spec connects _ t v = restart v
  spec syncs _ t v = v
  spec (marks s e) _ t v = if s == t then transmit e v else v
  spec (releases s _) _ t v = if s == t then retire v else v
  spec (drops s _) _ t v = if s == t then quiet 0 else v
  spec (compacts _ _) _ t v = v

  abbrev pub returned : Result AppendError (Held P) → Option (Held P)
  returned (ok e) = some e
  returned (err _) = none

module _ {P : Type 0} (size : Envelope P → ℕ) where
  -- The envelope that a call accepts, if it is an append that succeeds.
  unfoldable pub outcome : Outbox P → Op P → Option (Held P)
  outcome o (appends c) = returned (append size o c).1
  outcome o _ = none

  view-trimmed :
      (o : Outbox P) (s : ℕ) (b : Buffer P) (n : ℕ)
      → WellFormed size o
      → Dict.get o.sessions s ≡ some b
      → (drop_seen n b.envelopes ≡ keep (λ e. ltb n e.seq) b.envelopes)
        × (drop_seen n b.unsent ≡ keep (λ e. ltb n e.seq) b.unsent)
  view-trimmed o s b n w g =
      let k = w.each s b g in
      let (pre, e) = k.split in
      (
        drop_seen-eq-keep n 0 b.envelopes k.rising,
        drop_seen-eq-keep n 0 b.unsent (Rising-suffix 0 pre b.unsent (rw (← e) k.rising)),
      )

  -- What a method that trims writes back shows the view with the acked envelopes gone.
  view_of-trimmed :
      (o : Outbox P) (s n i : ℕ) (b : Buffer P)
      → WellFormed size o
      → Dict.get o.sessions s ≡ some b
      → ◌≡◌ {A = View P}
          (record { pending = drop_seen n b.envelopes; unsent = drop_seen n b.unsent; issued = i })
          (record (discard n (view o s)) { issued = i })
  unfolding discard view_of
  view_of-trimmed o s n i b w g =
      let (x, y) = view-trimmed o s b n w g in rw (view-here o s b g, x, y)

  -- A change of one session, stated at any session.
  pub at_session :
      (o : Outbox P) (s t : ℕ) (x : View P) (move : View P → View P)
      → x ≡ move (view o s)
      → (if s == t then x else view o t) ≡ (if s == t then move (view o t) else view o t)
  at_session o s t x move e = elim (Bool-cases (s == t)) [
    | inl h ↦ rw h (rw (← (==_eq s t h)) e)
    | inr h ↦ rw h
  ]

  pub view-acked :
      (o : Outbox P) (s n t : ℕ) (disk : Bool)
      → WellFormed size o
      → view (acked size o s n disk) t ≡ (if s == t then discard n (view o t) else view o t)
  unfolding acked cut shrunk discard view_of
  view-acked o s n t disk w = elim (Option-cases (Dict.get o.sessions s)) [
    | inl g ↦ elim (Bool-cases (s == t)) [
      | inr h ↦ rw (g, h, acked)
      | inl h ↦ rw (g, h, acked) (rw (← (==_eq s t h)) (unfold view quiet in rw g))
    ]
    | inr (b, g) ↦
        rw (g, acked)
          (rw (trim_lem size o b n) (
            view-after_trim o (shrunk size o b.envelopes n) s t _ disk refl refl
            ∙ at_session o s t _ (discard n)
                (view_of-trimmed o s n b.issued b w g ∙ rw (view-here o s b g))))
  ]

  pub view-set_base :
      (o : Outbox P) (s n t : ℕ) (disk : Bool)
      → WellFormed size o
      → view (set_base size o s n disk) t ≡ (if s == t then rebase n (view o t) else view o t)
  unfolding set_base cut shrunk rebase view_of
  view-set_base o s n t disk w =
      let o₁ = (ensure o s).0 in
      let b = (ensure o s).1 in
      let g = ensure-get size o s in
      let w₁ = ensure-WellFormed size o s w in
      rw (trim_lem size o₁ b n) (
        view-after_trim o₁ (shrunk size o₁ b.envelopes n) s t _ disk refl refl
        ∙ (at_session o₁ s t _ (rebase n)
              (view_of-trimmed o₁ s n (max b.issued n) b w₁ g ∙ rw (view-here o₁ s b g))
            ∙ rw (view-ensure o s t)))

  pub view-append :
      (o : Outbox P) (c : Call P) (t : ℕ)
      → WellFormed size o
      → view (append size o c).0 t ≡ spec (appends c) (returned (append size o c).1) t (view o t)
  unfolding append append_to append_bounded spec
  view-append o c t w = elim (Option-cases (missing_feature o.peer_features c.kind)) [
    | inr (f, m) ↦ rw (m, append)
    | inl m ↦
        let s = c.session_id in
        let o₁ = (ensure o s).0 in
        let b = (ensure o s).1 in
        let e = build size o₁ b c in
        elim (Bool-cases (ltb max_message_bytes (size e.wire))) [
          | inl x ↦ rw (m, append) (rw x (view-ensure o s t))
          | inr x ↦ elim (Bool-cases (refuses size o₁ b c e)) [
            | inl r ↦ rw (m, append) (rw (x, r) (view-ensure o s t))
            | inr r ↦
                rw (m, append)
                  (rw (x, r)
                    (view-spool_append o₁ _ s t _ e.wire c.disk refl refl
                      ∙ (at_session o₁ s t _ (accept e) (
                            rw (view-here o₁ s b (ensure-get size o s))
                              (unfold view_of accept admit in refl))
                          ∙ rw (view-ensure o s t))))
          ]
        ]
  ]

  pub view-begin_connection :
      (o : Outbox P) (t : ℕ)
      → WellFormed size o
      → view (begin_connection o).0 t ≡ restart (view o t)
  unfolding begin_connection rewind view restart view_of quiet
  view-begin_connection o t w = elim (Option-cases (Dict.get o.sessions t)) [
    | inl g ↦ rw (Dict.get-map_values rewind o.sessions t, g)
    | inr (b, g) ↦ rw (Dict.get-map_values rewind o.sessions t, g)
  ]

  pub view-mark_sent :
      (o : Outbox P) (s t : ℕ) (e : Held P)
      → view (mark_sent o s e) t ≡ (if s == t then transmit e (view o t) else view o t)
  unfolding mark_sent view_of transmit
  view-mark_sent o s t e = elim (Option-cases (Dict.get o.sessions s)) [
    | inl g ↦ elim (Bool-cases (s == t)) [
      | inr h ↦ rw (g, h, mark_sent)
      | inl h ↦ rw (g, h, mark_sent) (rw (← (==_eq s t h)) (unfold view quiet drop_head in rw g))
    ]
    | inr (b, g) ↦
        rw (g, mark_sent)
          (view-store o o s t _ refl (λ _. refl)
            ∙ at_session o s t _ (transmit e) (rw (view-here o s b g)))
  ]
