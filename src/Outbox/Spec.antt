-- ===== src/Outbox/Spec.antt =====
-- What the outbox promises of one session, as a state machine over a view of it.
use apipi.Base.{
  ℕ, ◌≡◌, refl, ◌∙◌, Bool, false, List, [], ltb, ◌==◌, ==_eq, ==_refl, if◌then◌else◌, Option, none,
  some, Bool-cases, Option-cases, inl, inr, is_empty, ◌&&◌,
}
use apipi.Base.Dict
use apipi.Base.Dict.{Dict}
use apipi.Outbox.State.{Envelope, Held, Buffer, Outbox}
use apipi.Outbox.Spool.{store, ensure, fresh, floor_of, spool_append, remove_spool}
use apipi.Outbox.Ops.{after_trim}

-- One session, seen from outside: what is not acked, what was not sent on this connection, and the
-- highest number issued.
pub record View (P : Type 0) : Type 0 where
  pub pending : List (Held P)
  pub unsent : List (Held P)
  pub issued : ℕ

pub floor_of-remove :
    (floors : Dict ℕ) (s t : ℕ)
    → (s == t) ≡ false
    → floor_of (Dict.remove floors s) t ≡ floor_of floors t
unfolding floor_of
floor_of-remove floors s t h = rw (Dict.get-remove floors s t, h, floor_of)

pub floor_of-gone : (floors : Dict ℕ) (s : ℕ) → floor_of (Dict.remove floors s) s ≡ 0
unfolding floor_of
floor_of-gone floors s = rw (Dict.get-remove floors s s, ==_refl s, floor_of)

module _ {P : Type 0} where
  unfoldable pub view_of : Buffer P → View P
  view_of b = record { pending = b.envelopes; unsent = b.unsent; issued = b.issued }

  unfoldable pub quiet : ℕ → View P
  quiet n = record { pending = []; unsent = []; issued = n }

  abbrev view_at : ℕ → Option (Buffer P) → View P
  view_at n none = quiet n
  view_at n (some b) = view_of b

  unfoldable pub view : Outbox P → ℕ → View P
  view o s = view_at (floor_of o.floors s) (Dict.get o.sessions s)

  pub view-here :
      (o : Outbox P) (s : ℕ) (b : Buffer P) → Dict.get o.sessions s ≡ some b → view o s ≡ view_of b
  unfolding view
  view-here o s b g = rw g

  -- A buffer that is written back changes the view of its own session only.
  pub view-store :
      (o o' : Outbox P) (s t : ℕ) (b : Buffer P)
      → o'.sessions ≡ o.sessions
      → ((s == t) ≡ false → floor_of o'.floors t ≡ floor_of o.floors t)
      → view (store o' s b) t ≡ (if s == t then view_of b else view o t)
  unfolding view store
  view-store o o' s t b e f = elim (Bool-cases (s == t)) [
    | inl h ↦ rw (e, Dict.get-put o.sessions s t b, h)
    | inr h ↦ rw (e, Dict.get-put o.sessions s t b, h, f h)
  ]

  -- The buffer that a method works on shows the view of its session.
  pub view-ensure : (o : Outbox P) (s t : ℕ) → view (ensure o s).0 t ≡ view o t
  unfolding view ensure store fresh view_of quiet
  view-ensure o s t = elim (Option-cases (Dict.get o.sessions s)) [
    | inl g ↦ elim (Bool-cases (s == t)) [
      | inl h ↦
          rw (g, ensure)
            (rw (Dict.get-put o.sessions s t (fresh o.allocated (floor_of o.floors s)), h)
              (rw (← (==_eq s t h)) (rw g refl)))
      | inr h ↦
          rw (g, ensure)
            (rw (
              Dict.get-put o.sessions s t (fresh o.allocated (floor_of o.floors s)),
              h,
              floor_of-remove o.floors s t h,
            ))
    ]
    | inr (b, g) ↦ rw (g, ensure)
  ]

  pub view-spool_append :
      (o o' : Outbox P) (s t : ℕ) (b : Buffer P) (e : Envelope P) (disk : Bool)
      → o'.sessions ≡ o.sessions
      → o'.floors ≡ o.floors
      → view (spool_append o' s b e disk) t ≡ (if s == t then view_of b else view o t)
  unfolding spool_append
  view-spool_append o o' s t b e disk p q = elim (Option-cases o'.files) [
    | inl f ↦ rw (f, spool_append) (view-store o o' s t b p (λ _. rw q))
    | inr (files, f) ↦ elim (Bool-cases disk) [
      | inl d ↦
          rw (f, d, spool_append) (view-store o _ s t _ p (λ _. rw q) ∙ (unfold view_of in refl))
      | inr d ↦ rw (f, d, spool_append) (view-store o o' s t b p (λ _. rw q))
    ]
  ]

  pub view-after_trim :
      (o o' : Outbox P) (s t : ℕ) (b : Buffer P) (disk : Bool)
      → o'.sessions ≡ o.sessions
      → o'.floors ≡ o.floors
      → view (after_trim o' s b disk) t ≡ (if s == t then view_of b else view o t)
  unfolding after_trim remove_spool
  view-after_trim o o' s t b disk p q =
      elim (Bool-cases (is_empty b.envelopes && ltb 0 b.spooled)) [
        | inr h ↦ rw h (view-store o o' s t b p (λ _. rw q))
        | inl h ↦ elim (Option-cases o'.files) [
          | inl f ↦
              rw (h, f, remove_spool)
                (view-store o o' s t _ p (λ _. rw q) ∙ (unfold view_of in refl))
          | inr (files, f) ↦
              rw (h, f, remove_spool)
                (view-store o _ s t _ p (λ _. rw q) ∙ (unfold view_of in refl))
        ]
      ]
