-- ===== src/Outbox/Keeps.antt =====
-- Every method keeps the outbox well formed.
use apipi.Base.{
  ℕ, ◌+◌, ◌-◌, ◌≤◌, ◌≡◌, refl, sym, ◌∙◌, Bool, [], ◌∷◌, arith, ltb, length, length-append,
  length-drop, is_empty, ◌&&◌, sum_by-append, All-append, Bool-cases, Option-cases, some, inl, inr,
  subst, some_eq,
}
use mathlib.Core.Option
use apipi.Base.Dict
use apipi.Base.Dict.{Dict}
use apipi.Outbox.State.{Envelope, Held, Buffer, Outbox, max_message_bytes}
use apipi.Outbox.Spool.{store, ensure, fresh, floor_of, spool_append, remove_spool}
use apipi.Outbox.Ops.{
  Call, trim, drop_seen, after_trim, acked, set_base, append, append_to, append_bounded, build,
  admit, begin_connection, rewind, mark_sent, refuses, exceeds, missing_feature,
}
use apipi.Outbox.Trim.{
  drop_seen-Rising, drop_seen-All, length-drop_seen, sum_by-drop_seen, trim_envelopes_lem, cut,
  shrunk, count_seen, weight_seen,
}
use apipi.Outbox.Valid.{
  BufferOk, WellFormed, BufferOk-same, fresh-BufferOk, store-WellFormed, Rising-append, All-le_mono,
  drop_seen-Splits, append-Splits, drop_head-Splits,
}

module _ {P : Type 0} (size : Envelope P → ℕ) where
  -- Fields that the invariant does not read may change.
  pub WellFormed-same :
      (o o' : Outbox P)
      → WellFormed size o
      → o'.sessions ≡ o.sessions
      → o'.messages ≡ o.messages
      → o'.bytes ≡ o.bytes
      → WellFormed size o'
  WellFormed-same o o' w e₁ e₂ e₃ = record {
    distinct = rw e₁ w.distinct;
    messages_total = rw (e₁, e₂) w.messages_total;
    bytes_total = rw (e₁, e₃) w.bytes_total;
    each = λ s b h. w.each s b (rw (← e₁) h);
  }

  pub ensure-get : (o : Outbox P) (s : ℕ) → Dict.get (ensure o s).0.sessions s ≡ some (ensure o s).1
  unfolding ensure store
  ensure-get o s = elim (Option-cases (Dict.get o.sessions s)) [
    | inl e ↦ rw (e, ensure) (Dict.get-put o.sessions s s _ ∙ ground arith)
    | inr (b, e) ↦ rw (e, ensure) e
  ]

  pub ensure-WellFormed :
      (o : Outbox P) (s : ℕ) → WellFormed size o → WellFormed size (ensure o s).0
  unfolding ensure fresh
  ensure-WellFormed o s w = elim (Option-cases (Dict.get o.sessions s)) [
    | inl e ↦
        rw (e, ensure)
          (store-WellFormed size o _ s _ w refl (rw e (omega arith)) (rw e (omega arith))
            (fresh-BufferOk size o.allocated (floor_of o.floors s)))
    | inr (b, e) ↦ rw (e, ensure) w
  ]

  -- What trim leaves, with its closed form.
  pub trim_lem :
      (o : Outbox P) (b : Buffer P) (last : ℕ)
      → trim size o b last ≡ (
        shrunk size o b.envelopes last,
        record (cut size b b.envelopes last) { unsent = drop_seen last b.unsent },
      )
  unfolding trim cut
  trim_lem o b last = rw (trim_envelopes_lem size o b b.envelopes last refl)

  -- The trimmed buffer, whatever becomes of its cursors.
  abbrev trimmed : Buffer P → ℕ → Buffer P
  trimmed b last = record (cut size b b.envelopes last) { unsent = drop_seen last b.unsent }

  trimmed-BufferOk : (b : Buffer P) (last : ℕ) → BufferOk size b → BufferOk size (trimmed b last)
  unfolding cut
  trimmed-BufferOk b last k = record {
    counted = omega (arith, k.counted, sum_by-drop_seen size last b.envelopes);
    stamped = omega (
      arith,
      k.stamped,
      length-drop_seen last b.envelopes,
      length-drop (count_seen last b.envelopes) b.added,
    );
    rising = (drop_seen-Rising last 0 b.envelopes k.rising).0;
    issued_all = drop_seen-All (λ e. e.seq ≤ b.issued) last b.envelopes k.issued_all;
    split = drop_seen-Splits last 0 b.envelopes b.unsent k.rising k.split;
  }

  -- What remove_spool leaves alone.
  pub remove_spool-same :
      (o : Outbox P) (s : ℕ) (disk : Bool)
      → ((remove_spool o s disk).sessions ≡ o.sessions)
        × ((remove_spool o s disk).messages ≡ o.messages)
        × ((remove_spool o s disk).bytes ≡ o.bytes)
  unfolding remove_spool
  remove_spool-same o s disk = elim (Option-cases o.files) [
    | inl e ↦ rw (e, remove_spool) (refl, refl, refl)
    | inr (f, e) ↦ rw (e, remove_spool) (refl, refl, refl)
  ]

  after_trim-WellFormed :
      (o o' : Outbox P) (s : ℕ) (b : Buffer P) (disk : Bool)
      → WellFormed size o
      → o'.sessions ≡ o.sessions
      → o'.messages + Dict.at (λ x. length x.envelopes) (Dict.get o.sessions s)
        ≡ o.messages + length b.envelopes
      → o'.bytes + Dict.at (λ x. x.bytes) (Dict.get o.sessions s) ≡ o.bytes + b.bytes
      → BufferOk size b
      → WellFormed size (after_trim o' s b disk)
  unfolding after_trim
  after_trim-WellFormed o o' s b disk w e m n k =
      elim (Bool-cases (is_empty b.envelopes && ltb 0 b.spooled)) [
        | inl t ↦
            let (r₁, r₂, r₃) = remove_spool-same o' s disk in
            rw t (
              store-WellFormed size o (remove_spool o' s disk) s _ w (r₁ ∙ e) (rw r₂ m) (rw r₃ n)
                (BufferOk-same size b _ k refl refl refl (omega arith) k.split))
        | inr t ↦ rw t (store-WellFormed size o o' s b w e m n k)
      ]

  -- The totals fall by what a trim takes from the buffer of `s`.
  trim_totals :
      (o : Outbox P) (s : ℕ) (b : Buffer P) (last : ℕ)
      → WellFormed size o
      → Dict.get o.sessions s ≡ some b
      → ((shrunk size o b.envelopes last).messages + length b.envelopes
          ≡ o.messages + length (drop_seen last b.envelopes))
        × ((shrunk size o b.envelopes last).bytes + b.bytes
            ≡ o.bytes + (b.bytes - weight_seen size last b.envelopes))
  unfolding shrunk
  trim_totals o s b last w e =
      let m : length b.envelopes ≤ Dict.total (λ x. length x.envelopes) o.sessions =
        Dict.at-le-total (λ x. length x.envelopes) o.sessions s b e in
      let n : b.bytes ≤ Dict.total (λ x. x.bytes) o.sessions =
        Dict.at-le-total (λ x. x.bytes) o.sessions s b e in
      (
        omega (arith, m, w.messages_total, length-drop_seen last b.envelopes),
        omega (
          arith,
          n,
          w.bytes_total,
          (w.each s b e).counted,
          sum_by-drop_seen size last b.envelopes,
        ),
      )

  pub acked-WellFormed :
      (o : Outbox P) (s last : ℕ) (disk : Bool)
      → WellFormed size o
      → WellFormed size (acked size o s last disk)
  unfolding acked
  acked-WellFormed o s last disk w = elim (Option-cases (Dict.get o.sessions s)) [
    | inl e ↦ rw (e, acked) w
    | inr (b, e) ↦
        let t = trim_totals o s b last w e in
        rw (e, acked)
          (rw (trim_lem o b last) (
            after_trim-WellFormed o (shrunk size o b.envelopes last) s _ disk w
              (unfold shrunk in refl) (rw e (unfold cut in t.0)) (rw e (unfold cut in t.1))
              (BufferOk-same size (trimmed b last) _ (trimmed-BufferOk b last (w.each s b e)) refl
                refl refl (omega arith) (trimmed-BufferOk b last (w.each s b e)).split)))
  ]

  pub set_base-WellFormed :
      (o : Outbox P) (s last : ℕ) (disk : Bool)
      → WellFormed size o
      → WellFormed size (set_base size o s last disk)
  unfolding set_base
  set_base-WellFormed o s last disk w =
      let o₁ = (ensure o s).0 in
      let b = (ensure o s).1 in
      let e = ensure-get o s in
      let w₁ = ensure-WellFormed o s w in
      let t = trim_totals o₁ s b last w₁ e in
      rw (trim_lem o₁ b last) (
        after_trim-WellFormed o₁ (shrunk size o₁ b.envelopes last) s _ disk w₁
          (unfold shrunk in refl) (rw e (unfold cut in t.0)) (rw e (unfold cut in t.1))
          (BufferOk-same size (trimmed b last) _ (trimmed-BufferOk b last (w₁.each s b e)) refl refl
            refl (unfold cut in omega arith) (trimmed-BufferOk b last (w₁.each s b e)).split))

  spool_append-WellFormed :
      (o o' : Outbox P) (s : ℕ) (b : Buffer P) (e : Envelope P) (disk : Bool)
      → WellFormed size o
      → o'.sessions ≡ o.sessions
      → o'.messages + Dict.at (λ x. length x.envelopes) (Dict.get o.sessions s)
        ≡ o.messages + length b.envelopes
      → o'.bytes + Dict.at (λ x. x.bytes) (Dict.get o.sessions s) ≡ o.bytes + b.bytes
      → BufferOk size b
      → WellFormed size (spool_append o' s b e disk)
  unfolding spool_append
  spool_append-WellFormed o o' s b e disk w same m n k = elim (Option-cases o'.files) [
    | inl p ↦ rw (p, spool_append) (store-WellFormed size o o' s b w same m n k)
    | inr (files, p) ↦ elim (Bool-cases disk) [
      | inl d ↦
          rw (p, d, spool_append)
            (store-WellFormed size o _ s _ w same m n
              (BufferOk-same size b _ k refl refl refl (omega arith) k.split))
      | inr d ↦ rw (p, d, spool_append) (store-WellFormed size o o' s b w same m n k)
    ]
  ]

  -- A buffer takes one more envelope, numbered past the last.
  admit-BufferOk :
      (o : Outbox P) (b : Buffer P) (c : Call P) (over : Bool)
      → BufferOk size b
      → BufferOk size (admit size b (build size o b c) over c.now)
  unfolding admit build
  admit-BufferOk o b c over k = record {
    counted =
        omega
          (arith, k.counted, sum_by-append (λ e. size e.wire) b.envelopes (build size o b c ∷ []));
    stamped = omega (
      arith,
      k.stamped,
      length-append b.added (c.now ∷ []),
      length-append b.envelopes (build size o b c ∷ []),
    );
    rising =
        Rising-append 0 b.issued b.envelopes _ k.rising k.issued_all (omega arith) (omega arith);
    issued_all =
        All-append (λ e. e.seq ≤ b.issued + 1) b.envelopes _
          (All-le_mono b.issued (b.issued + 1) b.envelopes (omega arith) k.issued_all)
          (omega arith, tt);
    split = append-Splits b.envelopes b.unsent _ k.split;
  }

  append_bounded-WellFormed :
      (o : Outbox P) (b : Buffer P) (c : Call P)
      → WellFormed size o
      → Dict.get o.sessions c.session_id ≡ some b
      → WellFormed size (append_bounded size o b c (build size o b c)).0
  unfolding append_bounded
  append_bounded-WellFormed o b c w g = elim (Bool-cases (refuses size o b c (build size o b c))) [
    | inl r ↦ rw r w
    | inr r ↦
        let e = build size o b c in
        rw r (
          spool_append-WellFormed o _ c.session_id _ e.wire c.disk w refl
            (rw g (unfold admit in omega (arith, length-append b.envelopes (e ∷ []))))
            (rw g (unfold admit in omega arith))
            (admit-BufferOk o b c (exceeds size o b (size e.wire)) (w.each c.session_id b g)))
  ]

  pub append-WellFormed :
      (o : Outbox P) (c : Call P) → WellFormed size o → WellFormed size (append size o c).0
  unfolding append append_to
  append-WellFormed o c w = elim (Option-cases (missing_feature o.peer_features c.kind)) [
    | inr (f, m) ↦ rw (m, append) w
    | inl m ↦
        let o₁ = (ensure o c.session_id).0 in
        let b = (ensure o c.session_id).1 in
        let w₁ = ensure-WellFormed o c.session_id w in
        elim (Bool-cases (ltb max_message_bytes (size (build size o₁ b c).wire))) [
          | inl t ↦ rw (m, append) (rw t w₁)
          | inr t ↦
              rw (m, append)
                (rw t (append_bounded-WellFormed o₁ b c w₁ (ensure-get o c.session_id)))
        ]
  ]

  pub begin_connection-WellFormed :
      (o : Outbox P) → WellFormed size o → WellFormed size (begin_connection o).0
  unfolding begin_connection rewind
  begin_connection-WellFormed o w = record {
    distinct = Dict.map_values-Distinct rewind o.sessions w.distinct;
    messages_total =
        w.messages_total ∙ sym (Dict.total-map_values (λ b. length b.envelopes) rewind o.sessions);
    bytes_total = w.bytes_total ∙ sym (Dict.total-map_values (λ b. b.bytes) rewind o.sessions);
    each = λ s b h. pick s b (rw (Dict.get-map_values rewind o.sessions s) at h);
  }
    where
      pick :
          (s : ℕ) (b : Buffer P)
          → Option.map rewind (Dict.get o.sessions s) ≡ some b
          → BufferOk size b
      pick s b h = elim (Option-cases (Dict.get o.sessions s)) [
        | inl e ↦ cc (rw e at h)
        | inr (a, e) ↦
            let k = w.each s a e in
            subst (BufferOk size) {x = rewind a} {y = b} (some_eq (rw e at h))
              (BufferOk-same size a (rewind a) k refl refl refl (omega arith) ([], refl))
      ]

  pub mark_sent-WellFormed :
      (o : Outbox P) (s : ℕ) (e : Held P) → WellFormed size o → WellFormed size (mark_sent o s e)
  unfolding mark_sent
  mark_sent-WellFormed o s e w = elim (Option-cases (Dict.get o.sessions s)) [
    | inl g ↦ rw (g, mark_sent) w
    | inr (b, g) ↦
        let k = w.each s b g in
        rw (g, mark_sent)
          (store-WellFormed size o o s _ w refl (rw g (omega arith)) (rw g (omega arith)) (
            BufferOk-same size b _ k refl refl refl (omega arith)
              (drop_head-Splits b.envelopes b.unsent e k.split)))
  ]
