-- ===== src/Outbox/Ends.antt =====
-- Ending a session, loading the spool and compacting it keep the outbox well formed.
use apipi.Base.{
  ℕ, ◌+◌, ◌-◌, ◌≤◌, ◌<◌, ◌≡◌, refl, ◌∙◌, Bool, true, not, ◌&&◌, List, [], ◌∷◌, arith, leb, leb→lt,
  ltb, ◌==◌, if◌then◌else◌, length, length-append, sum_by, sum_by-append, All-append, Bool-cases,
  Option-cases, none, some, inl, inr, is_empty,
}
use apipi.Base.Dict
use apipi.Base.Dict.{Dict}
use apipi.Outbox.State.{Envelope, Held, Line, blank, garbled, entry, Buffer, Outbox}
use apipi.Outbox.Spool.{ensure, remove_spool}
use apipi.Outbox.Ops.{release, drop_session}
use apipi.Outbox.Load.{
  load_line, load_lines, load_file, load_files, load_spool, Snapshot, replace_file, compact_end,
}
use apipi.Outbox.Valid.{
  BufferOk, WellFormed, BufferOk-same, store-WellFormed, Rising-append, All-le_mono, append-Splits,
}
use apipi.Outbox.Keeps.{WellFormed-same, remove_spool-same, ensure-get, ensure-WellFormed}

module _ {P : Type 0} (size : Envelope P → ℕ) where
  remove_spool-WellFormed :
      (o : Outbox P) (s : ℕ) (disk : Bool)
      → WellFormed size o
      → WellFormed size (remove_spool o s disk)
  remove_spool-WellFormed o s disk w =
      let (e₁, e₂, e₃) = remove_spool-same size o s disk in
      WellFormed-same size o (remove_spool o s disk) w e₁ e₂ e₃

  -- A session is taken out, and the totals fall by its share.
  remove-WellFormed :
      (o o' : Outbox P) (s : ℕ) (b : Buffer P)
      → WellFormed size o
      → Dict.get o.sessions s ≡ some b
      → o'.sessions ≡ Dict.remove o.sessions s
      → o'.messages ≡ o.messages - length b.envelopes
      → o'.bytes ≡ o.bytes - b.bytes
      → WellFormed size o'
  remove-WellFormed o o' s b w g same m n = record {
    distinct = rw same (Dict.remove-Distinct o.sessions s w.distinct);
    messages_total = rw same (
        omega (
          arith,
          m,
          w.messages_total,
          rw g at (Dict.total-remove (λ x. length x.envelopes) o.sessions s w.distinct),
        ));
    bytes_total = rw same (
        omega (
          arith,
          n,
          w.bytes_total,
          rw g at (Dict.total-remove (λ x. x.bytes) o.sessions s w.distinct),
        ));
    each = λ t c h. w.each t c (kept t c (rw (← (Dict.get-remove o.sessions s t)) (rw (← same) h)));
  }
    where
      kept :
          (t : ℕ) (c : Buffer P)
          → (if s == t then none else Dict.get o.sessions t) ≡ some c
          → Dict.get o.sessions t ≡ some c
      kept t c h = ground arith

  pub release-WellFormed :
      (o : Outbox P) (s : ℕ) (disk : Bool) → WellFormed size o → WellFormed size (release o s disk)
  unfolding release
  release-WellFormed o s disk w = elim (Option-cases (Dict.get o.sessions s)) [
    | inl g ↦ rw (g, release) w
    | inr (b, g) ↦ elim (Bool-cases (is_empty b.envelopes)) [
      | inr e ↦ rw (g, e, release) w
      | inl e ↦
          let empty : length b.envelopes ≡ 0 = length_of_empty b.envelopes e in
          let none_left : b.bytes ≡ 0 = bytes_of_empty b (w.each s b g) e in
          elim (Bool-cases (ltb 0 b.spooled)) [
            | inl d ↦
                rw (g, e, d, release)
                  (remove_spool-WellFormed _ s disk
                    (remove-WellFormed o _ s b w g refl (omega arith) (omega arith)))
            | inr d ↦
                rw (g, e, d, release)
                  (remove-WellFormed o _ s b w g refl (omega arith) (omega arith))
          ]
    ]
  ]
    where
      length_of_empty : (es : List (Held P)) → is_empty es ≡ true → length es ≡ 0
      length_of_empty [] h = refl
      length_of_empty (x ∷ es) h = cc

      bytes_of_empty : (b : Buffer P) → BufferOk size b → is_empty b.envelopes ≡ true → b.bytes ≡ 0
      bytes_of_empty b k h = k.counted ∙ sum_of_empty b.envelopes h
        where
          sum_of_empty :
              (es : List (Held P)) → is_empty es ≡ true → sum_by (λ e. size e.wire) es ≡ 0
          sum_of_empty [] h = refl
          sum_of_empty (x ∷ es) h = cc

  pub drop_session-WellFormed :
      (o : Outbox P) (s : ℕ) (disk : Bool)
      → WellFormed size o
      → WellFormed size (drop_session o s disk)
  unfolding drop_session
  drop_session-WellFormed o s disk w = elim (Option-cases (Dict.get o.sessions s)) [
    | inl g ↦
        rw (g, drop_session)
          (remove_spool-WellFormed _ s disk (WellFormed-same size o _ w refl refl refl))
    | inr (b, g) ↦
        rw (g, drop_session)
          (remove_spool-WellFormed _ s disk (remove-WellFormed o _ s b w g refl refl refl))
  ]

  -- What a loaded line adds to the totals is what it adds to the buffer.
  pub record Adds (o o' : Outbox P) (b b' : Buffer P) : Type 0 where
    pub sessions_same : o'.sessions ≡ o.sessions
    pub messages_add : o'.messages + length b.envelopes ≡ o.messages + length b'.envelopes
    pub bytes_add : o'.bytes + b.bytes ≡ o.bytes + b'.bytes
    pub buffer_ok : BufferOk size b'

  load_line-Adds :
      (o : Outbox P) (b : Buffer P) (l : Line P) (now : ℕ)
      → BufferOk size b
      → Adds o (load_line size o b l now).0 b (load_line size o b l now).1
  unfolding load_line
  load_line-Adds o b blank now k = record {
    sessions_same = refl;
    messages_add = refl;
    bytes_add = refl;
    buffer_ok = k;
  }
  load_line-Adds o b garbled now k = record {
    sessions_same = refl;
    messages_add = refl;
    bytes_add = refl;
    buffer_ok = k;
  }
  load_line-Adds o b (entry e) now k = elim (Bool-cases (leb e.seq b.issued)) [
    | inl h ↦ rw h (record {
      sessions_same = refl;
      messages_add = refl;
      bytes_add = refl;
      buffer_ok = BufferOk-same size b _ k refl refl refl (omega arith) k.split;
    })
    | inr h ↦
        let x : Held P = record { id = o.allocated; wire = e } in
        let new : b.issued < e.seq = leb→lt e.seq b.issued h in
        rw h (record {
          sessions_same = refl;
          messages_add = omega (arith, length-append b.envelopes (x ∷ []));
          bytes_add = omega arith;
          buffer_ok = record {
            counted =
                omega (arith, k.counted, sum_by-append (λ y. size y.wire) b.envelopes (x ∷ []));
            stamped = omega (
              arith,
              k.stamped,
              length-append b.added (now ∷ []),
              length-append b.envelopes (x ∷ []),
            );
            rising = Rising-append 0 b.issued b.envelopes x k.rising k.issued_all new (omega arith);
            issued_all =
                All-append (λ y. y.seq ≤ e.seq) b.envelopes _
                  (All-le_mono b.issued e.seq b.envelopes (omega arith) k.issued_all)
                  (omega arith, tt);
            split = append-Splits b.envelopes b.unsent x k.split;
          };
        })
  ]

  load_lines-Adds :
      (o : Outbox P) (b : Buffer P) (ls : List (Line P)) (now : ℕ)
      → BufferOk size b
      → Adds o (load_lines size o b ls now).0 b (load_lines size o b ls now).1
  unfolding load_lines
  load_lines-Adds o b [] now k = record {
    sessions_same = refl;
    messages_add = refl;
    bytes_add = refl;
    buffer_ok = k;
  }
  load_lines-Adds o b (l ∷ ls) now k =
      let one = load_line-Adds o b l now k in
      let (o₁, b₁) = load_line size o b l now in
      let rest = load_lines-Adds o₁ b₁ ls now one.buffer_ok in
      record {
        sessions_same = rest.sessions_same ∙ one.sessions_same;
        messages_add = omega (arith, one.messages_add, rest.messages_add);
        bytes_add = omega (arith, one.bytes_add, rest.bytes_add);
        buffer_ok = rest.buffer_ok;
      }

  load_file-WellFormed :
      (o : Outbox P) (s : ℕ) (ls : List (Line P)) (now : ℕ)
      → WellFormed size o
      → WellFormed size (load_file size o s ls now)
  unfolding load_file
  load_file-WellFormed o s ls now w =
      let o₁ = (ensure o s).0 in
      let b = (ensure o s).1 in
      let g = ensure-get size o s in
      let w₁ = ensure-WellFormed size o s w in
      let a = load_lines-Adds o₁ b ls now (w₁.each s b g) in
      store-WellFormed size o₁ _ s _ w₁ a.sessions_same (rw g a.messages_add) (rw g a.bytes_add)
        (BufferOk-same size _ _ a.buffer_ok refl refl refl (omega arith) a.buffer_ok.split)

  load_files-WellFormed :
      (o : Outbox P) (readable : ℕ → Bool) (files : Dict (List (Line P))) (now : ℕ)
      → WellFormed size o
      → WellFormed size (load_files size o readable files now)
  unfolding load_files
  load_files-WellFormed o readable [] now w = w
  load_files-WellFormed o readable ((s, ls) ∷ files) now w = elim (Bool-cases (readable s)) [
    | inl h ↦ rw h (
        load_files-WellFormed (load_file size o s ls now) readable files now
          (load_file-WellFormed o s ls now w))
    | inr h ↦ rw h (load_files-WellFormed o readable files now w)
  ]

  pub load_spool-WellFormed :
      (o : Outbox P) (readable : ℕ → Bool) (now : ℕ)
      → WellFormed size o
      → WellFormed size (load_spool size o readable now)
  unfolding load_spool
  load_spool-WellFormed o readable now w = elim (Option-cases o.files) [
    | inl e ↦ rw (e, load_spool) w
    | inr (files, e) ↦ rw (e, load_spool) (load_files-WellFormed o readable files now w)
  ]

  pub compact_end-WellFormed :
      (o : Outbox P) (snap : Snapshot P) (disk : Bool)
      → WellFormed size o
      → WellFormed size (compact_end o snap disk)
  unfolding compact_end replace_file
  compact_end-WellFormed o snap disk w = elim (Option-cases o.files) [
    | inl e ↦ rw (e, compact_end) w
    | inr (files, e) ↦ elim (Option-cases (Dict.get o.sessions snap.session_id)) [
      | inl g ↦ rw (e, g, compact_end) w
      | inr (b, g) ↦
          elim (Bool-cases (b.id == snap.buffer && (not (is_empty b.envelopes) && disk))) [
            | inl t ↦
                let k = w.each snap.session_id b g in
                rw (e, g, t, compact_end)
                  (store-WellFormed size o _ snap.session_id _ w refl (rw g (omega arith))
                    (rw g (omega arith))
                    (BufferOk-same size b _ k refl refl refl (omega arith) k.split))
            | inr t ↦ rw (e, g, t, compact_end) w
          ]
    ]
  ]
