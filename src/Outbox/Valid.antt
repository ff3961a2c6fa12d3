-- ===== src/Outbox/Valid.antt =====
-- The well-formedness of a buffer and of the outbox, with the rule for writing one buffer back.
use apipi.Base.{
  ℕ, ◌+◌, ◌≤◌, ◌<◌, ◌≡◌, refl, sym, ap, ◌∙◌, List, [], ◌∷◌, ◌++◌, arith, keep, keep-append, ltb,
  ◌==◌, if◌then◌else◌, length, sum_by, All, Bool-cases, append_assoc, some, inl, inr, subst,
  some_eq,
}
use apipi.Base.Dict
use apipi.Base.Dict.{Dict}
use apipi.Outbox.State.{Envelope, Held, Buffer, Outbox}
use apipi.Outbox.Spool.{store, fresh}
use apipi.Outbox.Ops.{drop_seen, drop_head}
use apipi.Outbox.Trim.{Rising, Rising-mono, drop_seen-eq-keep}

module _ {P : Type 0} where
  pub Rising-append :
      (lo n : ℕ) (es : List (Held P)) (e : Held P)
      → Rising lo es
      → All (λ x. x.seq ≤ n) es
      → n < e.seq
      → lo < e.seq
      → Rising lo (es ++ e ∷ [])
  Rising-append lo n [] e r h p q = (q, tt)
  Rising-append lo n (x ∷ es) e r h p q = (r.0, Rising-append x.seq n es e r.1 h.1 p (omega arith))

  pub Rising-suffix : (lo : ℕ) (pre es : List (Held P)) → Rising lo (pre ++ es) → Rising lo es
  Rising-suffix lo [] es r = r
  Rising-suffix lo (x ∷ pre) es r = Rising-mono es (omega arith) (Rising-suffix x.seq pre es r.1)

  pub All-le_mono :
      (m n : ℕ) (es : List (Held P)) → m ≤ n → All (λ x. x.seq ≤ m) es → All (λ x. x.seq ≤ n) es
  All-le_mono m n [] h a = tt
  All-le_mono m n (x ∷ es) h a = (omega arith, All-le_mono m n es h a.1)

  -- `unsent` is the tail of `envelopes`.
  abbrev pub Splits : List (Held P) → List (Held P) → Type 0
  Splits es unsent = (pre : List (Held P)) × (es ≡ pre ++ unsent)

  pub drop_seen-Splits :
      (last lo : ℕ) (es unsent : List (Held P))
      → Rising lo es
      → Splits es unsent
      → Splits (drop_seen last es) (drop_seen last unsent)
  drop_seen-Splits last lo es unsent r (pre, e) =
      let rs : Rising lo unsent = Rising-suffix lo pre unsent (rw (← e) r) in
      (
        keep (λ x. ltb last x.seq) pre,
        drop_seen-eq-keep last lo es r
            ∙ (ap (keep (λ x. ltb last x.seq)) e
                ∙ (keep-append (λ x. ltb last x.seq) pre unsent
                    ∙ ap (◌++◌ (keep (λ x. ltb last x.seq) pre))
                        (sym (drop_seen-eq-keep last lo unsent rs)))),
      )

  pub append-Splits :
      (es unsent : List (Held P)) (e : Held P)
      → Splits es unsent
      → Splits (es ++ e ∷ []) (unsent ++ e ∷ [])
  append-Splits es unsent e (pre, h) =
      (pre, ap (λ l. l ++ e ∷ []) h ∙ append_assoc pre unsent (e ∷ []))

  pub drop_head-Splits :
      (es unsent : List (Held P)) (e : Held P) → Splits es unsent → Splits es (drop_head unsent e)
  unfolding drop_head
  drop_head-Splits es [] e h = h
  drop_head-Splits es (x ∷ unsent) e (pre, h) = elim (Bool-cases (x.id == e.id)) [
    | inl p ↦ rw p (pre ++ x ∷ [], h ∙ sym (append_assoc pre (x ∷ []) unsent))
    | inr p ↦ rw p (pre, h)
  ]

module _ {P : Type 0} (size : Envelope P → ℕ) where
  -- What every buffer keeps: exact counts, numbers that rise up to `issued`, and `unsent` a tail.
  pub record BufferOk (b : Buffer P) : Type 0 where
    pub counted : b.bytes ≡ sum_by (λ e. size e.wire) b.envelopes
    pub stamped : length b.added ≡ length b.envelopes
    pub rising : Rising 0 b.envelopes
    pub issued_all : All (λ e. e.seq ≤ b.issued) b.envelopes
    pub split : Splits b.envelopes b.unsent

  -- The totals are those of the buffers, and each buffer is well formed.
  pub record WellFormed (o : Outbox P) : Type 0 where
    pub distinct : Dict.Distinct o.sessions
    pub messages_total : o.messages ≡ Dict.total (λ b. length b.envelopes) o.sessions
    pub bytes_total : o.bytes ≡ Dict.total (λ b. b.bytes) o.sessions
    pub each : (s : ℕ) (b : Buffer P) → Dict.get o.sessions s ≡ some b → BufferOk b

  -- One buffer is written back, and the totals have moved with it.
  pub store-WellFormed :
      (o o' : Outbox P) (s : ℕ) (b : Buffer P)
      → WellFormed o
      → o'.sessions ≡ o.sessions
      → o'.messages + Dict.at (λ x. length x.envelopes) (Dict.get o.sessions s)
        ≡ o.messages + length b.envelopes
      → o'.bytes + Dict.at (λ x. x.bytes) (Dict.get o.sessions s) ≡ o.bytes + b.bytes
      → BufferOk b
      → WellFormed (store o' s b)
  unfolding store
  store-WellFormed o o' s b w same m n k = record {
    distinct = rw same (Dict.put-Distinct o.sessions s b w.distinct);
    messages_total = rw same (
        omega
          (arith, m, w.messages_total, Dict.total-put (λ x. length x.envelopes) o.sessions s b));
    bytes_total =
        rw same (omega (arith, n, w.bytes_total, Dict.total-put (λ x. x.bytes) o.sessions s b));
    each = λ t c h. pick t c (rw (← (Dict.get-put o.sessions s t b)) (rw (← same) h));
  }
    where
      pick :
          (t : ℕ) (c : Buffer P)
          → (if s == t then some b else Dict.get o.sessions t) ≡ some c
          → BufferOk c
      pick t c h = elim (Bool-cases (s == t)) [
        | inl e ↦ subst BufferOk {x = b} {y = c} (some_eq (rw e at h)) k
        | inr e ↦ w.each t c (rw e at h)
      ]

  pub fresh-BufferOk : (id n : ℕ) → BufferOk (fresh id n)
  unfolding fresh
  fresh-BufferOk id n = record {
    counted = refl;
    stamped = refl;
    rising = tt;
    issued_all = tt;
    split = ([], refl);
  }

  -- A buffer whose other fields changed.
  pub BufferOk-same :
      (b c : Buffer P)
      → BufferOk b
      → c.bytes ≡ b.bytes
      → c.added ≡ b.added
      → c.envelopes ≡ b.envelopes
      → b.issued ≤ c.issued
      → Splits b.envelopes c.unsent
      → BufferOk c
  BufferOk-same b c k e₁ e₂ e₃ le sp = record {
    counted = rw (e₁, e₃) k.counted;
    stamped = rw (e₂, e₃) k.stamped;
    rising = rw e₃ k.rising;
    issued_all = rw e₃ (All-le_mono b.issued c.issued b.envelopes le k.issued_all);
    split = rw e₃ sp;
  }
