-- ===== src/Outbox/Trim.antt =====
-- The loop of _trim in closed form, and what it leaves of a buffer.
use apipi.Base.{
  ℕ, zero, suc, ◌+◌, ◌-◌, ◌≤◌, ◌<◌, ◌≡◌, refl, ◌∙◌, List, [], ◌∷◌, arith, keep, tail, drop, ltb,
  leb, leb→lt, if◌then◌else◌, length, sum_by, All, Bool-cases, inl, inr,
}
use apipi.Outbox.State.{Envelope, Held, Buffer, Outbox}
use apipi.Outbox.Ops.{trim_envelopes, drop_first, drop_seen}

-- Sequence numbers rise strictly from above `lo`.
abbrev pub Rising : {P : Type 0} → ℕ → List (Held P) → Type 0
Rising lo [] = Unit
Rising lo (e ∷ es) = (lo < e.seq) × Rising e.seq es

-- How many envelopes the loop drops.
unfoldable pub count_seen : {P : Type 0} → ℕ → List (Held P) → ℕ
count_seen last [] = 0
count_seen last (e ∷ es) = if leb e.seq last then suc (count_seen last es) else 0

module _ {P : Type 0} where
  pub length-drop_seen :
      (last : ℕ) (es : List (Held P)) → length (drop_seen last es) + count_seen last es ≡ length es
  unfolding drop_seen count_seen
  length-drop_seen last [] = omega arith
  length-drop_seen last (e ∷ es) = ground (arith, length-drop_seen last es)

  pub Rising-mono : {lo hi : ℕ} (es : List (Held P)) → lo ≤ hi → Rising hi es → Rising lo es
  Rising-mono [] h r = tt
  Rising-mono (e ∷ es) h r = (omega arith, r.1)

  keep_all :
      (last lo : ℕ) (es : List (Held P))
      → last ≤ lo
      → Rising lo es
      → keep (λ e. ltb last e.seq) es ≡ es
  keep_all last lo [] h r = refl
  keep_all last lo (e ∷ es) h r = ground (arith, keep_all last e.seq es (omega arith) r.1)

  -- On rising numbers the loop keeps exactly the envelopes past `last`.
  pub drop_seen-eq-keep :
      (last lo : ℕ) (es : List (Held P))
      → Rising lo es
      → drop_seen last es ≡ keep (λ e. ltb last e.seq) es
  unfolding drop_seen
  drop_seen-eq-keep last lo [] r = refl
  drop_seen-eq-keep last lo (e ∷ es) r = elim (Bool-cases (leb e.seq last)) [
    | inl h ↦ rw h (drop_seen-eq-keep last e.seq es r.1 ∙ ground arith)
    | inr h ↦ rw h (ground (arith, keep_all last e.seq es (omega (arith, leb→lt e.seq last h)) r.1))
  ]

  -- What is left rises from the last dropped number, and from `last`.
  pub drop_seen-Rising :
      (last lo : ℕ) (es : List (Held P))
      → Rising lo es
      → Rising lo (drop_seen last es) × Rising last (drop_seen last es)
  unfolding drop_seen
  drop_seen-Rising last lo [] r = (tt, tt)
  drop_seen-Rising last lo (e ∷ es) r = elim (Bool-cases (leb e.seq last)) [
    | inl h ↦
        let ih = drop_seen-Rising last e.seq es r.1 in
        rw h (Rising-mono (drop_seen last es) (omega arith) ih.0, ih.1)
    | inr h ↦ rw h (r, (leb→lt e.seq last h, r.1))
  ]

  pub drop_seen-All {κ} :
      (Q : Held P → Type κ) (last : ℕ) (es : List (Held P)) → All Q es → All Q (drop_seen last es)
  unfolding drop_seen
  drop_seen-All Q last [] h = tt
  drop_seen-All Q last (e ∷ es) h = elim (Bool-cases (leb e.seq last)) [
    | inl p ↦ rw p (drop_seen-All Q last es h.1)
    | inr p ↦ rw p h
  ]

module _ {P : Type 0} (size : Envelope P → ℕ) where
  -- The bytes that the loop drops.
  unfoldable pub weight_seen : ℕ → List (Held P) → ℕ
  weight_seen last [] = 0
  weight_seen last (e ∷ es) = if leb e.seq last then size e.wire + weight_seen last es else 0

  pub sum_by-drop_seen :
      (last : ℕ) (es : List (Held P))
      → sum_by (λ e. size e.wire) (drop_seen last es) + weight_seen last es
        ≡ sum_by (λ e. size e.wire) es
  unfolding drop_seen weight_seen
  sum_by-drop_seen last [] = omega arith
  sum_by-drop_seen last (e ∷ es) = ground (arith, sum_by-drop_seen last es)

  unfoldable pub shrunk : Outbox P → List (Held P) → ℕ → Outbox P
  shrunk o es last = record o {
    messages = o.messages - count_seen last es;
    bytes = o.bytes - weight_seen last es;
  }

  unfoldable pub cut : Buffer P → List (Held P) → ℕ → Buffer P
  cut b es last = record b {
    envelopes = drop_seen last es;
    added = drop (count_seen last es) b.added;
    bytes = b.bytes - weight_seen last es;
    dead = b.dead + count_seen last es;
  }

  drop-tail : (n : ℕ) (xs : List ℕ) → drop n (tail xs) ≡ drop (suc n) xs
  drop-tail zero [] = refl
  drop-tail (suc n) [] = refl
  drop-tail n (x ∷ xs) = refl

  pub trim_envelopes_lem :
      (o : Outbox P) (b : Buffer P) (es : List (Held P)) (last : ℕ)
      → b.envelopes ≡ es
      → trim_envelopes size o b es last ≡ (shrunk o es last, cut b es last)
  unfolding trim_envelopes drop_first shrunk cut count_seen weight_seen drop_seen
  trim_envelopes_lem o b [] last h = ground arith
  trim_envelopes_lem o b (e ∷ es) last h = elim (Bool-cases (leb e.seq last)) [
    | inl p ↦ rw p (
        ground (
          arith,
          trim_envelopes_lem (drop_first size o b e es).0 (drop_first size o b e es).1 es last refl,
          drop-tail (count_seen last es) b.added,
        ))
    | inr p ↦ rw p (ground arith)
  ]
