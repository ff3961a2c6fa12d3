-- ===== src/Deltas/Buffers.antt =====
-- The buffers of DeltaRelay (src/apipi/worker/deltas.py): what they hold for a key.
use apipi.Base.{
  ℕ, ◌≤◌, ◌≡◌, refl, sym, ap, ◌∙◌, Bool, true, false, List, [], ◌∷◌, ◌++◌, append-nil, append_assoc,
  map, length, ◌==◌, if◌then◌else◌, is_empty, Bool-cases, inl, inr, arith,
}
use apipi.Deltas.Split.{Text, join, split, split-join}
use apipi.Deltas.Relay.{
  Kind, delta_text, delta_reasoning, Key, same_kind, same_key, Chunk, FlushTask, done, sleeping,
  sending, Buffers, without, add_text, chunks, Out, sent, lost, Step, submits, wakes, emits,
  forgets, attaches, detaches, State,
}

-- A text where it is of a key.
abbrev pub if_key : Key → Key → Text → Text
if_key j k t = if same_key j k then t else []

-- The text of a key in chunks, in the buffers, in the task, and in what became of chunks.
abbrev pub said : Key → List Chunk → Text
said k [] = []
said k (c ∷ cs) = if_key c.key k c.text ++ said k cs

abbrev pub buffered : Key → Buffers → Text
buffered k [] = []
buffered k ((j, ts) ∷ bs) = if_key j k (join ts) ++ buffered k bs

abbrev pub pending : Key → FlushTask → Text
pending k done = []
pending k sleeping = []
pending k (sending cs) = said k cs

abbrev pub chunk_of : Out → Chunk
chunk_of (sent n c) = c
chunk_of (lost c) = c

abbrev pub told : Key → List Out → Text
told k [] = []
told k (o ∷ os) = told k os ++ if_key (chunk_of o).key k (chunk_of o).text

abbrev pub whole : Key → State → Text
whole k (r, outs) = told k outs ++ (pending k r.flush_task ++ buffered k r.buffers)

abbrev pub submitted_by : Key → Step → Text
submitted_by k (submits j t) = if_key j k t
submitted_by k wakes = []
submitted_by k (emits works) = []
submitted_by k (forgets s) = []
submitted_by k attaches = []
submitted_by k detaches = []

abbrev pub submitted : Key → List Step → Text
submitted k [] = []
submitted k (x ∷ xs) = submitted_by k x ++ submitted k xs

-- No key stands twice.
abbrev pub has : Buffers → Key → Bool
has [] k = false
has ((j, ts) ∷ bs) k = if same_key j k then true else has bs k

abbrev pub Unique : Buffers → Type 0
Unique [] = Unit
Unique ((j, ts) ∷ bs) = (has bs j ≡ false) × Unique bs

same_kind_eq : (a b : Kind) → same_kind a b ≡ true → a ≡ b
same_kind_eq delta_text delta_text h = refl
same_kind_eq delta_text delta_reasoning h = cc
same_kind_eq delta_reasoning delta_text h = cc
same_kind_eq delta_reasoning delta_reasoning h = refl

same_kind_comm : (a b : Kind) → same_kind a b ≡ same_kind b a
same_kind_comm delta_text delta_text = refl
same_kind_comm delta_text delta_reasoning = refl
same_kind_comm delta_reasoning delta_text = refl
same_kind_comm delta_reasoning delta_reasoning = refl

same_key_comm : (j k : Key) → same_key j k ≡ same_key k j
unfolding same_key
same_key_comm j k = ground (arith, same_kind_comm j.kind k.kind)

same_key_eq : (j k : Key) → same_key j k ≡ true → j ≡ k
unfolding same_key
same_key_eq j k h =
    let s : j.session_id ≡ k.session_id = ground arith in
    let t : j.turn_id ≡ k.turn_id = ground arith in
    let q : j.kind ≡ k.kind = same_kind_eq j.kind k.kind (ground arith) in cc

buffered-has : (bs : Buffers) (k : Key) → has bs k ≡ false → buffered k bs ≡ []
buffered-has [] k h = refl
buffered-has ((j, ts) ∷ bs) k h = elim (Bool-cases (same_key j k)) [
  | inl a ↦ cc (rw a at h)
  | inr a ↦ rw a (buffered-has bs k (rw a at h))
]

has-add_text :
    (bs : Buffers) (j k : Key) (t : Text)
    → same_key j k ≡ false
    → has bs k ≡ false
    → has (add_text bs j t) k ≡ false
unfolding add_text
has-add_text [] j k t n h = rw n refl
has-add_text ((i, ts) ∷ bs) j k t n h = elim (Bool-cases (same_key i k)) [
  | inl a ↦ cc (rw a at h)
  | inr a ↦ elim (Bool-cases (same_key i j)) [
    | inl b ↦ rw (b, a) (rw a at h)
    | inr b ↦ rw (b, a) (has-add_text bs j k t n (rw a at h))
  ]
]

pub add_text-Unique : (bs : Buffers) (k : Key) (t : Text) → Unique bs → Unique (add_text bs k t)
unfolding add_text
add_text-Unique [] k t u = (refl, tt)
add_text-Unique ((j, ts) ∷ bs) k t u = elim (Bool-cases (same_key j k)) [
  | inl b ↦ rw b u
  | inr b ↦
      rw b (has-add_text bs k j t (sym (same_key_comm j k) ∙ b) u.0, add_text-Unique bs k t u.1)
]

pub if_key_nil : (j k : Key) → if_key j k [] ≡ []
if_key_nil j k = elim (Bool-cases (same_key j k)) [ inl a ↦ rw a refl | inr a ↦ rw a refl ]

if_key-append : (j k : Key) (t u : Text) → if_key j k (t ++ u) ≡ if_key j k t ++ if_key j k u
if_key-append j k t u = elim (Bool-cases (same_key j k)) [ inl a ↦ rw a refl | inr a ↦ rw a refl ]

pub is_empty_eq : (t : Text) → is_empty t ≡ true → t ≡ []
is_empty_eq [] h = refl
is_empty_eq (c ∷ t) h = cc

is_empty_le : (t : Text) → is_empty t ≡ false → 1 ≤ length t
is_empty_le [] h = cc
is_empty_le (c ∷ t) h = omega arith

join-snoc : (ts : List Text) (t : Text) → join (ts ++ t ∷ []) ≡ join ts ++ t
join-snoc [] t = append-nil t
join-snoc (s ∷ ts) t = rw (join-snoc ts t) (sym (append_assoc s (join ts) t))

pub buffered-add_text :
    (bs : Buffers) (j k : Key) (t : Text)
    → Unique bs
    → buffered k (add_text bs j t) ≡ buffered k bs ++ if_key j k t
unfolding add_text
buffered-add_text [] j k t u = rw (append-nil t) (append-nil (if_key j k t))
buffered-add_text ((i, ts) ∷ bs) j k t u = elim (Bool-cases (same_key i j)) [
  | inr b ↦
      rw (b, buffered-add_text bs j k t u.1)
        (sym (append_assoc (if_key i k (join ts)) (buffered k bs) (if_key j k t)))
  | inl b ↦
      let e : i ≡ j = same_key_eq i j b in
      let same : same_key i k ≡ same_key j k = ap (λ a. same_key a k) e in
      elim (Bool-cases (same_key j k)) [
        | inl c ↦
            let f : j ≡ k = same_key_eq j k c in
            let none : buffered k bs ≡ [] = buffered-has bs k (rw (e ∙ f) at u.0) in
            rw (b, same, c, none, join-snoc ts t, append-nil (join ts)) (append-nil (join ts ++ t))
        | inr c ↦ rw (b, same, c) (sym (append-nil (buffered k bs)))
      ]
]

has-without : (s : ℕ) (bs : Buffers) (k : Key) → has bs k ≡ false → has (without s bs) k ≡ false
unfolding without
has-without s [] k h = refl
has-without s ((j, ts) ∷ bs) k h = elim (Bool-cases (same_key j k)) [
  | inl a ↦ cc (rw a at h)
  | inr a ↦ elim (Bool-cases (j.session_id == s)) [
    | inl b ↦ rw b (has-without s bs k (rw a at h))
    | inr b ↦ rw (b, a) (has-without s bs k (rw a at h))
  ]
]

pub without-Unique : (s : ℕ) (bs : Buffers) → Unique bs → Unique (without s bs)
unfolding without
without-Unique s [] u = tt
without-Unique s ((j, ts) ∷ bs) u = elim (Bool-cases (j.session_id == s)) [
  | inl b ↦ rw b (without-Unique s bs u.1)
  | inr b ↦ rw b (has-without s bs j u.0, without-Unique s bs u.1)
]

said-append : (k : Key) (cs ds : List Chunk) → said k (cs ++ ds) ≡ said k cs ++ said k ds
said-append k [] ds = refl
said-append k (c ∷ cs) ds =
    rw (said-append k cs ds) (sym (append_assoc (if_key c.key k c.text) (said k cs) (said k ds)))

-- The pieces of one key's text.
said-pieces :
    (k j : Key) (ts : List Text)
    → said k (map (λ t. record { key = j; text = t }) ts) ≡ if_key j k (join ts)
said-pieces k j [] = sym (if_key_nil j k)
said-pieces k j (t ∷ ts) = rw (said-pieces k j ts) (sym (if_key-append j k t (join ts)))

pub said-chunks :
    (limit : ℕ) (k : Key) (bs : Buffers) → 1 ≤ limit → said k (chunks limit bs) ≡ buffered k bs
unfolding chunks
said-chunks limit k [] h = refl
said-chunks limit k ((j, ts) ∷ bs) h = elim (Bool-cases (is_empty (join ts))) [
  | inl a ↦ rw (a, said-chunks limit k bs h, is_empty_eq (join ts) a, if_key_nil j k) refl
  | inr a ↦
      let whole_text = (split-join (join ts) limit (is_empty_le (join ts) a) h).0 in
      let piece : Text → Chunk = λ t. record { key = j; text = t } in
      let pieces : List Chunk = map piece (split (join ts) limit) in
      rw
        (
          a,
          said-append k pieces (chunks limit bs),
          said-pieces k j (split (join ts) limit),
          whole_text,
          said-chunks limit k bs h,
        )
        refl
]

pub buffered-without :
    (s : ℕ) (k : Key) (bs : Buffers)
    → (k.session_id == s) ≡ false
    → buffered k (without s bs) ≡ buffered k bs
unfolding without
buffered-without s k [] n = refl
buffered-without s k ((j, ts) ∷ bs) n = elim (Bool-cases (j.session_id == s)) [
  | inr a ↦ rw a (ap (λ r. if_key j k (join ts) ++ r) (buffered-without s k bs n))
  | inl a ↦
      let other : same_key j k ≡ false = unfold same_key in ground (arith) in
      rw (a, other) (buffered-without s k bs n)
]
