-- ===== src/Fleet/Best.antt =====
-- The chosen worker is ready and the least loaded one (choose of src/apipi/workerhub/fleet.py).
use apipi.Base.{
  ℕ, ◌+◌, ◌≤◌, ◌<◌, str_eq, eq_iff, ◌&&◌, ◌≡◌, refl, Bool, true, false, not, ◌||◌, String, List, [],
  ◌∷◌, Option, none, some, keep, All, arith, if◌then◌else◌, Bool-cases, inl, inr, ◌⊎◌,
}
use apipi.Fleet.Choose.{Candidate, mem, is_ready, key_le, insert, sort, head, choose}

-- A list that has an entry.
abbrev pub In : Candidate → List Candidate → Type 0
In c [] = ⊥
In c (d ∷ cs) = (c ≡ d) ⊎ In c cs

key_le_total : (a b : Candidate) → key_le a b ≡ false → key_le b a ≡ true
unfolding key_le
key_le_total a b h = ground arith

key_le_trans : (a b c : Candidate) → key_le a b ≡ true → key_le b c ≡ true → key_le a c ≡ true
unfolding key_le
key_le_trans a b c h k = ground arith

key_le_refl : (a : Candidate) → key_le a a ≡ true
unfolding key_le
key_le_refl a = ground arith

-- The first of a list comes from it and stands below all of it.
Least : List Candidate → List Candidate → Type 0
Least [] cs = cs ≡ []
Least (c ∷ ds) cs = In c cs × All (λ d. key_le c d ≡ true) cs

below :
    (c d : Candidate) (cs : List Candidate)
    → key_le c d ≡ true
    → All (λ e. key_le d e ≡ true) cs
    → All (λ e. key_le c e ≡ true) cs
below c d [] h k = tt
below c d (e ∷ cs) h k = (key_le_trans c d e h k.0, below c d cs h k.1)

insert-Least : (c : Candidate) (ds cs : List Candidate) → Least ds cs → Least (insert c ds) (c ∷ cs)
unfolding insert Least
insert-Least c [] cs e = rw e (inl refl, (key_le_refl c, tt))
insert-Least c (d ∷ ds) cs (i, k) = elim (Bool-cases (key_le c d)) [
  | inl h ↦ rw h (inl refl, (key_le_refl c, below c d cs h k))
  | inr h ↦ rw h (inr i, (key_le_total c d h, k))
]

sort-Least : (cs : List Candidate) → Least (sort cs) cs
unfolding sort Least
sort-Least [] = refl
sort-Least (c ∷ cs) = insert-Least c (sort cs) cs (sort-Least cs)

keep-In :
    (p : Candidate → Bool) (c : Candidate) (cs : List Candidate)
    → In c (keep p cs)
    → In c cs × (p c ≡ true)
keep-In p c [] i = absurd i
keep-In p c (d ∷ cs) i = elim (Bool-cases (p d)) [
  | inr e ↦ let (j, k) = keep-In p c cs (rw e at i) in (inr j, k)
  | inl e ↦
      let i' : (c ≡ d) ⊎ In c (keep p cs) = rw e at i in
      elim i' [ inl q ↦ (inl q, rw q e) | inr j ↦ let (j', k) = keep-In p c cs j in (inr j', k) ]
]

-- What holds of the kept ones.
unkept :
    (p q : Candidate → Bool) (cs : List Candidate)
    → All (λ d. q d ≡ true) (keep p cs)
    → All (λ d. (not (p d) || q d) ≡ true) cs
unkept p q [] h = tt
unkept p q (d ∷ cs) h = elim (Bool-cases (p d)) [
  | inl e ↦
      let k : All (λ d. q d ≡ true) (d ∷ keep p cs) = rw e at h in
      (rw (e, k.0) refl, unkept p q cs k.1)
  | inr e ↦ (rw e refl, unkept p q cs (rw e at h))
]

none_kept :
    (p : Candidate → Bool) (cs : List Candidate) → keep p cs ≡ [] → All (λ d. p d ≡ false) cs
none_kept p [] h = tt
none_kept p (d ∷ cs) h = elim (Bool-cases (p d)) [
  | inl e ↦ cc (rw e at h)
  | inr e ↦ (e, none_kept p cs (rw e at h))
]

head-Least :
    (ds cs : List Candidate)
    → Least ds cs
    → ((head ds ≡ none) × (cs ≡ []))
      ⊎ ((c : Candidate) × (head ds ≡ some c) × In c cs × All (λ d. key_le c d ≡ true) cs)
unfolding Least
head-Least [] cs h = inl (refl, h)
head-Least (c ∷ ds) cs (i, k) = inr (c, refl, i, k)

-- A worker may take the session: it accepts the kind, has the image where a virtual machine needs
-- one, does not drain, and has a slot and the memory.
pub record Suits (kind : String) (session_mem : ℕ) (image : Option String) (c : Candidate)
    : Type 0 where
  pub accepts : mem kind c.accepts ≡ true
  pub has_image : (i : String) → image ≡ some i → kind ≡ "microvm" → mem i c.images ≡ true
  pub serves : c.draining ≡ false
  pub slot : c.leases < c.capacity
  pub memory : c.used_mem + session_mem ≤ c.memory_mb

-- The memory that `d` has free is less than that of `c`, or it is as much and `d` has no fewer
-- leases.
abbrev pub NoBetter : Candidate → Candidate → Type 0
NoBetter c d =
    (d.memory_mb + c.used_mem < c.memory_mb + d.used_mem)
    ⊎ ((d.memory_mb + c.used_mem ≡ c.memory_mb + d.used_mem) × (c.leases ≤ d.leases))

-- A test of the loop that did not skip the candidate.
unskipped : (t : Bool) (x : Bool) → (if t then false else x) ≡ true → (t ≡ false) × (x ≡ true)
unskipped t x h = elim (Bool-cases t) [ inl e ↦ cc (rw e at h) | inr e ↦ (e, rw e at h) ]

held : (x y : Bool) → (x && not y) ≡ false → x ≡ true → y ≡ true
held x y h e = ground arith

is_ready-Suits :
    (kind : String) (session_mem : ℕ) (image : Option String) (c : Candidate)
    → is_ready kind session_mem image c ≡ true
    → Suits kind session_mem image c
unfolding is_ready
is_ready-Suits kind session_mem none c h =
    let (a, k) = unskipped (not (mem kind c.accepts)) _ h in
    let (d, l) = unskipped c.draining _ k in
    record {
      accepts = ground arith;
      has_image = λ i e. cc e;
      serves = d;
      slot = ground arith;
      memory = ground arith;
    }
is_ready-Suits kind session_mem (some j) c h =
    let (a, k) = unskipped (not (mem kind c.accepts)) _ h in
    let (b, k') = unskipped (str_eq kind "microvm" && not (mem j c.images)) _ k in
    let (d, l) = unskipped c.draining _ k' in
    record {
      accepts = ground arith;
      has_image = λ i e q.
          let same : ◌≡◌ {A = Option String} (some j) (some i) = e in
          let i_is : i ≡ j = ground arith in
          let k_is : str_eq kind "microvm" ≡ true = (eq_iff kind "microvm").1 q in
          rw i_is (held (str_eq kind "microvm") (mem j c.images) b k_is);
      serves = d;
      slot = ground arith;
      memory = ground arith;
    }

Suits-is_ready :
    (kind : String) (session_mem : ℕ) (image : Option String) (c : Candidate)
    → Suits kind session_mem image c
    → is_ready kind session_mem image c ≡ true
unfolding is_ready
Suits-is_ready kind session_mem none c h =
    let a = h.accepts in let s = h.serves in let l = h.slot in let m = h.memory in ground arith
Suits-is_ready kind session_mem (some j) c h =
    let a = h.accepts in
    let s = h.serves in
    let l = h.slot in
    let m = h.memory in
    elim (Bool-cases (str_eq kind "microvm")) [
      | inr e ↦ rw (e, a) (ground arith)
      | inl e ↦
          let i : mem j c.images ≡ true = h.has_image j refl ((eq_iff kind "microvm").0 e) in
          rw (e, a, i) (ground arith)
    ]

key_le-NoBetter :
    (c d : Candidate)
    → c.used_mem ≤ c.memory_mb
    → d.used_mem ≤ d.memory_mb
    → key_le c d ≡ true
    → NoBetter c d
unfolding key_le
key_le-NoBetter c d m n h = grind arith

below-NoBetter :
    (kind : String) (session_mem : ℕ) (image : Option String) (c : Candidate) (cs : List Candidate)
    → Suits kind session_mem image c
    → All (λ d. (not (is_ready kind session_mem image d) || key_le c d) ≡ true) cs
    → All (λ d. Suits kind session_mem image d → NoBetter c d) cs
below-NoBetter kind session_mem image c [] s h = tt
below-NoBetter kind session_mem image c (d ∷ cs) s (h, k) = (
  (λ t.
      let r = Suits-is_ready kind session_mem image d t in
      let m = s.memory in
      let n = t.memory in key_le-NoBetter c d (ground arith) (ground arith) (rw r at h)),
  below-NoBetter kind session_mem image c cs s k,
)

all_unfit :
    (kind : String) (session_mem : ℕ) (image : Option String) (cs : List Candidate)
    → All (λ d. is_ready kind session_mem image d ≡ false) cs
    → All (λ d. ¬ Suits kind session_mem image d) cs
all_unfit kind session_mem image [] h = tt
all_unfit kind session_mem image (d ∷ cs) (h, k) = (
  (λ t. cc (h, Suits-is_ready kind session_mem image d t)),
  all_unfit kind session_mem image cs k,
)

-- None is chosen, and then no candidate suits the session; or a candidate of the list is chosen
-- that suits it, and no candidate that suits is better than it. `Suits` and `NoBetter` are stated
-- apart from the code's guards and sort key.
pub choose-best :
    (cs : List Candidate) (kind : String) (session_mem : ℕ) (image : Option String)
    → ((choose cs kind session_mem image ≡ none) × All (λ d. ¬ Suits kind session_mem image d) cs)
      ⊎ ((c : Candidate) × (choose cs kind session_mem image ≡ some c)
          × In c cs
          × Suits kind session_mem image c
          × All (λ d. Suits kind session_mem image d → NoBetter c d) cs)
unfolding choose
choose-best cs kind session_mem image =
    let ready = is_ready kind session_mem image in
    elim (head-Least (sort (keep ready cs)) (keep ready cs) (sort-Least (keep ready cs))) [
      | inl (e, n) ↦ inl (e, all_unfit kind session_mem image cs (none_kept ready cs n))
      | inr (c, e, i, k) ↦
          let (j, r) = keep-In ready c cs i in
          let s = is_ready-Suits kind session_mem image c r in
          inr (
            c,
            e,
            j,
            s,
            below-NoBetter kind session_mem image c cs s (unkept ready (key_le c) cs k),
          )
    ]
