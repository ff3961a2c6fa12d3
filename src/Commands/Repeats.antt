-- ===== src/Commands/Repeats.antt =====
-- When a command id is dispatched again (CommandDedupe of src/apipi/worker/commands.py under the
-- receive loop of src/apipi/worker/client.py).
use apipi.Base.{
  ℕ, suc, ◌+◌, ◌-◌, ◌≤◌, ◌<◌, ◌≡◌, refl, Bool, true, false, List, [], ◌∷◌, ◌++◌, any, drop, ◌==◌,
  ==_eq, ==_refl, if◌then◌else◌, length, ap, ◌∙◌, append_assoc, zero, length-append, arith,
  Bool-cases, inl, inr, ◌&&◌, sym, Option-cases,
}
use apipi.Base.Dict
use apipi.Base.Dict.{Dict}
use apipi.Commands.Dedupe.{
  CommandDedupe, known, mem, remember, duplicate, without_first, discard, forget, Step, arrives,
  fails, forgets, step, dispatched, told, arrival, arrivals, undoes,
}

-- `c` stands among the last `k + 1` ids.
abbrev Recent : ℕ → ℕ → List ℕ → Type 0
Recent c k ids = (pre post : List ℕ) × (ids ≡ pre ++ c ∷ post) × (length post ≤ k)

mem-middle : (c : ℕ) (pre post : List ℕ) → mem c (pre ++ c ∷ post) ≡ true
mem-middle c [] post = rw (==_refl c)
mem-middle c (x ∷ pre) post = ground (arith, mem-middle c pre post)

drop-prefix : (n : ℕ) (xs ys : List ℕ) → n ≤ length xs → drop n (xs ++ ys) ≡ drop n xs ++ ys
drop-prefix zero xs ys h = refl
drop-prefix (suc n) [] ys h = absurd (omega arith)
drop-prefix (suc n) (x ∷ xs) ys h = drop-prefix n xs ys (omega arith)

-- One more id pushes a recent one back by one place.
remember-Recent :
    (limit c k x : ℕ) (ids : List ℕ)
    → k + 1 < limit
    → Recent c k ids
    → Recent c (k + 1) (remember limit ids x)
unfolding remember
remember-Recent limit c k x ids room (pre, post, e, h) =
    let whole : ids ++ x ∷ [] ≡ pre ++ (c ∷ (post ++ x ∷ [])) =
      ap (λ l. l ++ x ∷ []) e ∙ append_assoc pre (c ∷ post) (x ∷ []) in
    let n = length (ids ++ x ∷ []) - limit in
    let small : n ≤ length pre = omega (
      arith,
      ap length whole,
      length-append pre (c ∷ (post ++ x ∷ [])),
      length-append post (x ∷ []),
    ) in
    (
      drop n pre,
      post ++ x ∷ [],
      ap (drop n) whole ∙ drop-prefix n pre (c ∷ (post ++ x ∷ [])) small,
      omega (arith, length-append post (x ∷ [])),
    )

known-put :
    (d : CommandDedupe) (s : ℕ) (ids : List ℕ)
    → known (record d { seen = Dict.put d.seen s ids }) s ≡ ids
unfolding known
known-put d s ids = rw (Dict.get-put d.seen s s ids, ==_refl s) refl

duplicate-Recent :
    (d : CommandDedupe) (s c k x : ℕ)
    → k + 1 < d.limit
    → Recent c k (known d s)
    → Recent c (k + 1) (known (duplicate d s x).0 s)
unfolding duplicate
duplicate-Recent d s c k x room r = elim (Bool-cases (mem x (known d s))) [
  | inl m ↦ rw m (rw (known-put d s (known d s)) (r.0, r.1, r.2, omega (arith, r.3)))
  | inr m ↦ rw m (
      rw (known-put d s (remember d.limit (known d s) x))
        (remember-Recent d.limit c k x (known d s) room r))
]

limit-duplicate : (d : CommandDedupe) (s c : ℕ) → (duplicate d s c).0.limit ≡ d.limit
unfolding duplicate
limit-duplicate d s c = ground arith

-- A known id is a duplicate.
duplicate-mem :
    (d : CommandDedupe) (s c : ℕ) → mem c (known d s) ≡ true → (duplicate d s c).1 ≡ true
unfolding duplicate
duplicate-mem d s c h = rw h

seen_again : (d : CommandDedupe) (s c k : ℕ) → Recent c k (known d s) → (duplicate d s c).1 ≡ true
seen_again d s c k (pre, post, e, h) = duplicate-mem d s c (rw e (mem-middle c pre post))

known-put_other :
    (d : CommandDedupe) (s t : ℕ) (ids : List ℕ)
    → (t == s) ≡ false
    → known (record d { seen = Dict.put d.seen t ids }) s ≡ known d s
unfolding known
known-put_other d s t ids h = rw (Dict.get-put d.seen t s ids, h) refl

known-duplicate_other :
    (d : CommandDedupe) (s t x : ℕ) → (t == s) ≡ false → known (duplicate d t x).0 s ≡ known d s
unfolding duplicate
known-duplicate_other d s t x h = elim (Bool-cases (mem x (known d t))) [
  | inl m ↦ rw m (known-put_other d s t (known d t) h)
  | inr m ↦ rw m (known-put_other d s t (remember d.limit (known d t) x) h)
]

known-forget_other :
    (d : CommandDedupe) (s t : ℕ) → (t == s) ≡ false → known (forget d t) s ≡ known d s
unfolding known forget
known-forget_other d s t h = rw (Dict.get_or-remove d.seen t s [], h) refl

-- Taking out another id leaves a recent one recent.
without_first-Recent :
    (x c k : ℕ) (pre post : List ℕ)
    → (x == c) ≡ false
    → length post ≤ k
    → Recent c k (without_first x (pre ++ c ∷ post))
unfolding without_first
without_first-Recent x c k [] post h l =
    let n : (c == x) ≡ false = ground arith in
    rw n ([], without_first x post, refl, omega (arith, l, length-without_first x post))
  where
    length-without_first : (x : ℕ) (ids : List ℕ) → length (without_first x ids) ≤ length ids
    length-without_first x [] = omega arith
    length-without_first x (y ∷ ids) = ground (arith, length-without_first x ids)
without_first-Recent x c k (y ∷ pre) post h l = elim (Bool-cases (y == x)) [
  | inl e ↦ rw e (pre, post, refl, l)
  | inr e ↦
      let (pre', post', q, m) = without_first-Recent x c k pre post h l in
      rw e (y ∷ pre', post', ap (λ ids. y ∷ ids) q, m)
]

discard-Recent :
    (d : CommandDedupe) (s t c x k : ℕ)
    → (t == s && x == c) ≡ false
    → Recent c k (known d s)
    → Recent c k (known (discard d t x) s)
unfolding discard
discard-Recent d s t c x k h r = elim (Option-cases (Dict.get d.seen t)) [
  | inl g ↦ rw (g, discard) r
  | inr (ids, g) ↦ elim (Bool-cases (t == s)) [
    | inr n ↦ rw (g, discard) (rw (known-put_other d s t (without_first x ids) n) r)
    | inl e ↦
        let other : (x == c) ≡ false = ground arith in
        let same : known d s ≡ ids = unfold known in rw (← (==_eq t s e), g) refl in
        let (pre, post, q, l) = r in
        rw (g, discard)
          (rw (==_eq t s e, known-put d s (without_first x ids))
            (rw (sym same, q) (without_first-Recent x c k pre post other l)))
  ]
]

wider : (c k m : ℕ) (ids : List ℕ) → k ≤ m → Recent c k ids → Recent c m ids
wider c k m ids h (pre, post, e, l) = (pre, post, e, omega arith)

-- One step keeps a recent id recent and does not dispatch it.
step-Recent :
    (d : CommandDedupe) (s c k : ℕ) (o : Step)
    → arrival s o + k < d.limit
    → undoes s c o ≡ false
    → Recent c k (known d s)
    → Recent c (arrival s o + k) (known (step d o).0 s)
      × (told s c (step d o).1 ≡ false)
      × ((step d o).0.limit ≡ d.limit)
unfolding step
step-Recent d s c k (fails t x) room h r = (
  wider c k (0 + k) _ (omega arith) (discard-Recent d s t c x k h r),
  refl,
  unfold discard in ground arith,
)
step-Recent d s c k (forgets t) room h r = (
  wider c k (0 + k) _ (omega arith) (rw (known-forget_other d s t h) r),
  refl,
  unfold forget in refl,
)
step-Recent d s c k (arrives t x) room h r = elim (Bool-cases (t == s)) [
  | inr n ↦ rw n (
    wider c k (0 + k) _ (omega arith) (rw (known-duplicate_other d s t x n) r),
    (elim (Bool-cases (duplicate d t x).1) [ inl q ↦ rw q refl | inr q ↦ rw (q, n) refl ]),
    limit-duplicate d t x,
  )
  | inl e ↦
      let t_is = ==_eq t s e in
      rw e (
        rw t_is (wider c (k + 1) (1 + k) _ (omega arith) (duplicate-Recent d s c k x (wide e) r)),
        untold t x e,
        limit-duplicate d t x,
      )
]
  where
    wide : (t == s) ≡ true → k + 1 < d.limit
    wide e = let less : 1 + k < d.limit = rw e at room in omega arith

    untold :
        (t x : ℕ)
        → (t == s) ≡ true
        → told s c (if (duplicate d t x).1 then [] else (t, x) ∷ []) ≡ false
    untold t x e = elim (Bool-cases (duplicate d t x).1) [
      | inl q ↦ rw q refl
      | inr q ↦ elim (Bool-cases (x == c)) [
        | inr n ↦ rw (q, n, e) refl
        | inl y ↦
            let again : (duplicate d t x).1 ≡ true =
              rw (==_eq t s e, ==_eq x c y) (seen_again d s c k r) in
            cc (again, q)
      ]
    ]

told-append :
    (s c : ℕ) (xs ys : List (ℕ × ℕ))
    → told s c (xs ++ ys) ≡ (if told s c xs then true else told s c ys)
told-append s c [] ys = refl
told-append s c (x ∷ xs) ys = ground (arith, told-append s c xs ys)

dispatched-Recent :
    (d : CommandDedupe) (s c k : ℕ) (os : List Step)
    → arrivals s os + k < d.limit
    → any (undoes s c) os ≡ false
    → Recent c k (known d s)
    → told s c (dispatched d os) ≡ false
unfolding dispatched
dispatched-Recent d s c k [] room h r = refl
dispatched-Recent d s c k (o ∷ os) room h r =
    let (h₀, h₁) = neither (undoes s c o) (any (undoes s c) os) h in
    let (r', out, l) = step-Recent d s c k o (omega arith) h₀ r in
    let rest = dispatched-Recent (step d o).0 s c (arrival s o + k) os (omega (arith, l)) h₁ r' in
    rw (told-append s c (step d o).1 (dispatched (step d o).0 os), out) rest
  where
    neither : (x y : Bool) → (if x then true else y) ≡ false → (x ≡ false) × (y ≡ false)
    neither x y h = (ground arith, ground arith)

-- What a frame leaves behind: its id is the newest, or was known before.
duplicate-first :
    (d : CommandDedupe) (s c : ℕ)
    → 0 < d.limit
    → (duplicate d s c).1 ≡ false
    → Recent c 0 (known (duplicate d s c).0 s)
unfolding duplicate remember
duplicate-first d s c pos h = elim (Bool-cases (mem c (known d s))) [
  | inl m ↦ cc (rw m at h)
  | inr m ↦
      let ids = known d s in
      let n = length (ids ++ c ∷ []) - d.limit in
      rw m (
        rw (known-put d s (drop n (ids ++ c ∷ []))) (
          drop n ids,
          [],
          drop-prefix n ids (c ∷ []) (omega (arith, length-append ids (c ∷ []))),
          omega arith,
        ))
]

-- A command id of a session that was just dispatched is not dispatched again by the steps that
-- follow, at whatever session they are, as long as fewer commands of its session arrive than the
-- limit, and the id is not discarded after a failed dispatch nor the session forgotten.
pub dispatched_once :
    (d : CommandDedupe) (s c : ℕ) (os : List Step)
    → (duplicate d s c).1 ≡ false
    → arrivals s os < d.limit
    → any (undoes s c) os ≡ false
    → told s c (dispatched (duplicate d s c).0 os) ≡ false
dispatched_once d s c os h room kept =
    dispatched-Recent (duplicate d s c).0 s c 0 os (omega (arith, limit-duplicate d s c)) kept
      (duplicate-first d s c (omega arith) h)
