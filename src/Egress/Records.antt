-- ===== src/Egress/Records.antt =====
-- A ClientHello that is cut into TLS records (_handshake_bytes of
-- src/apipi/worker/egress/sni.py).
use apipi.Base.{
  ℕ, zero, suc, ◌+◌, ◌/◌, ◌%◌, ◌*◌, ◌≤◌, ◌<◌, ◌≡◌, refl, sym, ap, ◌∙◌, true, false, List, [], ◌∷◌,
  ◌++◌, append-nil, append_assoc, Option, none, some, ltb, leb, if◌then◌else◌, length,
  length-append, take, All, ok, bind, arith, Bool-cases, inl, inr, subst,
}
use apipi.Egress.Bytes.{Bytes, byte_at, slice, int_of, take-length, drop-length}
use apipi.Egress.Hello.{
  max_hello_bytes, is_whole, needed, record_error, content, behind, gather, handshake_bytes,
}

-- A fragment of a handshake in a record of its own, and a run of them.
abbrev pub record_of : Bytes → Bytes
record_of f = 22 ∷ 3 ∷ 1 ∷ length f / 256 ∷ length f % 256 ∷ f

abbrev pub records : List Bytes → Bytes
records [] = []
records (f ∷ fs) = record_of f ++ records fs

abbrev pub joined : List Bytes → Bytes
joined [] = []
joined (f ∷ fs) = f ++ joined fs

-- One ClientHello message, its length as its header says.
pub record Message (msg : Bytes) : Type 0 where
  pub hello : byte_at msg 0 ≡ 1
  pub header : 4 ≤ length msg
  pub size : length msg ≡ 4 + int_of (slice 1 4 msg)
  pub small : length msg ≤ max_hello_bytes

-- What the loop needs to know once it has some of the message.
abbrev need_of : Bytes → Bytes → Option ℕ
need_of msg body = if ltb (length body) 4 then none else some (length msg)

take-all : (xs : Bytes) → take (length xs) xs ≡ xs
take-all xs = ap (take (length xs)) (sym (append-nil xs)) ∙ take-length xs []

needed-header :
    (msg body rest : Bytes)
    → Message msg
    → body ++ rest ≡ msg
    → needed none body ≡ ok (need_of msg body)
unfolding needed
needed-header msg [] rest m e = refl
needed-header msg (a ∷ []) rest m e = refl
needed-header msg (a ∷ b ∷ []) rest m e = refl
needed-header msg (a ∷ b ∷ c ∷ []) rest m e = refl
needed-header msg (a ∷ b ∷ c ∷ d ∷ body) rest m e =
    let first : a ≡ 1 = ap (λ bs. byte_at bs 0) e ∙ m.hello in
    let n : length msg ≡ 4 + int_of (b ∷ c ∷ d ∷ []) =
      m.size ∙ ap (λ bs. 4 + int_of (slice 1 4 bs)) (sym e) in
    let small : 4 + int_of (b ∷ c ∷ d ∷ []) ≤ max_hello_bytes = omega (arith, m.small) in
    rw (n, first) (ground (arith, small))

needed-need_of :
    (msg body f rest : Bytes)
    → Message msg
    → body ++ (f ++ rest) ≡ msg
    → needed (need_of msg body) (body ++ f) ≡ ok (need_of msg (body ++ f))
needed-need_of msg body f rest m e = elim (Bool-cases (ltb (length body) 4)) [
  | inl s ↦ rw s (needed-header msg (body ++ f) rest m (append_assoc body f rest ∙ e))
  | inr s ↦
      let s' : ltb (length (body ++ f)) 4 ≡ false = ground (arith, length-append body f) in
      rw (s, s') (unfold needed in refl)
]

whole_record :
    (f more : Bytes)
    → 0 < length f
    → (record_error (record_of f ++ more) ≡ none)
      × (content (record_of f ++ more) ≡ f)
      × (behind (record_of f ++ more) ≡ more)
unfolding record_error content behind
whole_record f more pos =
    let size : (0 + length f / 256) * 256 + length f % 256 ≡ length f = omega arith in
    rw size (ground (arith, pos, length-append f more), take-length f more, drop-length f more)

gather-record :
    (n : ℕ) (f more body : Bytes) (need : Option ℕ)
    → is_whole need body ≡ false
    → 0 < length f
    → gather (suc n) (record_of f ++ more) body need
      ≡ bind (needed need (body ++ f)) (gather n more (body ++ f))
unfolding gather
gather-record n f more body need w pos =
    let (fine, same, rest) = whole_record f more pos in rw (w, fine, same, rest, gather) refl

not_whole :
    (msg body f rest : Bytes)
    → body ++ (f ++ rest) ≡ msg
    → 0 < length f
    → is_whole (need_of msg body) body ≡ false
not_whole msg body f rest e pos = elim (Bool-cases (ltb (length body) 4)) [
  | inl s ↦ rw s refl
  | inr s ↦
      let more : length body < length msg =
        omega (arith, ap length e, length-append body (f ++ rest), length-append f rest) in
      rw s (ground arith)
]

gather-records :
    (n : ℕ) (fs : List Bytes) (tail msg body : Bytes)
    → Message msg
    → length fs < n
    → All (λ f. 0 < length f) fs
    → body ++ joined fs ≡ msg
    → gather n (records fs ++ tail) body (need_of msg body) ≡ ok msg
gather-records zero fs tail msg body m room pos e = absurd (omega arith)
gather-records (suc n) [] tail msg body m room pos e =
    let same : body ≡ msg = sym (append-nil body) ∙ e in
    let long : ltb (length msg) 4 ≡ false = ground (arith, m.header) in
    let done : leb (length msg) (length msg) ≡ true = ground arith in
    subst (λ b. gather (suc n) tail b (need_of msg b) ≡ ok msg) (sym same)
      (unfold gather in rw (long, done) (ap ok (take-all msg)))
gather-records (suc n) (f ∷ fs) tail msg body m room pos e =
    let next = append_assoc body f (joined fs) ∙ e in
    rw (append_assoc (record_of f) (records fs) tail) (
      gather-record n f (records fs ++ tail) body (need_of msg body)
        (not_whole msg body f (joined fs) e pos.0) pos.0
      ∙ ap (λ r. bind r (gather n (records fs ++ tail) (body ++ f)))
          (needed-need_of msg body f (joined fs) m e)
      ∙ gather-records n fs tail msg (body ++ f) m (omega arith) pos.1 next)

length-records : (fs : List Bytes) → length fs ≤ length (records fs)
length-records [] = omega arith
length-records (f ∷ fs) = omega (arith, length-append f (records fs), length-records fs)

-- A ClientHello message of at most 65536 bytes, its header included, that is cut into records none of
-- which is empty, and whatever follows it: the bytes gathered from the records are the message.
pub handshake_bytes-records :
    (fs : List Bytes) (tail msg : Bytes)
    → Message msg
    → All (λ f. 0 < length f) fs
    → joined fs ≡ msg
    → handshake_bytes (records fs ++ tail) ≡ ok msg
unfolding handshake_bytes
handshake_bytes-records [] tail msg m pos e = absurd (omega (arith, m.header, ap length e))
handshake_bytes-records (f ∷ fs) tail msg m pos e =
    gather-records (suc (length (records (f ∷ fs) ++ tail))) (f ∷ fs) tail msg [] m
      (omega (arith, length-append (records (f ∷ fs)) tail, length-records (f ∷ fs))) pos e
