-- ===== src/Download/Safe.antt =====
-- What may stand in the file name of a download (src/apipi/store/disposition.py).
use apipi.Base.{
  ℕ, ◌≡◌, ◌≤◌, ◌<◌, ◌≢◌, refl, Bool, true, false, ◌&&◌, [], ◌∷◌, ◌++◌, map, keep, any, ltb, ◌==◌,
  if◌then◌else◌, is_empty, All, Bool-cases, inl, inr, arith, append_assoc,
}
use apipi.Download.Disposition.{
  Text, slash, backslash, quote_mark, download, is_blank, or_download, has_slash, last_part,
  to_slash, is_kept, to_ascii, lstrip, rstrip, strip, basename, ascii_name, content_disposition,
  opening, extended,
}

-- Printable ASCII without the quote, the backslash and the slash.
abbrev pub SafeChar : ℕ → Type 0
SafeChar c = (32 ≤ c) × (c < 127) × (c ≢ quote_mark) × (c ≢ backslash) × (c ≢ slash)

-- The same without the bound above, before the name is made ASCII.
abbrev KeptChar : ℕ → Type 0
KeptChar c = (32 ≤ c) × (c ≢ quote_mark) × (c ≢ backslash) × (c ≢ slash)

module _ (is_space : ℕ → Bool) where
  lstrip-All : (P : ℕ → Type 0) (t : Text) → All P t → All P (lstrip is_space t)
  unfolding lstrip
  lstrip-All P [] h = h
  lstrip-All P (c ∷ cs) h = elim (Bool-cases (is_space c)) [
    | inl a ↦ rw a (lstrip-All P cs h.1)
    | inr a ↦ rw a h
  ]

  rstrip-All : (P : ℕ → Type 0) (t : Text) → All P t → All P (rstrip is_space t)
  unfolding rstrip
  rstrip-All P [] h = h
  rstrip-All P (c ∷ cs) h = elim (Bool-cases (is_space c && is_empty (rstrip is_space cs))) [
    | inl a ↦ rw a tt
    | inr a ↦ rw a (h.0, rstrip-All P cs h.1)
  ]

  strip-All : (P : ℕ → Type 0) (t : Text) → All P t → All P (strip is_space t)
  strip-All P t h = rstrip-All P (lstrip is_space t) (lstrip-All P t h)

or_download-All : (P : ℕ → Type 0) (t : Text) → All P download → All P t → All P (or_download t)
unfolding or_download
or_download-All P t d h = elim (Bool-cases (is_blank t)) [ inl a ↦ rw a d | inr a ↦ rw a h ]

or_download-blank : (t : Text) → is_blank (or_download t) ≡ false
unfolding or_download is_blank
or_download-blank t = elim (Bool-cases (is_blank t)) [
  | inl a ↦ rw (a, or_download) refl
  | inr a ↦ rw (a, or_download) a
]

has_slash-All : (t : Text) → has_slash t ≡ false → All (λ c. c ≢ slash) t
has_slash-All [] h = tt
has_slash-All (c ∷ cs) h = elim (Bool-cases (c == slash)) [
  | inl a ↦ cc (rw a at h)
  | inr a ↦ ((λ e. ground arith), has_slash-All cs (rw a at h))
]

last_part-slash : (t : Text) → All (λ c. c ≢ slash) (last_part t)
unfolding last_part
last_part-slash [] = tt
last_part-slash (c ∷ cs) = elim (Bool-cases (has_slash (c ∷ cs))) [
  | inl a ↦ rw a (last_part-slash cs)
  | inr a ↦ rw a (has_slash-All (c ∷ cs) a)
]

is_kept-KeptChar : (c : ℕ) → is_kept c ≡ true → c ≢ slash → KeptChar c
unfolding is_kept
is_kept-KeptChar c a h = (ground arith, (λ e. ground arith), (λ e. ground arith), h)

keep-KeptChar : (t : Text) → All (λ c. c ≢ slash) t → All KeptChar (keep is_kept t)
keep-KeptChar [] h = tt
keep-KeptChar (c ∷ cs) h = elim (Bool-cases (is_kept c)) [
  | inr a ↦ rw a (keep-KeptChar cs h.1)
  | inl a ↦ rw a (is_kept-KeptChar c a h.0, keep-KeptChar cs h.1)
]

to_ascii-SafeChar : (c : ℕ) → KeptChar c → SafeChar (to_ascii c)
to_ascii-SafeChar c h = elim (Bool-cases (ltb c 127)) [
  | inl a ↦ rw a (h.0, ground arith, h.1, h.2, h.3)
  | inr a ↦ rw a (omega arith, omega arith, omega arith, omega arith, omega arith)
]

map-SafeChar : (t : Text) → All KeptChar t → All SafeChar (map to_ascii t)
map-SafeChar [] h = tt
map-SafeChar (c ∷ cs) h = (to_ascii-SafeChar c h.0, map-SafeChar cs h.1)

letter-SafeChar : (c : ℕ) → 97 ≤ c → c < 127 → c ≢ backslash → SafeChar c
letter-SafeChar c a b n = (omega arith, b, omega arith, n, omega arith)

download-SafeChar : All SafeChar download
download-SafeChar = (
  letter-SafeChar 100 (omega arith) (omega arith) (omega arith),
  (
    letter-SafeChar 111 (omega arith) (omega arith) (omega arith),
    (
      letter-SafeChar 119 (omega arith) (omega arith) (omega arith),
      (
        letter-SafeChar 110 (omega arith) (omega arith) (omega arith),
        (
          letter-SafeChar 108 (omega arith) (omega arith) (omega arith),
          (
            letter-SafeChar 111 (omega arith) (omega arith) (omega arith),
            (
              letter-SafeChar 97 (omega arith) (omega arith) (omega arith),
              (letter-SafeChar 100 (omega arith) (omega arith) (omega arith), tt),
            ),
          ),
        ),
      ),
    ),
  ),
)

SafeChar-KeptChar : (t : Text) → All SafeChar t → All KeptChar t
SafeChar-KeptChar [] h = tt
SafeChar-KeptChar (c ∷ cs) (h, k) = ((h.0, h.2, h.3, h.4), SafeChar-KeptChar cs k)

-- The header of a download, whatever the name: between the quotes stands a name that is neither
-- empty nor "." or "..", and it has printable ASCII only, without a quote, a backslash or a slash.
-- Behind the quotes comes nothing, or the extended name, quoted.
pub content_disposition-safe :
    (is_space : ℕ → Bool) (quote : Text → Text) (name : Text)
    → let f = ascii_name is_space (basename is_space name) in
      All SafeChar f
      × (is_blank f ≡ false)
      × (content_disposition is_space quote name
          ≡ opening
            ++ f
            ++ quote_mark
              ∷ (if any (λ c. ltb 127 c) (basename is_space name)
                  then extended ++ quote (basename is_space name)
                  else []))
unfolding content_disposition basename ascii_name
content_disposition-safe is_space quote name =
    let parts = keep is_kept (last_part (map to_slash name)) in
    let kept : All KeptChar parts =
      keep-KeptChar (last_part (map to_slash name)) (last_part-slash (map to_slash name)) in
    let cleaned = basename is_space name in
    let base : All KeptChar cleaned =
      or_download-All KeptChar (strip is_space parts) (SafeChar-KeptChar download download-SafeChar)
        (strip-All is_space KeptChar parts kept) in
    let ascii : All SafeChar (ascii_name is_space cleaned) =
      or_download-All SafeChar (strip is_space (map to_ascii cleaned)) download-SafeChar
        (strip-All is_space SafeChar (map to_ascii cleaned) (map-SafeChar cleaned base)) in
    (
      ascii,
      or_download-blank (strip is_space (map to_ascii cleaned)),
      elim (Bool-cases (any (λ c. ltb 127 c) cleaned)) [
        | inr a ↦ rw a refl
        | inl a ↦
            let front = opening ++ ascii_name is_space cleaned in
            rw
              (
                a,
                append_assoc (front ++ quote_mark ∷ []) extended (quote cleaned),
                append_assoc front (quote_mark ∷ []) (extended ++ quote cleaned),
              )
              refl
      ],
    )
