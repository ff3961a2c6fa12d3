-- ===== src/Download/Disposition.antt =====
-- content_disposition of src/apipi/store/disposition.py. A text is the list of its code points;
-- Python's whitespace and urllib's `quote` are arguments.
use apipi.Base.{
  ℕ, Bool, true, false, not, ◌&&◌, ◌||◌, List, [], ◌∷◌, ◌++◌, map, keep, any, ltb, leb, ◌==◌,
  if◌then◌else◌, is_empty,
}

abbrev pub Text : Type 0
Text = List ℕ

abbrev pub slash : ℕ
slash = 47

abbrev pub backslash : ℕ
backslash = 92

abbrev pub quote_mark : ℕ
quote_mark = 34

abbrev pub same_text : Text → Text → Bool
same_text [] [] = true
same_text [] (d ∷ ds) = false
same_text (c ∷ cs) [] = false
same_text (c ∷ cs) (d ∷ ds) = c == d && same_text cs ds

-- "download"
abbrev pub download : Text
download = 100 ∷ 111 ∷ 119 ∷ 110 ∷ 108 ∷ 111 ∷ 97 ∷ 100 ∷ []

-- Empty, "." or ".."
unfoldable pub is_blank : Text → Bool
is_blank t = is_empty t || (same_text t (46 ∷ []) || same_text t (46 ∷ 46 ∷ []))

unfoldable pub or_download : Text → Text
or_download t = if is_blank t then download else t

abbrev pub has_slash : Text → Bool
has_slash t = any (λ c. c == slash) t

-- `name.rsplit("/", 1)[-1]`
unfoldable pub last_part : Text → Text
last_part [] = []
last_part (c ∷ cs) = let rest = last_part cs in if has_slash (c ∷ cs) then rest else c ∷ cs

abbrev pub to_slash : ℕ → ℕ
to_slash c = if c == backslash then slash else c

-- `ch >= " " and ch != "\x7f" and ch not in {'"', "\\"}`
unfoldable pub is_kept : ℕ → Bool
is_kept c = leb 32 c && (not (c == 127) && (not (c == quote_mark) && not (c == backslash)))

abbrev pub to_ascii : ℕ → ℕ
to_ascii c = if ltb c 127 then c else 95

abbrev pub trim_left : Bool → Text → Text → Text
trim_left true t rest = rest
trim_left false t rest = t

abbrev pub trim_right : Bool → ℕ → Text → Text
trim_right true c rest = []
trim_right false c rest = c ∷ rest

-- `attachment; filename="` and `; filename*=UTF-8''`
abbrev pub opening : Text
opening =
    97 ∷ 116 ∷ 116 ∷ 97 ∷ 99 ∷ 104 ∷ 109 ∷ 101 ∷ 110 ∷ 116 ∷ 59 ∷ 32 ∷ 102 ∷ 105 ∷ 108 ∷ 101 ∷ 110
    ∷ 97 ∷ 109 ∷ 101 ∷ 61 ∷ 34 ∷ []

abbrev pub extended : Text
extended =
    59 ∷ 32 ∷ 102 ∷ 105 ∷ 108 ∷ 101 ∷ 110 ∷ 97 ∷ 109 ∷ 101 ∷ 42 ∷ 61 ∷ 85 ∷ 84 ∷ 70 ∷ 45 ∷ 56 ∷ 39
    ∷ 39 ∷ []

module _ (is_space : ℕ → Bool) where
  unfoldable pub lstrip : Text → Text
  lstrip [] = []
  lstrip (c ∷ cs) = trim_left (is_space c) (c ∷ cs) (lstrip cs)

  unfoldable pub rstrip : Text → Text
  rstrip [] = []
  rstrip (c ∷ cs) = let rest = rstrip cs in trim_right (is_space c && is_empty rest) c rest

  abbrev pub strip : Text → Text
  strip t = rstrip (lstrip t)

  -- _basename
  unfoldable pub basename : Text → Text
  basename name = or_download (strip (keep is_kept (last_part (map to_slash name))))

  -- _ascii_name
  unfoldable pub ascii_name : Text → Text
  ascii_name name = or_download (strip (map to_ascii name))

  module _ (quote : Text → Text) where
    unfoldable pub content_disposition : Text → Text
    content_disposition name =
        let cleaned = basename name in
        let header = opening ++ ascii_name cleaned ++ quote_mark ∷ [] in
        if any (λ c. ltb 127 c) cleaned then header ++ extended ++ quote cleaned else header
