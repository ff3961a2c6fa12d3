-- ===== src/Download/Tests.antt =====
-- The header of a download at concrete names.
use apipi.Base.{ℕ, Bool, ◌≡◌, refl, false, [], ◌∷◌, ◌++◌, any, ltb, ◌==◌, if◌then◌else◌, All}
use apipi.Download.Disposition.{
  Text, quote_mark, is_blank, opening, extended, basename, ascii_name, content_disposition,
  or_download, last_part, is_kept, lstrip, rstrip,
}
use apipi.Download.Safe.{SafeChar, content_disposition-safe}

abbrev is_space : ℕ → Bool
is_space c = c == 32

abbrev no_quote : Text → Text
no_quote t = t

-- A path with a quote and a letter outside ASCII: `a/"b é.txt `
abbrev name : Text
name = 97 ∷ 47 ∷ 34 ∷ 98 ∷ 32 ∷ 233 ∷ 46 ∷ 116 ∷ 120 ∷ 116 ∷ 32 ∷ []

names :
    (basename is_space name ≡ 98 ∷ 32 ∷ 233 ∷ 46 ∷ 116 ∷ 120 ∷ 116 ∷ [])
    × (ascii_name is_space (basename is_space name) ≡ 98 ∷ 32 ∷ 95 ∷ 46 ∷ 116 ∷ 120 ∷ 116 ∷ [])
unfolding basename ascii_name or_download is_blank last_part is_kept lstrip rstrip
names = (refl, refl)

content_disposition-safe_example :
    let f = ascii_name is_space (basename is_space name) in
    All SafeChar f
    × (is_blank f ≡ false)
    × (content_disposition is_space no_quote name
        ≡ opening
          ++ f
          ++ quote_mark
            ∷ (if any (λ c. ltb 127 c) (basename is_space name)
                then extended ++ no_quote (basename is_space name)
                else []))
content_disposition-safe_example = content_disposition-safe is_space no_quote name
