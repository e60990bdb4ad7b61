-- ===== src/Storage/Identifiers.antt =====
-- The identifiers of documents that server/src/storage/documents.rs makes from others and from URLs.
use csaf_trove.Base.{ℕ, ◌+◌, Bool, ◌&&◌, ◌||◌, [], ◌∷◌, ◌==◌, leb, ltb, if◌then◌else◌}
use csaf_trove.Base.Text.{Text, starts_with}
use csaf_trove.Validation.Documents.{id_of_url}

abbrev is_allowed : ℕ → Bool
is_allowed c = leb 97 c && leb c 122 || (leb 48 c && leb c 57 || (c == 43 || c == 45))

-- `to_lowercase` of an ASCII character, and what stands for it.
abbrev lossy_ascii : ℕ → ℕ
lossy_ascii c = if leb 65 c && leb c 90 then c + 32 else if is_allowed c then c else 95

-- A character beyond ASCII begins with a byte from 192 on, and the bytes that follow in it are below.
-- Two of them have ASCII letters in lower case: U+0130 becomes `i` with a dot, and U+212A `k`.
abbrev lossy_wide : ℕ → Text → Text → Text
lossy_wide c s rest =
    if starts_with (c ∷ s) (196 ∷ 176 ∷ [])
    then 105 ∷ 95 ∷ rest
    else if starts_with (c ∷ s) (226 ∷ 132 ∷ 170 ∷ [])
    then 107 ∷ rest
    else if leb 192 c
    then 95 ∷ rest
    else rest

unfoldable pub lossy_tracking_id : Text → Text
unfolding starts_with
lossy_tracking_id [] = []
lossy_tracking_id (c ∷ s) =
    let rest = lossy_tracking_id s in
    if ltb c 128 then lossy_ascii c ∷ rest else lossy_wide c s rest

unfoldable pub tracking_id_from_url : Text → Text
unfolding id_of_url
tracking_id_from_url url = id_of_url url
