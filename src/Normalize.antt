-- ===== src/Normalize.antt =====
-- internal/shared/definitions.go: `NormalizeImageName`, which turns an image reference into a file
-- name. The two regular expressions are a character class and runs of hyphens.
pub mod Words
pub mod Laws
use kubernetes_images_sync_o.Base.{
  ℕ, Bool, ◌&&◌, true, false, [], ◌∷◌, List, ◌++◌, map, any, ◌==◌, if◌then◌else◌,
}
use kubernetes_images_sync_o.Text.{Text, codes}

abbrev pub hyphen : ℕ
hyphen = b'-'

-- The class of `imageNameRegexp`; `\s` is tab, line feed, form feed, carriage return and space.
abbrev pub special : Text
special = codes "/:@&=+$,?%{}[]\\^~#" ++ 9 ∷ 10 ∷ 12 ∷ 13 ∷ 32 ∷ []

unfoldable pub is_special : ℕ → Bool
unfolding any
is_special c = any (λ d. c == d) special

-- `imageNameRegexp.ReplaceAllString(name, "-")`
unfoldable pub replace_rune : ℕ → ℕ
replace_rune c = if is_special c then hyphen else c

unfoldable pub starts_with_hyphen : Text → Bool
starts_with_hyphen [] = false
starts_with_hyphen (c ∷ s) = c == hyphen

-- `imageNameRegexpReplace.ReplaceAllString(name, "-")`: of each run of hyphens the last one is left.
unfoldable pub collapse : Text → Text
collapse [] = []
collapse (c ∷ s) =
    let rest = collapse s in if c == hyphen && starts_with_hyphen s then rest else c ∷ rest

-- `strings.TrimLeft` and `strings.TrimRight` with the cutset "-"
unfoldable pub trim_left : Text → Text
trim_left [] = []
trim_left (c ∷ s) = let trimmed = trim_left s in if c == hyphen then trimmed else c ∷ s

abbrev pub is_empty : Text → Bool
is_empty [] = true
is_empty (c ∷ s) = false

unfoldable pub trim_right : Text → Text
trim_right [] = []
trim_right (c ∷ s) =
    let rest = trim_right s in if c == hyphen && is_empty rest then [] else c ∷ rest

unfoldable pub normalize_image_name : Text → Text
normalize_image_name name = trim_left (trim_right (collapse (map replace_rune name)))
