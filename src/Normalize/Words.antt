-- ===== src/Normalize/Words.antt =====
-- The words of a name: its longest pieces free of hyphens and of the characters that are replaced.
-- `NormalizeImageName` joins them by single hyphens.
use kubernetes_images_sync_o.Base.{
  ℕ, ◌≡◌, ◌≢◌, ◌⊎◌, refl, sym, ap, ◌∙◌, Bool, true, false, ◌||◌, inl, inr, Bool-cases, List, [],
  ◌∷◌, map, arith, ◌==◌, ==_iff, All, if◌then◌else◌,
}
use kubernetes_images_sync_o.Text.{Text, join}
use kubernetes_images_sync_o.Normalize.{
  hyphen, is_special, replace_rune, starts_with_hyphen, collapse, trim_left, trim_right, is_empty,
  normalize_image_name,
}

abbrev pub is_separator : ℕ → Bool
is_separator c = is_special c || c == hyphen

abbrev pub add_word : Text → List Text → List Text
add_word [] ws = ws
add_word (c ∷ w) ws = (c ∷ w) ∷ ws

-- The word at the front, which may be empty, and the later words.
unfoldable pub fields : Text → Text × List Text
fields [] = ([], [])
fields (c ∷ s) =
    let (w, ws) = fields s in if is_separator c then ([], add_word w ws) else (c ∷ w, ws)

unfoldable pub words : Text → List Text
unfolding fields
words s = let (w, ws) = fields s in add_word w ws

abbrev pub IsPlain : Text → Type 0
IsPlain = All (λ c. is_separator c ≡ false)

-- A word is not empty, and has no separator in it.
abbrev pub IsWord : Text → Type 0
IsWord w = (w ≢ []) × IsPlain w

abbrev joined : List Text → Text
joined = join (hyphen ∷ [])

add_word-IsWord :
    (w : Text) (ws : List Text) → IsPlain w → All IsWord ws → All IsWord (add_word w ws)
add_word-IsWord [] ws hw hs = hs
add_word-IsWord (c ∷ w) ws hw hs = (((λ e. cc), hw), hs)

fields-IsPlain : (s : Text) → let (w, ws) = fields s in IsPlain w × All IsWord ws
unfolding fields
fields-IsPlain [] = (tt, tt)
fields-IsPlain (c ∷ s) =
    let (w, ws) = fields s in
    let (hw, hs) = fields-IsPlain s in
    elim (Bool-cases (is_separator c)) [
      | inl e ↦ rw e (tt, add_word-IsWord w ws hw hs)
      | inr e ↦ rw e ((e, hw), hs)
    ]

pub words_plain : (s : Text) → All IsWord (words s)
unfolding words
words_plain s = let (hw, hs) = fields-IsPlain s in add_word-IsWord _ _ hw hs

replace_rune-separator : (c : ℕ) → (replace_rune c == hyphen) ≡ is_separator c
unfolding replace_rune
replace_rune-separator c = ground arith

module _ (c : ℕ) where
  separator_replaced : is_separator c ≡ true → replace_rune c ≡ hyphen
  separator_replaced e = (==_iff (replace_rune c) hyphen).0 (replace_rune-separator c ∙ e)

  plain_replaced : is_separator c ≡ false → replace_rune c ≡ c
  unfolding replace_rune
  plain_replaced e = ground arith

  plain-ne-hyphen : is_separator c ≡ false → (c == hyphen) ≡ false
  plain-ne-hyphen e = ground arith

  pub fields_at_separator :
      (s : Text) → is_separator c ≡ true → fields (c ∷ s) ≡ ([], add_word (fields s).0 (fields s).1)
  unfolding fields
  fields_at_separator s e = rw e

  pub fields_at_plain :
      (s : Text) → is_separator c ≡ false → fields (c ∷ s) ≡ (c ∷ (fields s).0, (fields s).1)
  unfolding fields
  fields_at_plain s e = rw e

  collapse_plain : (s : Text) → (c == hyphen) ≡ false → collapse (c ∷ s) ≡ c ∷ collapse s
  unfolding collapse
  collapse_plain s e = rw e

  trim_right_plain : (s : Text) → (c == hyphen) ≡ false → trim_right (c ∷ s) ≡ c ∷ trim_right s
  unfolding trim_right
  trim_right_plain s e = rw e

collapse-hyphen :
    (s : Text)
    → collapse (hyphen ∷ s) ≡ (if starts_with_hyphen s then collapse s else hyphen ∷ collapse s)
unfolding collapse
collapse-hyphen s = refl

-- A hyphen is kept in front of a text that is not trimmed away.
abbrev after_hyphen : Text → Text
after_hyphen t = if is_empty t then [] else hyphen ∷ t

trim_right-hyphen : (s : Text) → trim_right (hyphen ∷ s) ≡ after_hyphen (trim_right s)
unfolding trim_right
trim_right-hyphen s = refl

-- Where the replaced text begins with a hyphen, the front word is empty; else the text is empty or
-- that word is not.
front_word :
    (s : Text)
    → ((starts_with_hyphen (map replace_rune s) ≡ true) × ((fields s).0 ≡ []))
      ⊎ ((starts_with_hyphen (map replace_rune s) ≡ false)
          × ((fields s ≡ ([], [])) ⊎ ((fields s).0 ≢ [])))
unfolding fields starts_with_hyphen
front_word [] = inr (refl, inl refl)
front_word (c ∷ s) = elim (Bool-cases (is_separator c)) [
  | inl e ↦ inl (replace_rune-separator c ∙ e, rw e)
  | inr e ↦ inr (replace_rune-separator c ∙ e, inr (rw e (λ h. cc)))
]

abbrev shape : Text × List Text → Text
shape (w, ws) = joined (w ∷ ws)

shape-cons : (c : ℕ) (f : Text × List Text) → c ∷ shape f ≡ shape (c ∷ f.0, f.1)
unfolding join
shape-cons c (w, []) = refl
shape-cons c (w, v ∷ ws) = refl

shape_of_empty : (f : Text × List Text) → f.0 ≡ [] → shape f ≡ shape ([], add_word f.0 f.1)
shape_of_empty ([], ws) e = refl
shape_of_empty (c ∷ w, ws) e = cc

after_hyphen-shape :
    (f : Text × List Text)
    → (f ≡ ([], [])) ⊎ (f.0 ≢ [])
    → after_hyphen (shape f) ≡ shape ([], add_word f.0 f.1)
unfolding join
after_hyphen-shape ([], []) h = refl
after_hyphen-shape ([], v ∷ ws) (inl e) = cc (ap (λ (t : Text × List Text). t.1) e)
after_hyphen-shape ([], v ∷ ws) (inr n) = absurd (n refl)
after_hyphen-shape (c ∷ w, []) h = refl
after_hyphen-shape (c ∷ w, v ∷ ws) h = refl

trim_right-collapse : (s : Text) → trim_right (collapse (map replace_rune s)) ≡ shape (fields s)
trim_right-collapse [] = unfold trim_right collapse fields join in refl
trim_right-collapse (c ∷ s) =
    let m = map replace_rune s in
    elim (Bool-cases (is_separator c)) [
      | inr e ↦
          let ne = plain-ne-hyphen c e in
          ap (λ x. trim_right (collapse (x ∷ m))) (plain_replaced c e)
          ∙ ap trim_right (collapse_plain c m ne)
          ∙ trim_right_plain c (collapse m) ne
          ∙ ap (λ t. c ∷ t) (trim_right-collapse s)
          ∙ shape-cons c (fields s)
          ∙ ap shape (sym (fields_at_plain c s e))
      | inl e ↦
          let begin =
            ap (λ x. trim_right (collapse (x ∷ m))) (separator_replaced c e)
            ∙ ap trim_right (collapse-hyphen m) in
          let finish = ap shape (sym (fields_at_separator c s e)) in
          elim (front_word s) [
            | inl (more, empty) ↦
                begin
                ∙ ap (λ b. trim_right (if b then collapse m else hyphen ∷ collapse m)) more
                ∙ trim_right-collapse s
                ∙ shape_of_empty (fields s) empty
                ∙ finish
            | inr (last, next) ↦
                begin
                ∙ ap (λ b. trim_right (if b then collapse m else hyphen ∷ collapse m)) last
                ∙ trim_right-hyphen (collapse m)
                ∙ ap after_hyphen (trim_right-collapse s)
                ∙ after_hyphen-shape (fields s) next
                ∙ finish
          ]
    ]

trim_left-shape :
    (f : Text × List Text)
    → IsPlain f.0
    → All IsWord f.1
    → trim_left (shape f) ≡ joined (add_word f.0 f.1)
unfolding trim_left join
trim_left-shape ([], []) hw hs = refl
trim_left-shape ([], [] ∷ ws) hw hs = absurd (hs.0.0 refl)
trim_left-shape ([], (d ∷ v) ∷ []) hw hs = rw (plain-ne-hyphen d hs.0.1.0)
trim_left-shape ([], (d ∷ v) ∷ u ∷ ws) hw hs = rw (plain-ne-hyphen d hs.0.1.0)
trim_left-shape (c ∷ w, []) hw hs = rw (plain-ne-hyphen c hw.0)
trim_left-shape (c ∷ w, v ∷ ws) hw hs = rw (plain-ne-hyphen c hw.0)

-- The normalised name is the words of the name, joined by single hyphens.
pub normalize_image_name-eq-join-words :
    (name : Text) → normalize_image_name name ≡ join (hyphen ∷ []) (words name)
unfolding normalize_image_name words
normalize_image_name-eq-join-words name =
    let (hw, hs) = fields-IsPlain name in
    ap trim_left (trim_right-collapse name) ∙ trim_left-shape (fields name) hw hs
