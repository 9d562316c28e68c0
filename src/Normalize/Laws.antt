-- ===== src/Normalize/Laws.antt =====
-- Normalised names are safe as file names, and normalising again changes nothing.
use kubernetes_images_sync_o.Base.{
  ◌≡◌, ◌≢◌, refl, sym, ap, subst, ◌∙◌, true, false, ◌++◌, List, [], ◌∷◌, arith, All, All-append,
}
use kubernetes_images_sync_o.Text.{Text, join}
use kubernetes_images_sync_o.Normalize.{hyphen, is_special, normalize_image_name}
use kubernetes_images_sync_o.Normalize.Words.{
  is_separator, add_word, fields, words, IsPlain, IsWord, words_plain, fields_at_plain,
  fields_at_separator, normalize_image_name-eq-join-words,
}

fields_of_IsPlain : (w : Text) → IsPlain w → fields w ≡ (w, [])
fields_of_IsPlain [] h = unfold fields in refl
fields_of_IsPlain (c ∷ w) (hc, h) =
    fields_at_plain c w hc ∙ ap (λ (f : Text × List Text). (c ∷ f.0, f.1)) (fields_of_IsPlain w h)

hyphen_separates : is_separator hyphen ≡ true
unfolding is_special
hyphen_separates = refl

fields-append : (w t : Text) → IsPlain w → fields (w ++ hyphen ∷ t) ≡ (w, words t)
fields-append [] t h = unfold words in fields_at_separator hyphen t hyphen_separates
fields-append (c ∷ w) t (hc, h) =
    fields_at_plain c _ hc ∙ ap (λ (f : Text × List Text). (c ∷ f.0, f.1)) (fields-append w t h)

add_word_ne : (w : Text) (ws : List Text) → w ≢ [] → add_word w ws ≡ w ∷ ws
add_word_ne [] ws h = absurd (h refl)
add_word_ne (c ∷ w) ws h = refl

words-join : (ws : List Text) → All IsWord ws → words (join (hyphen ∷ []) ws) ≡ ws
unfolding join words
words-join [] h = refl
words-join (w ∷ []) ((named, plain), h) =
    ap (λ (f : Text × List Text). add_word f.0 f.1) (fields_of_IsPlain w plain)
    ∙ add_word_ne w [] named
words-join (w ∷ v ∷ ws) ((named, plain), h) =
    ap (λ (f : Text × List Text). add_word f.0 f.1)
      (fields-append w (join (hyphen ∷ []) (v ∷ ws)) plain)
    ∙ add_word_ne w _ named
    ∙ ap (λ vs. w ∷ vs) (words-join (v ∷ ws) h)

-- Normalising a second time changes nothing.
normalize_image_name_idem :
    (name : Text) → normalize_image_name (normalize_image_name name) ≡ normalize_image_name name
normalize_image_name_idem name =
    normalize_image_name-eq-join-words (normalize_image_name name)
    ∙ ap (λ t. join (hyphen ∷ []) (words t)) (normalize_image_name-eq-join-words name)
    ∙ ap (join (hyphen ∷ [])) (words-join (words name) (words_plain name))
    ∙ sym (normalize_image_name-eq-join-words name)

abbrev IsSafe : Text → Type 0
IsSafe = All (λ c. is_special c ≡ false)

IsSafe-of_IsPlain : (w : Text) → IsPlain w → IsSafe w
IsSafe-of_IsPlain [] h = tt
IsSafe-of_IsPlain (c ∷ w) (hc, h) = (ground arith, IsSafe-of_IsPlain w h)

hyphen_safe : is_special hyphen ≡ false
unfolding is_special
hyphen_safe = refl

IsSafe-join : (ws : List Text) → All IsWord ws → IsSafe (join (hyphen ∷ []) ws)
unfolding join
IsSafe-join [] h = tt
IsSafe-join (w ∷ []) h = IsSafe-of_IsPlain w h.0.1
IsSafe-join (w ∷ v ∷ ws) h =
    All-append _ w _ (IsSafe-of_IsPlain w h.0.1) (hyphen_safe, IsSafe-join (v ∷ ws) h.1)

-- No character of a normalised name is one of those that the regular expression replaces: there is
-- no slash, colon, or white space in it.
pub normalize_image_name-IsSafe :
    (name : Text) → All (λ c. is_special c ≡ false) (normalize_image_name name)
normalize_image_name-IsSafe name =
    subst IsSafe (sym (normalize_image_name-eq-join-words name))
      (IsSafe-join (words name) (words_plain name))
