-- ===== src/Reference/Spelling.antt =====
-- What a parsed image reference says of the name.
use kubernetes_images_sync_o.Base.{
  ◌≡◌, ◌≢◌, refl, sym, ap, subst, ◌∙◌, inl, inr, Bool-cases, List, [], ◌∷◌, ◌++◌, ◌⊎◌, none, some,
  arith, All, All-of_append, append-nil, Option, append_assoc,
}
use kubernetes_images_sync_o.Errors.{ok, >>=-eq-ok}
use kubernetes_images_sync_o.Text.{Text, codes, text_eq, split, split_first, join}
use kubernetes_images_sync_o.Text.Laws.{text_eq_iff}
use kubernetes_images_sync_o.Text.Splits.{Lacks, split_first_lem, join-split, Lacks-split, tail_of}
use kubernetes_images_sync_o.Containers.{Container}
use kubernetes_images_sync_o.Reference.{
  image_and_tag, check_sha, check_sha_parts, complete, parse_parts, parse_reference, or_empty,
}
use kubernetes_images_sync_o.Reference.RoundTrip.{
  digest_part, print, IsDigest, IsReference, reference, complete_lem,
}

complete_inv :
    (name image : Text) (written : Option Text) (sha : Text) (c : Container)
    → complete name (image, or_empty written) sha ≡ ok c
    → (image ≢ []) × (c ≡ record (reference image written sha) { full_name = name })
complete_inv name [] written sha c h = unfold complete text_eq in cc
complete_inv name (b ∷ image) written sha c h =
    ((λ e. cc), cc (complete_lem name (b ∷ image) written sha (λ e. cc)))

check_sha_parts_inv :
    (part algorithm sha : Text) (rest : Option Text)
    → check_sha_parts part (algorithm, rest) ≡ ok sha
    → (sha ≡ part)
      × ((digest : Text) × (rest ≡ some digest))
      × ((algorithm ≡ codes "sha") ⊎ (algorithm ≡ codes "sha256"))
unfolding check_sha_parts
check_sha_parts_inv part algorithm sha none h = cc
check_sha_parts_inv part algorithm sha (some digest) h =
    elim (Bool-cases (text_eq algorithm (codes "sha"))) [
      | inl e ↦ (ground arith, (digest, refl), inl ((text_eq_iff algorithm (codes "sha")).0 e))
      | inr n ↦ elim (Bool-cases (text_eq algorithm (codes "sha256"))) [
        | inl e ↦ (ground arith, (digest, refl), inr ((text_eq_iff algorithm (codes "sha256")).0 e))
        | inr m ↦ absurd (ground arith)
      ]
    ]

check_sha_inv : (part sha : Text) → check_sha part ≡ ok sha → (sha ≡ part) × IsDigest part
unfolding check_sha
check_sha_inv part sha h =
    let (algorithm, rest) = split_first b':' part in
    let (same, (digest, behind), algo) = check_sha_parts_inv part algorithm sha rest h in
    let spelt : part ≡ algorithm ++ tail_of b':' (some digest) =
      (split_first_lem b':' part).0 ∙ ap (λ r. algorithm ++ tail_of b':' r) behind in
    (
      same,
      (
        digest,
        elim algo [
          | inl e ↦ inl (spelt ∙ ap (λ a. a ++ b':' ∷ digest) e)
          | inr e ↦ inr (spelt ∙ ap (λ a. a ++ b':' ∷ digest) e)
        ],
      ),
    )

Lacks-or_empty :
    (written : Option Text) → Lacks b'@' (tail_of b':' written) → Lacks b'@' (or_empty written)
Lacks-or_empty none h = tt
Lacks-or_empty (some tag) h = h.1

-- What a parsed container says of its name.
abbrev pub Spells : Text → Container → Type 0
Spells name c =
    (written : Option Text) × IsReference c.image written c.sha
    × (name ≡ print c.image written c.sha)
    × (c ≡ reference c.image written c.sha)

module _ (name part : Text) (no_at : Lacks b'@' part) (c : Container) where
  spells :
      (sha : Text)
      → (sha ≡ []) ⊎ IsDigest sha
      → Lacks b'@' sha
      → name ≡ part ++ digest_part sha
      → complete name (image_and_tag part) sha ≡ ok c
      → Spells name c
  unfolding image_and_tag
  spells sha digest sha_no_at spelt h =
      let (image, written) = split_first b':' part in
      let (front, no_colon) = split_first_lem b':' part in
      let (named, same) = complete_inv name image written sha c h in
      let (image_no_at, tail_no_at) =
        All-of_append _ image (tail_of b':' written) (subst (Lacks b'@') front no_at) in
      let whole : name ≡ print image written sha =
        spelt ∙ ap (λ p. p ++ digest_part sha) front ∙ append_assoc image _ _ in
      subst (Spells name)
        (sym (same ∙ ap (λ n. record (reference image written sha) { full_name = n }) whole))
        (
          written,
          record {
            named = named;
            image_no_colon = no_colon;
            image_no_at = image_no_at;
            tag_no_at = Lacks-or_empty written tail_no_at;
            sha_no_at = sha_no_at;
            sha_digest = digest;
          },
          whole,
          refl,
        )

digest_part_lem : (sha : Text) → IsDigest sha → digest_part sha ≡ b'@' ∷ sha
digest_part_lem sha (digest, inl e) = rw e
digest_part_lem sha (digest, inr e) = rw e

parse_parts_sound :
    (name : Text) (c : Container) (parts : List Text)
    → join (b'@' ∷ []) parts ≡ name
    → All (Lacks b'@') parts
    → parse_parts name parts ≡ ok c
    → Spells name c
unfolding parse_parts join
parse_parts_sound name c [] e no_at h = cc
parse_parts_sound name c (part ∷ []) e no_at h =
    spells name part no_at.0 c [] (inl refl) tt (sym e ∙ sym (append-nil part)) h
parse_parts_sound name c (part ∷ sha_part ∷ []) e no_at h =
    let (sha, checked, rest) =
      >>=-eq-ok (check_sha sha_part) (λ sha. complete name (image_and_tag part) sha) h in
    let (same, digest) = check_sha_inv sha_part sha checked in
    spells name part no_at.0 c sha (inr (subst IsDigest (sym same) digest))
      (subst (Lacks b'@') (sym same) no_at.1.0)
      (sym e
        ∙ ap (λ t. part ++ t) (sym (digest_part_lem sha_part digest) ∙ ap digest_part (sym same)))
      rest
parse_parts_sound name c (p ∷ q ∷ r ∷ parts) e no_at h = cc

-- A name that parses is printed from the parts of the container that it gives, and these are well
-- formed: the image is not empty and has neither a colon nor an `@`, tag and digest have no `@`, and the
-- digest, if there is one, begins with `sha:` or `sha256:`. The tag is the written one, or `latest` where
-- none is written, or an empty one, and there is no digest.
pub parse_reference_sound :
    (name : Text) (c : Container) → parse_reference name ≡ ok c → Spells name c
unfolding parse_reference
parse_reference_sound name c h =
    parse_parts_sound name c (split b'@' name) (join-split b'@' name) (Lacks-split b'@' name) h
