-- ===== src/Reference/RoundTrip.antt =====
-- Parsing an image reference undoes printing it.
use kubernetes_images_sync_o.Base.{
  ℕ, ◌≡◌, ◌≢◌, refl, sym, ap, ◌∙◌, inl, inr, [], ◌∷◌, ◌++◌, ◌⊎◌, none, some, arith, All-append,
  append-nil, Option, append_assoc,
}
use kubernetes_images_sync_o.Errors.{ok}
use kubernetes_images_sync_o.Text.{Text, codes, text_eq, split}
use kubernetes_images_sync_o.Text.Splits.{
  Lacks, split_of_Lacks, split-append, split_first_of_Lacks, split_first-append, tail_of,
}
use kubernetes_images_sync_o.Containers.{Container}
use kubernetes_images_sync_o.Reference.{
  image_and_tag, check_sha, complete, parse_parts, parse_reference, or_empty,
}

-- The part of a reference behind the image name: the tag as it is written, and the digest.
abbrev pub digest_part : Text → Text
digest_part [] = []
digest_part (c ∷ sha) = b'@' ∷ c ∷ sha

abbrev pub print : Text → Option Text → Text → Text
print image written sha = image ++ (tail_of b':' written ++ digest_part sha)

-- An image with no tag and no digest has the tag `latest`.
abbrev pub effective_tag : Option Text → Text → Text
effective_tag none [] = codes "latest"
effective_tag (some []) [] = codes "latest"
effective_tag written sha = or_empty written

-- `sha:…` or `sha256:…`
abbrev pub IsDigest : Text → Type 0
IsDigest sha =
    (digest : Text) × ((sha ≡ codes "sha:" ++ digest) ⊎ (sha ≡ codes "sha256:" ++ digest))

pub record IsReference (image : Text) (written : Option Text) (sha : Text) : Type 0 where
  pub named : image ≢ []
  pub image_no_colon : Lacks b':' image
  pub image_no_at : Lacks b'@' image
  pub tag_no_at : Lacks b'@' (or_empty written)
  pub sha_no_at : Lacks b'@' sha
  pub sha_digest : (sha ≡ []) ⊎ IsDigest sha

abbrev pub reference : Text → Option Text → Text → Container
reference image written sha = record {
  image = image;
  tag = effective_tag written sha;
  sha = sha;
  full_name = print image written sha;
  image_namespace = [];
}

image_and_tag-append :
    (image : Text) (written : Option Text)
    → Lacks b':' image
    → image_and_tag (image ++ tail_of b':' written) ≡ (image, or_empty written)
unfolding image_and_tag
image_and_tag-append image none h = rw (append-nil, split_first_of_Lacks b':' image h)
image_and_tag-append image (some tag) h = rw (split_first-append b':' image tag h)

check_sha-IsDigest : (sha : Text) → IsDigest sha → check_sha sha ≡ ok sha
unfolding check_sha
check_sha-IsDigest sha (digest, inl e) =
    rw (e, split_first-append b':' (codes "sha") digest (omega arith)) (unfold text_eq in refl)
check_sha-IsDigest sha (digest, inr e) =
    rw (e, split_first-append b':' (codes "sha256") digest (omega arith)) (unfold text_eq in refl)

pub complete_lem :
    (name image : Text) (written : Option Text) (sha : Text)
    → image ≢ []
    → complete name (image, or_empty written) sha
      ≡ ok (record (reference image written sha) { full_name = name })
unfolding complete text_eq
complete_lem name [] written sha h = absurd (h refl)
complete_lem name (c ∷ image) none [] h = refl
complete_lem name (c ∷ image) none (d ∷ sha) h = refl
complete_lem name (c ∷ image) (some []) [] h = refl
complete_lem name (c ∷ image) (some []) (d ∷ sha) h = refl
complete_lem name (c ∷ image) (some (b ∷ tag)) [] h = refl
complete_lem name (c ∷ image) (some (b ∷ tag)) (d ∷ sha) h = refl

Lacks-tail_of :
    (written : Option Text) → Lacks b'@' (or_empty written) → Lacks b'@' (tail_of b':' written)
Lacks-tail_of none h = tt
Lacks-tail_of (some tag) h = (omega arith, h)

module _ (name image : Text) (written : Option Text) (named : image ≢ [])
    (no_colon : Lacks b':' image) where
  parse_one :
      parse_parts name ((image ++ tail_of b':' written) ∷ [])
      ≡ ok (record (reference image written []) { full_name = name })
  unfolding parse_parts
  parse_one =
      rw (image_and_tag-append image written no_colon) (complete_lem name image written [] named)

  parse_two :
      (sha : Text)
      → IsDigest sha
      → parse_parts name ((image ++ tail_of b':' written) ∷ sha ∷ [])
        ≡ ok (record (reference image written sha) { full_name = name })
  unfolding parse_parts
  parse_two sha h =
      rw (check_sha-IsDigest sha h, image_and_tag-append image written no_colon)
        (complete_lem name image written sha named)

IsDigest-of : {c : ℕ} {sha : Text} → ((c ∷ sha ≡ []) ⊎ IsDigest (c ∷ sha)) → IsDigest (c ∷ sha)
IsDigest-of (inl e) = cc
IsDigest-of (inr d) = d

-- Parsing a reference that is printed from well-formed parts returns them, with the tag `latest`
-- where there is neither a tag nor a digest. Well-formed: the image is not empty and has neither a
-- colon nor an `@`, tag and digest have no `@`, and the digest is empty or begins with `sha:` or
-- `sha256:`.
pub parse_reference-print :
    (image : Text) (written : Option Text) (sha : Text)
    → IsReference image written sha
    → parse_reference (print image written sha) ≡ ok (reference image written sha)
unfolding parse_reference
parse_reference-print image written [] h =
    let front =
      All-append _ image (tail_of b':' written) h.image_no_at (Lacks-tail_of written h.tag_no_at) in
    let name = print image written [] in
    let parts : split b'@' name ≡ (image ++ tail_of b':' written) ∷ [] =
      ap (λ t. split b'@' (image ++ t)) (append-nil (tail_of b':' written))
      ∙ split_of_Lacks b'@' _ front in
    ap (parse_parts name) parts ∙ parse_one name image written h.named h.image_no_colon
parse_reference-print image written (c ∷ sha) h =
    let front =
      All-append _ image (tail_of b':' written) h.image_no_at (Lacks-tail_of written h.tag_no_at) in
    let name = print image written (c ∷ sha) in
    let parts : split b'@' name ≡ (image ++ tail_of b':' written) ∷ (c ∷ sha) ∷ [] =
      ap (split b'@') (sym (append_assoc image (tail_of b':' written) (b'@' ∷ c ∷ sha)))
      ∙ split-append b'@' _ (c ∷ sha) front
      ∙ ap (λ t. (image ++ tail_of b':' written) ∷ t) (split_of_Lacks b'@' (c ∷ sha) h.sha_no_at) in
    ap (parse_parts name) parts
    ∙ parse_two name image written h.named h.image_no_colon (c ∷ sha) (IsDigest-of h.sha_digest)
