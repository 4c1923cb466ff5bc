-- ===== src/Parsers/Names.antt =====
-- Repository names with tags.
use docker_analysis.Base.{
  ◌≡◌, ◌↔◌, true, [], ◌∷◌, ◌++◌, inl, inr, arith, ap, ◌∙◌, Str, Option-cases, ◌⊎◌, Bool-cases,
}
use docker_analysis.Base.Text.{contains_byte, NoByte, cut_last, cut_last-append, cut_last-some}
use docker_analysis.Parsers.{parse_repository_tag}

-- A name and a tag joined by a colon are taken apart again, whatever ports the name holds, if the
-- tag has neither a colon nor a slash.
pub parse_repository_tag-append :
    (name tag : Str)
    → NoByte b':' tag
    → NoByte b'/' tag
    → parse_repository_tag (name ++ b':' ∷ tag) ≡ (name, tag)
unfolding parse_repository_tag
parse_repository_tag-append name tag colon slash =
    rw (cut_last-append b':' name tag colon, parse_repository_tag, slash)

-- Where the last colon of the text comes before a slash.
abbrev pub SlashAfterColon : Str → Type 0
SlashAfterColon repos =
    (a b : Str) → repos ≡ a ++ b':' ∷ b → NoByte b':' b → contains_byte b'/' b ≡ true

-- What it means to be the name and the tag of a text: either the name and the tag, joined by a
-- colon, are the text, and the tag has neither a colon nor a slash; or there is no tag, the name is
-- the whole text, and a slash follows its last colon, if it has a colon.
abbrev pub NameAndTag : Str → Str → Str → Type 0
NameAndTag repos name tag =
    ((repos ≡ name ++ b':' ∷ tag) × NoByte b':' tag × NoByte b'/' tag)
    ⊎ (tag ≡ []) × (name ≡ repos) × SlashAfterColon repos

-- A text is parsed into a name and a tag exactly when either the name and the tag, joined by a
-- colon, are the text, and the tag has neither a colon nor a slash; or the tag is empty, the name is
-- the whole text, and a slash follows its last colon, if it has a colon.
pub parse_repository_tag_iff :
    (repos name tag : Str) → (parse_repository_tag repos ≡ (name, tag)) ↔ NameAndTag repos name tag
unfolding parse_repository_tag contains_byte
parse_repository_tag_iff repos name tag = (taken_apart, put_together)
  where
    taken_apart : parse_repository_tag repos ≡ (name, tag) → NameAndTag repos name tag
    taken_apart h = elim (Option-cases (cut_last b':' repos)) [
      | inl e ↦ inr (
        ground (arith, e),
        ground (arith, e),
        λ a b whole free.
            absurd (ground (arith, e, ap (cut_last b':') whole, cut_last-append b':' a b free)),
      )
      | inr ((a, b), e) ↦
          let (whole, free) = cut_last-some b':' repos a b e in
          elim (Bool-cases (contains_byte b'/' b)) [
            | inl slash ↦ inr (
              ground (arith, e),
              ground (arith, e),
              λ a' b' whole' free'.
                  ground
                    (arith, e, slash, ap (cut_last b':') whole', cut_last-append b':' a' b' free'),
            )
            | inr plain ↦ inl (ground (arith, e), ground (arith, e), ground (arith, e))
          ]
    ]

    put_together : NameAndTag repos name tag → parse_repository_tag repos ≡ (name, tag)
    put_together (inl (whole, colon, slash)) =
        ap parse_repository_tag whole ∙ parse_repository_tag-append name tag colon slash
    put_together (inr (no_tag, same, after)) = elim (Option-cases (cut_last b':' repos)) [
      | inl e ↦ ground (arith, e)
      | inr ((a, b), e) ↦
          let (whole, free) = cut_last-some b':' repos a b e in
          let slash = after a b whole free in ground (arith, e, slash)
    ]
