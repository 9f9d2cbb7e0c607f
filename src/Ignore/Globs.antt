-- ===== src/Ignore/Globs.antt =====
-- What the extra patterns match, as a relation with no search order in it.
use vaultsyncforagents.Prelude.{
  ◌≡◌, refl, sym, ◌∙◌, true, false, List, [], ◌∷◌, Str, ◌==◌, eq_iff, eq_refl, ◌↔◌, inl, inr,
  Bool-cases,
}
use vaultsyncforagents.Ignore.{segment_match, double_star, any_suffix, match_head, segments_match}

-- A whole `**` stands for any number of segments, and any other segment for one that it matches.
pub data Globs : List Str → List Str → Type 0 where
  ends : Globs [] []
  skips_none : {rest path : List Str} → Globs rest path → Globs (double_star ∷ rest) path
  skips :
      {rest path : List Str} {segment : Str}
      → Globs (double_star ∷ rest) path
      → Globs (double_star ∷ rest) (segment ∷ path)
  takes :
      {rest path : List Str} {head segment : Str}
      → head == double_star ≡ false
      → segment_match head segment ≡ true
      → Globs rest path
      → Globs (head ∷ rest) (segment ∷ path)

any_suffix-Globs :
    (rest path : List Str)
    → ((p : List Str) → segments_match rest p ≡ true → Globs rest p)
    → any_suffix (segments_match rest) path ≡ true
    → Globs (double_star ∷ rest) path
unfolding any_suffix
any_suffix-Globs rest [] sound h = skips_none (sound [] h)
any_suffix-Globs rest (segment ∷ path) sound h =
    elim (Bool-cases (segments_match rest (segment ∷ path))) [
      | inl here ↦ skips_none (sound (segment ∷ path) here)
      | inr later ↦ skips (any_suffix-Globs rest path sound (rw later at h))
    ]

match_head-Globs :
    (head : Str) (rest path : List Str)
    → ((p : List Str) → segments_match rest p ≡ true → Globs rest p)
    → head == double_star ≡ false
    → match_head head path (segments_match rest) ≡ true
    → Globs (head ∷ rest) path
match_head-Globs head rest [] sound single h = cc
match_head-Globs head rest (segment ∷ path) sound single h =
    elim (Bool-cases (segment_match head segment)) [
      | inl matches ↦ takes single matches (sound path (rw matches at h))
      | inr differs ↦ cc (rw differs at h)
    ]

segments_match→Globs :
    (pattern path : List Str) → segments_match pattern path ≡ true → Globs pattern path
unfolding segments_match
segments_match→Globs [] [] h = ends
segments_match→Globs [] (segment ∷ path) h = cc
segments_match→Globs (head ∷ rest) path h = elim (Bool-cases (head == double_star)) [
  | inl double ↦
      rw ((eq_iff head double_star).0 double)
        (any_suffix-Globs rest path (segments_match→Globs rest) (rw double at h))
  | inr single ↦ match_head-Globs head rest path (segments_match→Globs rest) single (rw single at h)
]

any_suffix-here :
    (rest path : List Str)
    → segments_match rest path ≡ true
    → any_suffix (segments_match rest) path ≡ true
unfolding any_suffix
any_suffix-here rest [] h = h
any_suffix-here rest (segment ∷ path) h = rw h refl

any_suffix-later :
    (rest path : List Str) (segment : Str)
    → any_suffix (segments_match rest) path ≡ true
    → any_suffix (segments_match rest) (segment ∷ path) ≡ true
unfolding any_suffix
any_suffix-later rest path segment h = elim (Bool-cases (segments_match rest (segment ∷ path))) [
  | inl here ↦ rw here refl
  | inr later ↦ rw later h
]

segments_match-double_star :
    (rest path : List Str)
    → segments_match (double_star ∷ rest) path ≡ any_suffix (segments_match rest) path
unfolding segments_match
segments_match-double_star rest path = rw (eq_refl double_star) refl

Globs→segments_match :
    {pattern path : List Str} → Globs pattern path → segments_match pattern path ≡ true
unfolding segments_match
Globs→segments_match ends = refl
Globs→segments_match (skips_none {rest} {path} d) =
    segments_match-double_star rest path ∙ any_suffix-here rest path (Globs→segments_match d)
Globs→segments_match (skips {rest} {path} {segment} d) =
    segments_match-double_star rest (segment ∷ path)
    ∙ any_suffix-later rest path segment
        (sym (segments_match-double_star rest path) ∙ Globs→segments_match d)
Globs→segments_match (takes single matches d) = rw (single, matches) (Globs→segments_match d)

-- The matcher of a pattern's segments says yes exactly when the segments of the path can be laid
-- out along the pattern, a whole `**` taking any number of them, none included.
pub segments_match_iff :
    (pattern path : List Str) → (segments_match pattern path ≡ true) ↔ Globs pattern path
segments_match_iff pattern path = (segments_match→Globs pattern path, Globs→segments_match)
