-- ===== src/Access/Matching.antt =====
-- Matching of paths.
use cim_backend.Prelude.{
  split, suc, ◌≡◌, refl, ap, inl, inr, ◌⊎◌, ◌↔◌, true, Bool-cases, ◌==◌, ==_iff, List, [], ◌∷◌,
  Text, text_eq, text_eq→eq, text_eq_refl, length, arith,
}
use cim_backend.Access.Paths.{slash, trim_slashes, wildcard, match_parts, match_path_pattern}

-- Part by part: the pattern's part is the wildcard or the path's part, and neither has more parts.
pub data Matches : List Text → List Text → Type 0 where
  matched_all : Matches [] []
  matched :
      (part pattern : Text) (parts patterns : List Text)
      → (pattern ≡ wildcard) ⊎ (pattern ≡ part)
      → Matches parts patterns
      → Matches (part ∷ parts) (pattern ∷ patterns)

match_parts-Matches :
    (parts patterns : List Text)
    → length parts ≡ length patterns
    → match_parts parts patterns ≡ true
    → Matches parts patterns
unfolding match_parts
match_parts-Matches [] [] e h = matched_all
match_parts-Matches [] (pattern ∷ patterns) e h = absurd (omega (arith, e))
match_parts-Matches (part ∷ parts) [] e h = absurd (omega (arith, e))
match_parts-Matches (part ∷ parts) (pattern ∷ patterns) e h =
    elim (Bool-cases (text_eq pattern wildcard)) [
      | inl any_part ↦
          matched part pattern parts patterns (inl (text_eq→eq pattern wildcard any_part))
            (match_parts-Matches parts patterns (omega (arith, e)) (rw any_part at h))
      | inr literal ↦ elim (Bool-cases (text_eq pattern part)) [
        | inl same ↦
            matched part pattern parts patterns (inr (text_eq→eq pattern part same))
              (match_parts-Matches parts patterns (omega (arith, e)) (rw (literal, same) at h))
        | inr other ↦ absurd (cc (rw (literal, other) at h))
      ]
    ]

Matches-match_parts :
    {parts patterns : List Text}
    → Matches parts patterns
    → (length parts ≡ length patterns) × (match_parts parts patterns ≡ true)
unfolding match_parts
Matches-match_parts matched_all = (refl, refl)
Matches-match_parts (matched part pattern parts patterns same rest) =
    let ih = Matches-match_parts rest in
    (
      ap suc ih.0,
      elim same [
        | inl any_part ↦
            let here : text_eq pattern wildcard ≡ true = rw any_part (text_eq_refl wildcard) in
            rw (here, ih.1) refl
        | inr equal ↦
            let here : text_eq pattern part ≡ true = rw equal (text_eq_refl part) in
            elim (Bool-cases (text_eq pattern wildcard)) [
              | inl any_part ↦ rw (any_part, ih.1) refl
              | inr literal ↦ rw (literal, here, ih.1) refl
            ]
      ],
    )

-- A path matches a pattern exactly when, after the slashes at both ends are dropped, both have the
-- same number of parts and each part of the pattern is the wildcard or the part of the path.
pub match_path_pattern_iff :
    (path pattern : Text)
    → (match_path_pattern path pattern ≡ true)
      ↔ Matches (split slash (trim_slashes path)) (split slash (trim_slashes pattern))
unfolding match_path_pattern
match_path_pattern_iff path pattern =
    let parts = split slash (trim_slashes path) in
    let patterns = split slash (trim_slashes pattern) in
    elim (Bool-cases (length parts == length patterns)) [
      | inl same ↦ rw same (
        match_parts-Matches parts patterns ((==_iff (length parts) (length patterns)).0 same),
        λ m. (Matches-match_parts m).1,
      )
      | inr other ↦ (
        λ h. absurd (cc (rw other at h)),
        λ m. absurd (ground (arith, (Matches-match_parts m).0, other)),
      )
    ]
