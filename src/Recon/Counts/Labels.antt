-- ===== src/Recon/Counts/Labels.antt =====
-- `validateCountLabelDistinctness` against the plain condition on pairs of items and labels.
use cim_backend.Prelude.{
  ◌+◌, ◌≡◌, refl, inl, inr, Bool, true, false, not, ◌&&◌, ◌||◌, ltb, ◌==◌, Bool-cases, List, [],
  ◌∷◌, any, arith, Text, text_eq, text_eq→eq, trim_space, lookup, lookup_or, lookup_or-put, put,
  Outcome, ok, err, and_then, if◌then◌else◌,
}
use cim_backend.Recon.Counts.{
  ReconciliationCountItem, SeenLabels, has_pair, see_label, see_labels,
  validate_count_label_distinctness,
}

abbrev pub is_ok : {E A : Type 0} → Outcome E A → Bool
is_ok (ok a) = true
is_ok (err e) = false

text_eq-nil : (t : Text) → text_eq [] t ≡ text_eq t []
text_eq-nil [] = refl
text_eq-nil (x ∷ xs) = refl

failed :
    {E A B : Type 0} (m : Outcome E A) (f : A → Outcome E B)
    → is_ok m ≡ false
    → is_ok (and_then m f) ≡ false
failed (ok a) f h = absurd (cc)
failed (err e) f h = refl

module _ {D : Type 0} where
  -- The same item counted under the same label.
  abbrev pub same_key : ReconciliationCountItem D → ReconciliationCountItem D → Bool
  same_key x y =
      x.inventory_item_id == y.inventory_item_id
      && text_eq (trim_space x.label) (trim_space y.label)

  abbrev pub all_distinct : List (ReconciliationCountItem D) → Bool
  all_distinct [] = true
  all_distinct (x ∷ xs) = not (any (same_key x) xs) && all_distinct xs

  -- An item that the maps already hold under its label.
  abbrev clash : SeenLabels → ReconciliationCountItem D → Bool
  clash seen x =
      if text_eq (trim_space x.label) []
      then ltb 0 (lookup_or 0 x.inventory_item_id seen.blanks)
      else has_pair x.inventory_item_id (trim_space x.label) seen.non_blank

  seen_after : SeenLabels → ReconciliationCountItem D → SeenLabels
  seen_after seen x =
      let id = x.inventory_item_id in
      if text_eq (trim_space x.label) []
      then record seen { blanks = put id (lookup_or 0 id seen.blanks + 1) seen.blanks }
      else record seen { non_blank = (id, trim_space x.label) ∷ seen.non_blank }

  see_label-clash :
      (seen : SeenLabels) (x : ReconciliationCountItem D)
      → (clash seen x ≡ true → is_ok (see_label seen x) ≡ false)
        × (clash seen x ≡ false → see_label seen x ≡ ok (seen_after seen x))
  unfolding see_label seen_after
  see_label-clash seen x = elim (Bool-cases (text_eq (trim_space x.label) [])) [
    | inl blank ↦ rw blank (λ h. ground (arith, h), λ h. ground (arith, h))
    | inr full ↦ rw full (λ h. rw h refl, λ h. rw h refl)
  ]

  clash-seen_after :
      (seen : SeenLabels) (x y : ReconciliationCountItem D)
      → clash (seen_after seen x) y ≡ (clash seen y || same_key x y)
  unfolding seen_after
  clash-seen_after seen x y =
      let id = x.inventory_item_id in
      let count = lookup_or 0 id seen.blanks + 1 in
      elim (Bool-cases (text_eq (trim_space x.label) [])) [
        | inl blank ↦
            let none_x : trim_space x.label ≡ [] = text_eq→eq (trim_space x.label) [] blank in
            elim (Bool-cases (text_eq (trim_space y.label) [])) [
              | inl blank' ↦
                  rw (blank, blank', none_x, text_eq-nil, blank', lookup_or-put) (ground arith)
              | inr full' ↦ rw (blank, full', none_x, text_eq-nil, full') (ground arith)
            ]
        | inr full ↦ elim (Bool-cases (text_eq (trim_space y.label) [])) [
          | inl blank' ↦
              let none_y : trim_space y.label ≡ [] = text_eq→eq (trim_space y.label) [] blank' in
              rw (full, none_y, full) (ground arith)
          | inr full' ↦ rw (full, full') (ground arith)
        ]
      ]

  any-clash-seen_after :
      (seen : SeenLabels) (x : ReconciliationCountItem D) (xs : List (ReconciliationCountItem D))
      → any (clash (seen_after seen x)) xs ≡ (any (clash seen) xs || any (same_key x) xs)
  any-clash-seen_after seen x [] = refl
  any-clash-seen_after seen x (y ∷ ys) =
      rw (clash-seen_after seen x y, any-clash-seen_after seen x ys) (ground arith)

  is_ok-see_labels :
      (seen : SeenLabels) (items : List (ReconciliationCountItem D))
      → is_ok (see_labels seen items) ≡ (not (any (clash seen) items) && all_distinct items)
  unfolding see_labels
  is_ok-see_labels seen [] = refl
  is_ok-see_labels seen (x ∷ xs) = elim (Bool-cases (clash seen x)) [
    | inl taken ↦ rw (
      taken,
      failed (see_label seen x) (λ seen'. see_labels seen' xs) ((see_label-clash seen x).0 taken),
    )
    | inr free ↦
        rw
          (
            (see_label-clash seen x).1 free,
            free,
            is_ok-see_labels (seen_after seen x) xs,
            any-clash-seen_after seen x xs,
          )
          (ground arith)
  ]

  no_clash :
      (items : List (ReconciliationCountItem D))
      → any (clash (record { blanks = []; non_blank = [] })) items ≡ false
  unfolding lookup_or lookup
  no_clash [] = refl
  no_clash (x ∷ xs) = elim (Bool-cases (text_eq (trim_space x.label) [])) [
    | inl blank ↦ rw blank (no_clash xs)
    | inr full ↦ rw full (no_clash xs)
  ]

  -- validate_count_label_distinctness accepts the lines of a request exactly when no two of them
  -- have the same item and the same label, where labels are compared without the space around
  -- them.
  pub validate_count_label_distinctness-all_distinct :
      (items : List (ReconciliationCountItem D))
      → is_ok (validate_count_label_distinctness items) ≡ all_distinct items
  unfolding validate_count_label_distinctness
  validate_count_label_distinctness-all_distinct items =
      let empty : SeenLabels = record { blanks = []; non_blank = [] } in
      rw (is_ok-see_labels empty items, no_clash items) refl
