-- ===== src/Orders/Edit/Ordered.antt =====
-- An edit orders no less of a received item than what was received, changed by the edit or not.
use cim_backend.Prelude.{
  ℕ, ◌≡◌, ◌⊎◌, ◌∙◌, refl, ap, sym, subst, inl, inr, Bool, true, Bool-cases, ◌&&◌, not, ◌==◌, ==_iff,
  some, Option-cases, List, [], ◌∷◌, ◌++◌, any, and_then-eq-ok, ok, ok-injective, arith,
}
use cim_backend.Decimal.{Decimal}
use cim_backend.Orders.{PurchaseOrderItem}
use cim_backend.Orders.Edit.{
  EditItem, OrderEdit, existing_item, delete_items, removed_ids, edit_new, edit_lines,
}
use cim_backend.Orders.Edit.Rows.{AllOnly, existing_item-AllOnly, is_received}
use cim_backend.Orders.Edit.Edited.{AllEdited}
use cim_backend.Orders.Edit.Going.{Going, edit_new-Going, edit_existing-Going}
use cim_backend.Orders.Edit.Named.{Fits, is_named, removed_ids-named}
use cim_backend.Orders.Edit.Follows.{edit_existing-Follows}

module _ {D F : Type 0} ⦃dec : Decimal D⦄ where
  -- A row with the id of `i` is the only one with it, and fits.
  pub record Stays (i : PurchaseOrderItem D F) (js : List (PurchaseOrderItem D F)) : Type 0 where
    row : PurchaseOrderItem D F
    same_id : row.id ≡ i.id
    fits : Fits row
    only : AllOnly row js

  module _ (same_price : F → F → Bool) where
    edit_new-items : (r : EditItem D F) (e : OrderEdit D F) → (edit_new r e).items ≡ e.items
    unfolding edit_new
    edit_new-items r e = elim (Bool-cases (not (dec.greater_than r.quantity dec.zero_value))) [
      | inl none_asked ↦ rw (none_asked, edit_new) refl
      | inr asked ↦ rw (asked, edit_new) refl
    ]

    edit_lines-follow :
        (rows : List (PurchaseOrderItem D F)) (supplier product : ℕ) (rs : List (EditItem D F))
        (x : PurchaseOrderItem D F) (e e' : OrderEdit D F)
        → Going rows e
        → existing_item supplier product e.items ≡ some x
        → is_received x ≡ true
        → Fits x ⊎ (is_named supplier product rs ≡ true)
        → edit_lines same_price rs e ≡ ok e'
        → Stays x e'.items
    unfolding edit_lines
    edit_lines-follow rows supplier product [] x e e' g there received (inr h) done = absurd (cc)
    edit_lines-follow rows supplier product [] x e e' g there received (inl fits) done =
        let same = ok-injective done in
        record {
          row = x;
          same_id = refl;
          fits = fits;
          only =
              subst (λ (z : OrderEdit D F). AllOnly x z.items) same
                (existing_item-AllOnly supplier product e.items x g.distinct there).1;
        }
    edit_lines-follow rows supplier product (r ∷ rs) x e e' g there received h done =
        elim (Option-cases (existing_item r.supplier_id r.product_id e.items)) [
          | inl new ↦
              edit_lines-follow rows supplier product rs x (edit_new r e) e'
                (edit_new-Going same_price rows r e g)
                (ap (existing_item supplier product) (edit_new-items r e) ∙ there) received
                (elim h [
                  | inl fits ↦ inl fits
                  | inr named ↦
                      elim (Bool-cases (r.supplier_id == supplier && r.product_id == product)) [
                        | inr far ↦ inr (rw far at named)
                        | inl its ↦
                            let e1 = keyed_at supplier product r its e.items in
                            absurd (cc (e1, new, there))
                      ]
                ])
                (rw (new, edit_lines) at done)
          | inr (i, found) ↦
              let only =
                (existing_item-AllOnly r.supplier_id r.product_id e.items i g.distinct found).1 in
              let (e1, fine, rest) = and_then-eq-ok _ _ (rw (found, edit_lines) at done) in
              let f =
                edit_existing-Follows same_price supplier product r i x e e1 there received only
                  fine in
              let later =
                edit_lines-follow rows supplier product rs f.row e1 e'
                  (edit_existing-Going same_price rows r i e e1 only g fine) f.there f.received
                  (elim h [
                    | inl fits ↦ inl (f.stays fits)
                    | inr named ↦
                        elim (Bool-cases (r.supplier_id == supplier && r.product_id == product)) [
                          | inr far ↦ inr (rw far at named)
                          | inl its ↦
                              let at_key = keyed_at supplier product r its e.items in
                              let both : some i ≡ some x = sym found ∙ at_key ∙ there in
                              let same : i ≡ x = cc in inl (f.edited same)
                        ]
                  ])
                  rest in
              record {
                row = later.row;
                same_id = later.same_id ∙ f.same_id;
                fits = later.fits;
                only = later.only;
              }
        ]
      where
        keyed_at :
            (supplier product : ℕ) (r : EditItem D F)
            → (r.supplier_id == supplier && r.product_id == product) ≡ true
            → (items : List (PurchaseOrderItem D F))
            → existing_item r.supplier_id r.product_id items ≡ existing_item supplier product items
        keyed_at supplier product r its items =
            let s : r.supplier_id ≡ supplier = ground (arith, its) in
            let p : r.product_id ≡ product = ground (arith, its) in
            ap (λ k. existing_item k r.product_id items) s
            ∙ ap (λ k. existing_item supplier k items) p

  -- Every received row that the edit finds by its key fits after the edit.
  abbrev pub AllOrdered :
      List (PurchaseOrderItem D F)
      → List (PurchaseOrderItem D F)
      → List (PurchaseOrderItem D F)
      → Type 0
  AllOrdered rows [] js = Unit
  AllOrdered rows (i ∷ is) [] = ⊥
  AllOrdered rows (i ∷ is) (j ∷ js) =
      (is_received i ≡ true → existing_item i.supplier_id i.product_id rows ≡ some i → Fits j)
      × AllOrdered rows is js

  pub AllOrdered-delete_items :
      (ids : List ℕ) (rows is js news : List (PurchaseOrderItem D F))
      → AllEdited is js
      → ((i : PurchaseOrderItem D F)
          → is_received i ≡ true
          → existing_item i.supplier_id i.product_id rows ≡ some i
          → Stays i js)
      → AllOrdered rows is (delete_items ids (js ++ news))
  AllOrdered-delete_items ids rows [] js news e h = tt
  AllOrdered-delete_items ids rows (i ∷ is) [] news e h = absurd e
  AllOrdered-delete_items ids rows (i ∷ is) (j ∷ js) news (here, e) h = (
    λ received found.
        let s = h i received found in
        let its : j ≡ s.row = s.only.0 ((==_iff j.id s.row.id).1 (here.same_id ∙ sym s.same_id)) in
        let fits : Fits j = subst Fits (sym its) s.fits in
        elim (Bool-cases (any (λ k. k == j.id) ids)) [
          | inl goes ↦ rw goes fits
          | inr stays ↦ rw stays fits
        ],
    AllOrdered-delete_items ids rows is js news e (λ x received found.
        let s = h x received found in
        record { row = s.row; same_id = s.same_id; fits = s.fits; only = s.only.1 }),
  )

  module _ (same_price : F → F → Bool) where
    -- The loop over the request, from the rows of the order.
    pub edit_lines-Stays :
        (rows : List (PurchaseOrderItem D F)) (requests : List (EditItem D F)) (ids : List ℕ)
        (e e' : OrderEdit D F)
        → Going rows e
        → e.items ≡ rows
        → removed_ids requests rows ≡ ok ids
        → edit_lines same_price requests e ≡ ok e'
        → (i : PurchaseOrderItem D F) → is_received i ≡ true
        → existing_item i.supplier_id i.product_id rows ≡ some i
        → Stays i e'.items
    edit_lines-Stays rows requests ids e e' g same removed done i received found =
        let named =
          removed_ids-named requests i.supplier_id i.product_id rows i ids removed found received in
        edit_lines-follow same_price rows i.supplier_id i.product_id requests i e e' g
          (ap (existing_item i.supplier_id i.product_id) same ∙ found) received (inr named) done
