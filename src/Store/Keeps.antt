-- ===== src/Store/Keeps.antt =====
-- Transactions that leave every submission as it is.
use cim_backend.Prelude.{
  ℕ, ◌≡◌, ◌∙◌, refl, inl, inr, Bool, true, false, Bool-cases, not, any, Option, none, some,
  Option-cases, map, List, [], ◌∷◌, ◌==◌, Outcome, ok, err,
}
use cim_backend.Decimal.{Decimal}
use cim_backend.Errors.{AppError, no_active_inventory_items, item_validation_failed}
use cim_backend.Caller.{Caller}
use cim_backend.Models.Transaction.{InventoryTransaction}
use cim_backend.Models.Item.{InventoryItem, InventoryItemChange}
use cim_backend.Store.Tables.{
  Store, Tx, ◌>>=◌, pure, gets, modify, raise_if, or_raise, lift, with_update_fields,
}
use cim_backend.Store.Items.{
  save_item, save_items, save_transaction, save_transactions, raise_some, hooks, saved_items,
  link_txn, check_changes, active_items_query, is_valid_item, save_inventory_item_changes,
  get_active_inventory_items,
}

module _ {D F : Type 0} where
  abbrev pub KeepsFrom : {A : Type 0} → Store D F → Outcome AppError (A × Store D F) → Type 0
  KeepsFrom s (ok (a, t)) = t.submissions ≡ s.submissions
  KeepsFrom s (err e) = Unit

  pub record Keeps {A : Type 0} (m : Tx D F A) : Type 0 where
    pub run : (s : Store D F) → KeepsFrom s (m s)

  bind_result-KeepsFrom :
      {A B : Type 0} (s : Store D F) (r : Outcome AppError (A × Store D F)) (f : A → Tx D F B)
      → KeepsFrom s r
      → ((a : A) → Keeps (f a))
      → KeepsFrom s (◌>>=◌ (λ _. r) f s)
  bind_result-KeepsFrom s (err e) f h k = tt
  bind_result-KeepsFrom {B = B} s (ok (a, t)) f h k = chained (f a t) ((k a).run t)
    where
      chained : (r : Outcome AppError (B × Store D F)) → KeepsFrom t r → KeepsFrom s r
      chained (err e) g = tt
      chained (ok (b, u)) g = g ∙ h

  pub bind-Keeps :
      {A B : Type 0} (m : Tx D F A) (f : A → Tx D F B)
      → Keeps m
      → ((a : A) → Keeps (f a))
      → Keeps (m >>= f)
  bind-Keeps m f h k = record { run = λ s. bind_result-KeepsFrom s (m s) f (h.run s) k }

  pub pure-Keeps : {A : Type 0} (a : A) → Keeps (pure a)
  pure-Keeps a = record { run = λ s. refl }

  pub modify-Keeps :
      (f : Store D F → Store D F)
      → ((s : Store D F) → (f s).submissions ≡ s.submissions)
      → Keeps (modify f)
  modify-Keeps f h = record { run = h }

  pub gets-Keeps : {A : Type 0} (f : Store D F → A) → Keeps (gets f)
  gets-Keeps f = record { run = λ s. refl }

  pub raise_if-Keeps : (b : Bool) (e : AppError) → Keeps (raise_if b e)
  raise_if-Keeps true e = record { run = λ s. tt }
  raise_if-Keeps false e = record { run = λ s. refl }

  pub or_raise-Keeps : {A : Type 0} (o : Option A) (e : AppError) → Keeps (or_raise o e)
  or_raise-Keeps none e = record { run = λ s. tt }
  or_raise-Keeps (some a) e = record { run = λ s. refl }

  pub lift-Keeps : {A : Type 0} (o : Outcome AppError A) → Keeps (lift o)
  lift-Keeps (err e) = record { run = λ s. tt }
  lift-Keeps (ok a) = record { run = λ s. refl }

  with_update_fields-Keeps : (ctx : Caller) → Keeps (with_update_fields ctx)
  with_update_fields-Keeps ctx = record {
    run = λ s. elim (Option-cases ctx.user_email) [
      | inl missing ↦ rw missing tt
      | inr (e, there) ↦ rw there refl
    ];
  }

module _ {D F : Type 0} ⦃dec : Decimal D⦄ where
  save_item-submissions :
      (s : Store D F) (i : InventoryItem D F) → (save_item s i).submissions ≡ s.submissions
  unfolding save_item
  save_item-submissions s i = elim (Bool-cases (i.id == 0)) [
    | inl new ↦ rw new refl
    | inr old ↦ rw old refl
  ]

  save_items-submissions :
      (s : Store D F) (cs : List (InventoryItemChange D F))
      → (save_items s cs).submissions ≡ s.submissions
  save_items-submissions s [] = refl
  save_items-submissions s (c ∷ cs) =
      save_items-submissions (save_item s c.item) cs ∙ save_item-submissions s c.item

  save_transaction-submissions :
      (s : Store D F) (t : InventoryTransaction D F)
      → (save_transaction s t).submissions ≡ s.submissions
  unfolding save_transaction
  save_transaction-submissions s t = elim (Bool-cases (t.id == 0)) [
    | inl new ↦ rw new refl
    | inr old ↦ rw old refl
  ]

  save_transactions-submissions :
      (s : Store D F) (ts : List (InventoryTransaction D F))
      → (save_transactions s ts).submissions ≡ s.submissions
  save_transactions-submissions s [] = refl
  save_transactions-submissions s (t ∷ ts) =
      save_transactions-submissions (save_transaction s t) ts ∙ save_transaction-submissions s t

  hooks-Keeps :
      (ctx : Caller) (cs : List (InventoryItemChange D F)) (ts : List (InventoryTransaction D F))
      → Keeps (hooks ctx cs ts)
  hooks-Keeps ctx [] [] = record { run = λ s. refl }
  hooks-Keeps ctx [] (t ∷ ts) = with_update_fields-Keeps ctx
  hooks-Keeps ctx (c ∷ cs) ts = with_update_fields-Keeps ctx

  raise_some-Keeps : (o : Option AppError) → Keeps {D = D} {F = F} (raise_some o)
  raise_some-Keeps none = record { run = λ s. refl }
  raise_some-Keeps (some e) = record { run = λ s. tt }

  pub save_inventory_item_changes-Keeps :
      (ctx : Caller) (cs : List (InventoryItemChange D F)) (ts : List (InventoryTransaction D F))
      → Keeps (save_inventory_item_changes ctx cs ts)
  unfolding save_inventory_item_changes
  save_inventory_item_changes-Keeps ctx cs ts =
      bind-Keeps _ _ (gets-Keeps (λ s. check_changes s cs)) (λ clash.
        bind-Keeps _ _ (raise_some-Keeps clash) (λ _. bind-Keeps _ _ (hooks-Keeps ctx cs ts) (λ _.
          modify-Keeps
            (λ s.
              save_transactions (save_items s cs)
                (map (link_txn (saved_items [] s.next_item_id cs)) ts))
            (λ s.
              save_transactions-submissions (save_items s cs)
                (map (link_txn (saved_items [] s.next_item_id cs)) ts)
              ∙ save_items-submissions s cs))))

  pub get_active_inventory_items-Keeps :
      (inventory_id : ℕ) (ids : List ℕ)
      → Keeps {D = D} {F = F} (get_active_inventory_items inventory_id ids)
  unfolding get_active_inventory_items
  get_active_inventory_items-Keeps inventory_id ids =
      bind-Keeps _ _ (gets-Keeps (active_items_query inventory_id ids)) (λ items.
        bind-Keeps _ _ (raise_if-Keeps (not (any (λ i. true) items)) no_active_inventory_items)
          (λ _.
            bind-Keeps _ _
              (raise_if-Keeps (any (λ i. not (is_valid_item i)) items) item_validation_failed)
              (λ _. pure-Keeps items)))
