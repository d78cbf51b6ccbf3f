-- ===== src/Orders/Flags.antt =====
-- The transitions of an order's status, checked for every status and all flags.
use cim_backend.Prelude.{
  ℕ, ◌≡◌, ◌≢◌, refl, ap, sym, ◌∙◌, inl, inr, ◌↔◌, Bool, true, false, Bool-cases, ◌&&◌, ◌||◌, not,
  subst, ◌==◌, ==_iff, if◌then◌else◌,
}
use cim_backend.Errors.{
  PurchaseOrderStatus, order_placed, partially_delivered, fully_delivered, completed, cancelled,
  order_eq, order_code,
}
use cim_backend.Orders.{next_status}

-- A test that holds of both Booleans holds of each.
abbrev both : (Bool → Bool) → Bool
both f = f true && f false

&&-left : (a b : Bool) → (a && b) ≡ true → a ≡ true
&&-left true b h = refl
&&-left false b h = absurd (cc)

&&-right : (a b : Bool) → (a && b) ≡ true → b ≡ true
&&-right true b h = h
&&-right false b h = absurd (cc)

both-each : (f : Bool → Bool) → both f ≡ true → (b : Bool) → f b ≡ true
both-each f h true = &&-left (f true) (f false) h
both-each f h false = &&-right (f true) (f false) h

abbrev for_all : (Bool → Bool → Bool → Bool → Bool) → Bool
for_all f = both (λ a. both (λ p. both (λ d. both (λ o. f a p d o))))

for_all-each :
    (f : Bool → Bool → Bool → Bool → Bool) → for_all f ≡ true → (a p d o : Bool) → f a p d o ≡ true
for_all-each f h a p d o =
    both-each (f a p d)
      (both-each (λ d. both (f a p d))
        (both-each (λ p. both (λ d. both (f a p d)))
          (both-each (λ a. both (λ p. both (λ d. both (f a p d)))) h a) p)
        d)
      o

abbrev order_of : ℕ → PurchaseOrderStatus
order_of n =
    if n == 0
    then order_placed
    else if n == 1
    then partially_delivered
    else if n == 2
    then fully_delivered
    else if n == 3
    then completed
    else cancelled

order_of-code : (s : PurchaseOrderStatus) → order_of (order_code s) ≡ s
order_of-code order_placed = refl
order_of-code partially_delivered = refl
order_of-code fully_delivered = refl
order_of-code completed = refl
order_of-code cancelled = refl

order_eq-same : (s t : PurchaseOrderStatus) → order_eq s t ≡ true → s ≡ t
order_eq-same s t h =
    sym (order_of-code s)
    ∙ ap order_of ((==_iff (order_code s) (order_code t)).0 h)
    ∙ order_of-code t

abbrev settles : PurchaseOrderStatus → Bool → Bool → Bool → Bool → Bool
settles s a p d o = order_eq (next_status (next_status s a p d o) a p d o) (next_status s a p d o)

pub next_status-again :
    (s : PurchaseOrderStatus) (a p d o : Bool)
    → next_status (next_status s a p d o) a p d o ≡ next_status s a p d o
next_status-again s a p d o = order_eq-same _ _ (for_all-each (settles s) (tabulated s) a p d o)
  where
    tabulated : (s : PurchaseOrderStatus) → for_all (settles s) ≡ true
    tabulated order_placed = refl
    tabulated partially_delivered = refl
    tabulated fully_delivered = refl
    tabulated completed = refl
    tabulated cancelled = refl

-- With some delivery, the order is fully delivered exactly when nothing is outstanding.
abbrev agrees : Bool → Bool → Bool → Bool → Bool
agrees full a p some_here = not some_here || (if full then not a && not p else (a || p))

abbrev follows : PurchaseOrderStatus → Bool → Bool → Bool → Bool → Bool
follows s a p d o = agrees (order_eq (next_status s a p d o) fully_delivered) a p (d || o)

abbrev pub is_under_way : PurchaseOrderStatus → Bool
is_under_way s = not (order_eq s completed) && not (order_eq s cancelled)

next_status-follows :
    (s : PurchaseOrderStatus) (a p d o : Bool) → is_under_way s ≡ true → follows s a p d o ≡ true
next_status-follows s a p d o h = for_all-each (follows s) (tabulated s h) a p d o
  where
    tabulated : (s : PurchaseOrderStatus) → is_under_way s ≡ true → for_all (follows s) ≡ true
    tabulated order_placed h = refl
    tabulated partially_delivered h = refl
    tabulated fully_delivered h = refl
    tabulated completed h = absurd (cc)
    tabulated cancelled h = absurd (cc)

pub fully_delivered_iff :
    (s : PurchaseOrderStatus) (a p d o : Bool)
    → is_under_way s ≡ true
    → (d || o) ≡ true
    → (next_status s a p d o ≡ fully_delivered) ↔ ((a ≡ false) × (p ≡ false))
fully_delivered_iff s a p d o under_way some_here =
    let h =
      subst (λ b. agrees (order_eq (next_status s a p d o) fully_delivered) a p b ≡ true) some_here
        (next_status-follows s a p d o under_way) in
    elim (Bool-cases (order_eq (next_status s a p d o) fully_delivered)) [
      | inl full ↦
          let rest = subst (λ b. agrees b a p true ≡ true) full h in
          (
            λ _. (
              not_true a (&&-left (not a) (not p) rest),
              not_true p (&&-right (not a) (not p) rest),
            ),
            λ _. order_eq-same _ _ full,
          )
      | inr short ↦
          let rest = subst (λ b. agrees b a p true ≡ true) short h in
          (
            λ eq. absurd (cc (sym short, ap (λ x. order_eq x fully_delivered) eq)),
            λ (na, np). absurd (cc (rw (na, np) at rest)),
          )
    ]
  where
    not_true : (b : Bool) → not b ≡ true → b ≡ false
    not_true true h = absurd (cc)
    not_true false h = refl

abbrev stays : PurchaseOrderStatus → Bool → Bool → Bool → Bool → Bool
stays s a p d o = not (order_eq (next_status s a p d o) cancelled)

-- No flags cancel an order.
pub next_status-live :
    (s : PurchaseOrderStatus) (a p d o : Bool)
    → not (order_eq s cancelled) ≡ true
    → not (order_eq (next_status s a p d o) cancelled) ≡ true
next_status-live s a p d o h = for_all-each (stays s) (tabulated s h) a p d o
  where
    tabulated :
        (s : PurchaseOrderStatus) → not (order_eq s cancelled) ≡ true → for_all (stays s) ≡ true
    tabulated order_placed h = refl
    tabulated partially_delivered h = refl
    tabulated fully_delivered h = refl
    tabulated completed h = refl
    tabulated cancelled h = absurd (cc)

abbrev waits : PurchaseOrderStatus → Bool → Bool → Bool → Bool
waits s p d o = not (order_eq (next_status s true p d o) fully_delivered)

-- While an item awaits its delivery, the order does not become fully delivered.
pub next_status-waits :
    (s : PurchaseOrderStatus) (p d o : Bool) → next_status s true p d o ≢ fully_delivered
next_status-waits s p d o full = absurd (
    cc (
      ap (λ x. not (order_eq x fully_delivered)) (sym full)
      ∙ for_all-each (λ a. waits s) (tabulated s) true p d o))
  where
    tabulated : (s : PurchaseOrderStatus) → for_all (λ a. waits s) ≡ true
    tabulated order_placed = refl
    tabulated partially_delivered = refl
    tabulated fully_delivered = refl
    tabulated completed = refl
    tabulated cancelled = refl
