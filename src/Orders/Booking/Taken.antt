-- ===== src/Orders/Booking/Taken.antt =====
-- What a line of a delivery that is accepted has done.
use cim_backend.Prelude.{
  Text, ℕ, ◌≡◌, inl, inr, ltb, some, Option-cases, List, ◌∷◌, Outcome-cases, passed_test, ok,
  ok-injective, arith,
}
use cim_backend.Decimal.{Decimal, decimal_places, minus, sides, is_negative_test}
use cim_backend.Orders.Receive.{
  OrderRow, ReceivedItem, Delivery, row_of, take_line, receive_line, receive_lines,
}

module _ {D F : Type 0} ⦃dec : Decimal D⦄ (to_string : D → Text) (inventory : ℕ)
    (rows : List (OrderRow D F)) where
  receive_line-taken :
      (l : ReceivedItem D) (d d' : Delivery D F)
      → receive_line to_string inventory rows l d ≡ ok d'
      → (row : OrderRow D F) × (row_of l.id rows ≡ some row)
        × (minus l.received_quantity ≡ 0)
        × (take_line inventory row l.received_quantity d ≡ d')
  unfolding receive_line
  receive_line-taken l d d' h = elim (Option-cases (row_of l.id rows)) [
    | inl missing ↦ absurd (cc (rw (missing, receive_line) at h))
    | inr (row, found) ↦
        let q = l.received_quantity in
        let (given, h1) = passed_test (dec.is_negative q) _ _ d' (rw (found, receive_line) at h) in
        let (few, h2) =
          passed_test (ltb row.product_unit.decimal_places (decimal_places to_string q)) _ _ d'
            h1 in
        (row, found, ground (arith, given, is_negative_test q, sides q), ok-injective h2)
  ]

  pub receive_lines-taken :
      (l : ReceivedItem D) (ls : List (ReceivedItem D)) (d d' : Delivery D F)
      → receive_lines to_string inventory rows (l ∷ ls) d ≡ ok d'
      → (row : OrderRow D F) × (row_of l.id rows ≡ some row)
        × (minus l.received_quantity ≡ 0)
        × (receive_lines to_string inventory rows ls (take_line inventory row l.received_quantity d)
            ≡ ok d')
  unfolding receive_lines
  receive_lines-taken l ls d d' h =
      elim (Outcome-cases (receive_line to_string inventory rows l d)) [
        | inr (e, bad) ↦ absurd (cc (rw (bad, receive_lines) at h))
        | inl (m, fine) ↦
            let (row, found, given, taken) = receive_line-taken l d m fine in
            (row, found, given, rw taken (rw (fine, receive_lines) at h))
      ]
