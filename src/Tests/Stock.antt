-- ===== src/Tests/Stock.antt =====
-- Runs of `consumeFIFO`.
use cim_backend.Prelude.{
  ℕ, ◌≡◌, ◌↔◌, refl, lookup, lookup_or, arith, ◌+ℤ◌, ◌-ℤ◌, ℤ, pos, [], ◌∷◌, Map, ok, All,
}
use cim_backend.Decimal.{int_decimal, plus, minus}
use cim_backend.Models.Transaction.{sell}
use cim_backend.Models.Item.{unconsumed}
use cim_backend.Stock.Fifo.{
  Consumed, consume_qty_for_txn, consume_txn, consume_layers, consume_item, item_after,
  consume_items, consume_fifo,
}
use cim_backend.Stock.Fifo.Layers.{IsLayer, Took, consume_layers-Took}
use cim_backend.Stock.Fifo.Items.{
  IsInSync, CanGive, AllGive, Gave, consume_fifo-Gave, consume_fifo_iff,
}
use cim_backend.Stock.Fifo.Ledger.{moved, Writes, moved-consume_item}
use cim_backend.Stock.Handlers.{counter_handler, counter_txn}
use cim_backend.Tests.Sample.{bought, item_of, nat_float, old_layers, rice, salt, two_items}

layers_ok : All IsLayer old_layers
unfolding minus unconsumed ◌-ℤ◌
layers_ok = (refl, (refl, tt))

pub rice-IsInSync : IsInSync rice
unfolding plus minus unconsumed ◌-ℤ◌
rice-IsInSync = record { layers = layers_ok; on_hand = refl; nonneg = refl }

pub salt-IsInSync : IsInSync salt
unfolding plus minus unconsumed ◌-ℤ◌
salt-IsInSync = record { layers = (refl, tt); on_hand = refl; nonneg = refl }

five-CanGive : CanGive rice (pos 5)
unfolding plus minus
five-CanGive = (refl, omega arith)

abbrev wanted : Map ℤ
wanted = (7, pos 5) ∷ []

abbrev sold : Consumed (Unit {0}) ℤ ℕ
sold = consume_items (counter_handler sell 9) wanted tt two_items

wanted-AllGive : AllGive two_items wanted
wanted-AllGive = ((rice, refl, five-CanGive), tt)

consume_layers-Took_example :
    Took (pos 5) old_layers (consume_layers (counter_handler sell 9) rice tt 0 (pos 5) old_layers)
consume_layers-Took_example =
    consume_layers-Took (counter_handler sell 9) rice tt 0 (pos 5) old_layers five-CanGive.0
      layers_ok

-- The first purchase gives its 3, the second 2 of its 4.
sold-ok : consume_fifo (counter_handler sell 9) tt [] two_items wanted ≡ ok sold
sold-ok = (consume_fifo_iff (counter_handler sell 9) wanted tt two_items).1 wanted-AllGive

sold_layers :
    (sold.items
      ≡ record (item_of 7 2 (bought 1 7 5 5 ∷ bought 2 7 4 2 ∷ [])) { consuming_transaction_id = 2 }
        ∷ salt
        ∷ [])
unfolding consume_items consume_item consume_layers consume_qty_for_txn consume_txn item_after
    unconsumed lookup_or lookup counter_handler counter_txn ◌-ℤ◌ ◌+ℤ◌
sold_layers = refl

consume_fifo-Gave_example : Gave wanted two_items sold.items
consume_fifo-Gave_example =
    consume_fifo-Gave (counter_handler sell 9) wanted tt two_items sold (refl, (refl, tt))
      (rice-IsInSync, (salt-IsInSync, tt)) sold-ok

consume_fifo_iff_example :
    (consume_fifo (counter_handler sell 9) tt [] two_items wanted ≡ ok sold)
    ↔ AllGive two_items wanted
consume_fifo_iff_example = consume_fifo_iff (counter_handler sell 9) wanted tt two_items

sell-Writes : Writes sell (counter_handler {D = ℤ} {F = ℕ} sell 9)
unfolding counter_handler counter_txn
sell-Writes s i t q = omega arith

moved-consume_item_example :
    moved sell (consume_item (counter_handler sell 9) rice tt (pos 5)).txns ≡ plus (pos 5)
moved-consume_item_example =
    moved-consume_item sell (counter_handler sell 9) rice tt (pos 5) sell-Writes (refl, (refl, tt))
      rice-IsInSync five-CanGive
