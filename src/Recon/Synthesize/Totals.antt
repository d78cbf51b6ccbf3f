-- ===== src/Recon/Synthesize/Totals.antt =====
-- The synthesized quantities against the lines that the sessions counted, in units.
use cim_backend.Prelude.{
  ℕ, ◌+◌, ◌≡◌, refl, sym, and_left, ap, inl, inr, ◌==◌, ==_iff, Bool-cases, List, [], ◌∷◌, lookup,
  lookup_or, lookup_or-put, Map, ℤ, pos, ◌+ℤ◌, int_laws, sum_by, sum_by-sort_stable, sort_stable,
  ok, and_then-eq-ok, ok-injective, ltb, if◌then◌else◌,
}
use cim_backend.Decimal.{Decimal}
use cim_backend.Models.Session.{
  ReconciliationRequestItem, SessionPayload, PayloadLine, no_lines, garbled, lines,
}
use cim_backend.Recon.Synthesize.{
  BreakdownEntry, parse_payload, parse_lines, add_line, add_lines, totals_of, new_entry, same_entry,
  add_entry, add_entries, entries_of, session_breakdown, entry_before,
}

module _ {D : Type 0} ⦃dec : Decimal D⦄ (id : ℕ) where
  -- What one line counts of the item.
  abbrev pub line_units : PayloadLine D → ℤ
  line_units l = if l.inventory_item_id == id then dec.units l.quantity else pos 0

  -- What a session counts of the item.
  abbrev pub payload_units : SessionPayload D → ℤ
  payload_units no_lines = pos 0
  payload_units garbled = pos 0
  payload_units (lines ls) = sum_by line_units ls

  abbrev pub session_units : ReconciliationRequestItem D → ℤ
  session_units row = payload_units row.payload

  abbrev pub entry_units : BreakdownEntry D → ℤ
  entry_units e = if e.inventory_item_id == id then dec.units e.quantity else pos 0

  units-add_line :
      (m : Map D) (l : PayloadLine D)
      → dec.units (lookup_or dec.zero_value id (add_line m l))
        ≡ dec.units (lookup_or dec.zero_value id m) +ℤ line_units l
  unfolding add_line
  units-add_line m l = elim (Bool-cases (l.inventory_item_id == id)) [
    | inl same ↦
        let e : l.inventory_item_id ≡ id = (==_iff l.inventory_item_id id).0 same in
        rw (lookup_or-put, same, dec.units-add, e) refl
    | inr other ↦ rw (lookup_or-put, other) (omega int_laws)
  ]

  units-add_lines :
      (m : Map D) (ls : List (PayloadLine D))
      → dec.units (lookup_or dec.zero_value id (add_lines m ls))
        ≡ dec.units (lookup_or dec.zero_value id m) +ℤ sum_by line_units ls
  units-add_lines m [] = omega int_laws
  units-add_lines m (l ∷ ls) =
      rw (units-add_lines (add_line m l) ls, units-add_line m l) (omega int_laws)

  parsed_units :
      (row_id : ℕ) (p : SessionPayload D) (ls : List (PayloadLine D))
      → parse_lines row_id p ≡ ok ls
      → payload_units p ≡ sum_by line_units ls
  parsed_units row_id no_lines ls h = ap (sum_by line_units) (ok-injective h)
  parsed_units row_id garbled ls h = cc
  parsed_units row_id (lines ks) ls h = ap (sum_by line_units) (ok-injective h)

  units-totals_of :
      (m : Map D) (rows : List (ReconciliationRequestItem D)) (totals : Map D)
      → totals_of m rows ≡ ok totals
      → dec.units (lookup_or dec.zero_value id totals)
        ≡ dec.units (lookup_or dec.zero_value id m) +ℤ sum_by session_units rows
  unfolding totals_of
  units-totals_of m [] totals h = rw (← ok-injective h) (omega int_laws)
  units-totals_of m (row ∷ rows) totals h =
      let (ls, parsed, rest) =
        and_then-eq-ok (parse_payload row) (λ ls. totals_of (add_lines m ls) rows) h in
      rw
        (
          units-totals_of (add_lines m ls) rows totals rest,
          units-add_lines m ls,
          parsed_units row.id row.payload ls parsed,
        )
        (omega int_laws)

  entry_units-add :
      (e : BreakdownEntry D) (l : PayloadLine D)
      → l.inventory_item_id ≡ e.inventory_item_id
      → entry_units (record e { quantity = dec.add e.quantity l.quantity })
        ≡ entry_units e +ℤ line_units l
  entry_units-add e l same = elim (Bool-cases (e.inventory_item_id == id)) [
    | inl here ↦ rw (same, here, dec.units-add) refl
    | inr other ↦ rw (same, other) (omega int_laws)
  ]

  entry_units-new :
      (row : ReconciliationRequestItem D) (l : PayloadLine D) (n : ℕ)
      → entry_units (new_entry row l n) ≡ line_units l
  entry_units-new row l n = elim (Bool-cases (l.inventory_item_id == id)) [
    | inl here ↦ rw (here, dec.units-add, dec.units-zero_value) (omega int_laws)
    | inr other ↦ rw other refl
  ]

  units-add_entry :
      (row : ReconciliationRequestItem D) (l : PayloadLine D) (n : ℕ) (es : List (BreakdownEntry D))
      → sum_by entry_units (add_entry row l n es) ≡ sum_by entry_units es +ℤ line_units l
  unfolding add_entry
  units-add_entry row l n [] = rw (entry_units-new row l n) (omega int_laws)
  units-add_entry row l n (e ∷ es) = elim (Bool-cases (same_entry row l e)) [
    | inl same ↦ rw same (
        rw
          (entry_units-add e l
            (sym ((==_iff e.inventory_item_id l.inventory_item_id).0 (and_left _ _ same))))
          (omega int_laws))
    | inr other ↦ rw other (rw (units-add_entry row l (n + 1) es) (omega int_laws))
  ]

  units-add_entries :
      (row : ReconciliationRequestItem D) (es : List (BreakdownEntry D)) (ls : List (PayloadLine D))
      → sum_by entry_units (add_entries row es ls) ≡ sum_by entry_units es +ℤ sum_by line_units ls
  units-add_entries row es [] = omega int_laws
  units-add_entries row es (l ∷ ls) =
      rw (units-add_entries row (add_entry row l 0 es) ls, units-add_entry row l 0 es)
        (omega int_laws)

  units-entries_of :
      (es : List (BreakdownEntry D)) (rows : List (ReconciliationRequestItem D))
      (out : List (BreakdownEntry D))
      → entries_of es rows ≡ ok out
      → sum_by entry_units out ≡ sum_by entry_units es +ℤ sum_by session_units rows
  unfolding entries_of
  units-entries_of es [] out h = rw (← ok-injective h) (omega int_laws)
  units-entries_of es (row ∷ rows) out h =
      let (ls, parsed, rest) =
        and_then-eq-ok (parse_payload row) (λ ls. entries_of (add_entries row es ls) rows) h in
      rw
        (
          units-entries_of (add_entries row es ls) rows out rest,
          units-add_entries row es ls,
          parsed_units row.id row.payload ls parsed,
        )
        (omega int_laws)

module _ {D : Type 0} ⦃dec : Decimal D⦄ where
  -- When the payloads of all sessions decode, the total of an item is the sum of the quantities of
  -- its lines over all sessions, and 0 for an item that no session counted.
  pub totals_of-units :
      (rows : List (ReconciliationRequestItem D)) (totals : Map D) (id : ℕ)
      → totals_of [] rows ≡ ok totals
      → dec.units (lookup_or dec.zero_value id totals) ≡ sum_by (session_units id) rows
  unfolding lookup_or lookup
  totals_of-units rows totals id h =
      rw (units-totals_of id [] rows totals h) (rw dec.units-zero_value (omega int_laws))

  -- When the breakdown of the sessions succeeds, the quantities of its entries for an item add up
  -- to the sum of the quantities of its lines over all sessions.
  pub session_breakdown-units :
      (rows : List (ReconciliationRequestItem D)) (out : List (BreakdownEntry D)) (id : ℕ)
      → session_breakdown rows ≡ ok out
      → sum_by (entry_units id) out ≡ sum_by (session_units id) rows
  unfolding session_breakdown
  session_breakdown-units rows out id h =
      let by_id = sort_stable (λ (a b : ReconciliationRequestItem D). ltb a.id b.id) rows in
      let (es, entries, sorted) =
        and_then-eq-ok (entries_of [] by_id) (λ es. ok (sort_stable entry_before es)) h in
      rw
        (
          ← ok-injective sorted,
          sum_by-sort_stable,
          units-entries_of id [] by_id es entries,
          sum_by-sort_stable,
        )
        (omega int_laws)
