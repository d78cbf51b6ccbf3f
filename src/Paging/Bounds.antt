-- ===== src/Paging/Bounds.antt =====
-- Every page lies within the rows, and every row on a page.
use cim_backend.Prelude.{
  ℕ, zero, suc, ◌+◌, ◌-◌, ◌*◌, ◌≤◌, ◌<◌, ◌≡◌, refl, ap, ◌↔◌, ℤ, pos, negsuc, inl, inr, Bool-cases,
  ◌==◌, ltb, ◌||◌, true, false, none, some, ◌∙◌, if◌then◌else◌, arith,
}
use Prim.Native.Nat.{◌/◌, ◌%◌, ◌^◌}
use native.Mathlib.Nat.{le-div_iff_mul-le, lt-div-mul-add, div-mul-le_self}
use cim_backend.Paging.{
  positive_or, capped, ListParams, validate_and_set_defaults, int64, get_offset, total_pages,
  normalize_page_limit, timeline_window,
}

positive_or-positive : (default : ℕ) (n : ℤ) → 1 ≤ default → 1 ≤ positive_or default n
positive_or-positive default (pos n) h = ground arith
positive_or-positive default (negsuc n) h = h

capped-bounds : (most n : ℕ) → 1 ≤ most → 1 ≤ n → (1 ≤ capped most n) × (capped most n ≤ most)
capped-bounds most n hm hn = ground arith

-- A page is one of the pages exactly when its first row is one of the rows.
pub total_pages_iff :
    (total limit page : ℕ)
    → 1 ≤ limit
    → 1 ≤ page
    → (page ≤ total_pages total limit) ↔ ((page - 1) * limit < total)
unfolding total_pages
total_pages_iff total limit zero hl hp = absurd (omega arith)
total_pages_iff total limit (suc p) hl hp =
    let d = le-div_iff_mul-le {k = limit} {x = suc p} {y = total + limit - 1} (omega arith) in
    let whole : suc p * limit ≡ p * limit + limit = grind arith in
    let before : (suc p - 1) * limit ≡ p * limit = ap (λ n. n * limit) (omega arith) in
    (
      λ h. let e = d.0 h in omega (arith, e, whole, before),
      λ h. d.1 (omega (arith, h, whole, before)),
    )

int64-small : (n : ℕ) → n < 2 ^ 63 → int64 n ≡ pos n
unfolding int64
int64-small n h =
    let whole : n % 2 ^ 64 ≡ n = omega (arith, h) in
    let low : ltb n (2 ^ 63) ≡ true = ground (arith, h) in rw (whole, low) refl

-- The requested page and limit, whatever they are, become a page from 1 on and a limit from 1 to
-- 100; and where the product does not overflow, the offset is that of the rows before the page.
pub validate_and_set_defaults-bounds :
    (p : ListParams)
    → let q = validate_and_set_defaults p in
      (1 ≤ q.page)
      × (1 ≤ q.limit)
      × (q.limit ≤ 100)
      × ((q.page - 1) * q.limit < 2 ^ 63 → get_offset q ≡ pos ((q.page - 1) * q.limit))
unfolding validate_and_set_defaults get_offset
validate_and_set_defaults-bounds p =
    let page = positive_or-positive 1 p.page (omega arith) in
    let (low, high) =
      capped-bounds 100 (positive_or 20 p.limit) (omega arith)
        (positive_or-positive 20 p.limit (omega arith)) in
    (page, low, high, int64-small _)

-- A page of the timeline that is not empty has between 1 and 200 rows and begins at one of the rows.
pub timeline_window-bounds :
    (page limit : ℤ) (total offset count : ℕ)
    → timeline_window page limit total ≡ some (offset, count)
    → (offset < total) × (1 ≤ count) × (count ≤ 200)
unfolding timeline_window normalize_page_limit
timeline_window-bounds page limit total offset count h =
    let p = positive_or 1 page in
    let l = capped 200 (positive_or 50 limit) in
    let page_ok = positive_or-positive 1 page (omega arith) in
    let (low, high) =
      capped-bounds 200 (positive_or 50 limit) (omega arith)
        (positive_or-positive 50 limit (omega arith)) in
    elim (Bool-cases (total == 0 || ltb (total_pages total l) p)) [
      | inl empty ↦ absurd (cc (rw empty at h))
      | inr live ↦
          let h1 = rw live at h in
          let e : (p - 1) * l ≡ offset = cc in
          let f : l ≡ count = cc in
          let within : (p - 1) * l < total =
            (total_pages_iff total l p low page_ok).0 (ground arith) in
          (omega (arith, e, within), omega (arith, f), omega (arith, f))
    ]

timeline_window-page :
    (page limit : ℤ) (total p : ℕ)
    → positive_or 1 page ≡ p
    → (total == 0 || ltb (total_pages total (capped 200 (positive_or 50 limit))) p) ≡ false
    → let l = capped 200 (positive_or 50 limit) in
      timeline_window page limit total ≡ some ((p - 1) * l, l)
unfolding timeline_window normalize_page_limit
timeline_window-page page limit total p e live =
    let l = capped 200 (positive_or 50 limit) in
    ap (λ q. if total == 0 || ltb (total_pages total l) q then none else some ((q - 1) * l, l)) e
    ∙ rw live refl

-- Every row of the timeline is on some page, whatever the requested limit.
pub timeline_window-covers :
    (limit : ℤ) (total row : ℕ)
    → row < total
    → (page : ℕ) × (offset : ℕ) × (count : ℕ) × (timeline_window (pos page) limit total
        ≡ some (offset, count))
      × (offset ≤ row)
      × (row < offset + count)
unfolding timeline_window normalize_page_limit
timeline_window-covers limit total row h =
    let l = capped 200 (positive_or 50 limit) in
    let (low, high) =
      capped-bounds 200 (positive_or 50 limit) (omega arith)
        (positive_or-positive 50 limit (omega arith)) in
    let n = row / l in
    let start = div-mul-le_self row l in
    let end = lt-div-mul-add {a = row} {b = l} (omega arith) in
    let within : suc n ≤ total_pages total l =
      (total_pages_iff total l (suc n) low (omega arith)).1 (
        let before : (suc n - 1) * l ≡ n * l = ap (λ k. k * l) (omega arith) in
        omega (arith, start, before, h)) in
    let live : (total == 0 || ltb (total_pages total l) (suc n)) ≡ false = ground arith in
    let before : (suc n - 1) * l ≡ n * l = ap (λ k. k * l) (omega arith) in
    (
      suc n,
      n * l,
      l,
      timeline_window-page (pos (suc n)) limit total (suc n) (ground arith) live
          ∙ ap (λ k. some (k, l)) before,
      start,
      end,
    )
