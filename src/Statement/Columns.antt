-- ===== src/Statement/Columns.antt =====
-- The columns of the details of a statement.
use general_api.Base.{
  length, All, ℤ, ℕ, zero, suc, ◌+◌, ◌≡◌, refl, Bool, true, false, Option, none, some, List, [],
  ◌∷◌,
}
use general_api.Statement.{
  Text, codes, Format, BillDetailRow, details_header, details_row, details_rows, details_total,
}

abbrev pub field_at : ℕ → List Text → Option Text
field_at i [] = none
field_at zero (s ∷ ss) = some s
field_at (suc i) (s ∷ ss) = field_at i ss

row_length :
    (f : Format) (include_vendor : Bool) (r : BillDetailRow)
    → length (details_row f include_vendor r) ≡ length (details_header include_vendor)
unfolding details_row details_header
row_length f true r = refl
row_length f false r = refl

rows_length :
    (f : Format) (include_vendor : Bool) (rows : List BillDetailRow)
    → All
        (λ l. length l ≡ length (details_header include_vendor))
        (details_rows f include_vendor rows)
unfolding details_rows
rows_length f include_vendor [] = tt
rows_length f include_vendor (r ∷ rs) =
    (row_length f include_vendor r, rows_length f include_vendor rs)

-- In the details of a statement each row has a field for each column, but the total has one field
-- more than the header, and its amount in yuan stands in the eighth column, that of the points.
pub details_shifted :
    (f : Format) (include_vendor : Bool) (rows : List BillDetailRow) (total : ℤ)
    → All
        (λ l. length l ≡ length (details_header include_vendor))
        (details_rows f include_vendor rows)
      × (length (details_total f include_vendor total) ≡ length (details_header include_vendor) + 1)
      × (field_at 7 (details_header include_vendor) ≡ some (codes "金额（点数）"))
      × (field_at 7 (details_total f include_vendor total) ≡ some (f.yuan total))
unfolding details_total details_header
details_shifted f true rows total = (rows_length f true rows, refl, refl, refl)
details_shifted f false rows total = (rows_length f false rows, refl, refl, refl)
