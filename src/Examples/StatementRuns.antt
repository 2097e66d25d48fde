-- ===== src/Examples/StatementRuns.antt =====
-- A file of two lines, and the details of a month.
use general_api.Base.{length, All, pos, ◌+◌, ◌≡◌, false, none, some, List, [], ◌∷◌}
use general_api.Statement.{
  Text, codes, Format, BillDetailRow, csv_file, details_header, details_rows, details_total,
}
use general_api.Statement.Roundtrip.{read_csv, csv_file-roundtrip}
use general_api.Statement.Columns.{field_at, details_shifted}

-- A quote, a comma and an empty field.
abbrev sheet : List (List Text)
sheet = (codes "a\"b" ∷ codes "c,d" ∷ []) ∷ ([] ∷ []) ∷ []

csv_file-roundtrip_example : read_csv (csv_file sheet) ≡ some sheet
csv_file-roundtrip_example = csv_file-roundtrip sheet (tt, (tt, tt))

abbrev tagged : Format
tagged = record { i64 = λ n. codes "p"; yuan = λ n. codes "y" }

abbrev monday : BillDetailRow
monday = record {
  day = codes "2026-09-01";
  model_name = codes "m";
  cost_center_id = none;
  cost_center_name = [];
  requests = pos 1;
  prompt_tokens = pos 2;
  completion_tokens = pos 3;
  cost = pos 4;
  vendor_cost = pos 1;
  margin = pos 3;
}

details_shifted_example :
    All (λ l. length l ≡ length (details_header false)) (details_rows tagged false (monday ∷ []))
    × (length (details_total tagged false (pos 4)) ≡ length (details_header false) + 1)
    × (field_at 7 (details_header false) ≡ some (codes "金额（点数）"))
    × (field_at 7 (details_total tagged false (pos 4)) ≡ some (codes "y"))
details_shifted_example = details_shifted tagged false (monday ∷ []) (pos 4)
