-- ===== src/Statement.antt =====
-- The statement of internal/service/billing.go as a CSV file: the writer of a line in
-- WriteStatementCSV with containsAny and escapeCSV, and the lines of the details. A text is the
-- list of its code points; how numbers are written is an argument.
pub mod Roundtrip
pub mod Columns
use general_api.Base.{
  ltb, leb, ◌==◌, if◌then◌else◌, ltb→lt, lt→ltb, leb→le, ==_iff, Bool-cases, Option-cases, if_intro,
  length, length-append, All, All-append, ℤ, pos_part, neg_part, sub_ℕ, ◌+ℤ◌, ◌-ℤ◌, ◌≤ℤ◌, ◌<ℤ◌,
  ltb_ℤ, leb_ℤ, eqb_ℤ, +ℤ_parts, -ℤ_parts, eq_of_parts, int_laws, +ℤ_comm, +ℤ_assoc, +ℤ_zero,
  InRange, in_range, bits64, signed64, wrap64, wrap64-InRange, eqb_ℤ→eq, pos, negsuc, ℕ, zero, suc,
  ◌+◌, ◌-◌, ◌*◌, ◌/◌, ◌%◌, ◌^◌, ◌≤◌, ◌<◌, min, max, String, ◌≡◌, refl, sym, ap, subst, ◌∙◌, ◌≢◌,
  ◌↔◌, ◌⊎◌, inl, inr, Bool, true, false, ◌&&◌, ◌||◌, not, Option, none, some, List, [], ◌∷◌, ◌++◌,
  map, filter, append_assoc, append-nil, arith, str_eq, eq_iff, dec_lt, dec_le, ℕ_discrete,
}
use Prim.Native.Char.{code}

abbrev pub Text : Type 0
Text = List ℕ

abbrev pub codes : String → Text
codes String.[] = []
codes (String.◌∷◌ c s) = code c ∷ codes s

has_code : ℕ → Text → Bool
has_code r [] = false
has_code r (c ∷ s) = c == r || has_code r s

-- `containsAny`
unfoldable pub contains_any : Text → List ℕ → Bool
unfolding has_code
contains_any s [] = false
contains_any s (r ∷ set) = has_code r s || contains_any s set

-- `escapeCSV`
unfoldable pub escape_csv : Text → Text
escape_csv [] = []
escape_csv (r ∷ s) = let rest = escape_csv s in if r == 34 then 34 ∷ 34 ∷ rest else r ∷ rest

-- A field in quotes, if it has a comma, a quote or the end of a line.
unfoldable pub csv_field : Text → Text
unfolding contains_any
csv_field s = if contains_any s (44 ∷ 34 ∷ 10 ∷ 13 ∷ []) then 34 ∷ (escape_csv s ++ 34 ∷ []) else s

pub csv_rest : List Text → Text
csv_rest [] = []
csv_rest (s ∷ ss) = 44 ∷ (csv_field s ++ csv_rest ss)

pub csv_fields : List Text → Text
unfolding csv_rest
csv_fields [] = []
csv_fields (s ∷ ss) = csv_field s ++ csv_rest ss

-- `line`
unfoldable pub csv_line : List Text → Text
unfolding csv_fields
csv_line ss = csv_fields ss ++ 10 ∷ []

pub csv_lines : List (List Text) → Text
unfolding csv_line
csv_lines [] = []
csv_lines (l ∷ ls) = csv_line l ++ csv_lines ls

-- The file, with its mark of UTF-8.
unfoldable pub csv_file : List (List Text) → Text
unfolding csv_lines
csv_file ls = 65279 ∷ csv_lines ls

-- How points are written, and in yuan.
pub record Format : Type 0 where
  pub i64 : ℤ → Text
  pub yuan : ℤ → Text

pub record BillDetailRow : Type 0 where
  pub day : Text
  pub model_name : Text
  pub cost_center_id : Option ℕ
  pub cost_center_name : Text
  pub requests : ℤ
  pub prompt_tokens : ℤ
  pub completion_tokens : ℤ
  pub cost : ℤ
  pub vendor_cost : ℤ
  pub margin : ℤ

unfoldable pub details_header : Bool → List Text
details_header include_vendor =
    codes "日期"
    ∷ codes "模型"
    ∷ codes "成本中心"
    ∷ codes "请求数"
    ∷ codes "输入tokens"
    ∷ codes "输出tokens"
    ∷ codes "金额（元）"
    ∷ codes "金额（点数）"
    ∷ (if include_vendor
        then codes "厂商成本（元）" ∷ codes "厂商成本（点数）" ∷ codes "毛利（元）" ∷ codes "毛利（点数）" ∷ []
        else [])

abbrev pub center_of : BillDetailRow → Text
center_of r = elim r.cost_center_id [ none ↦ codes "未归集" | some id ↦ r.cost_center_name ]

unfoldable pub details_row : Format → Bool → BillDetailRow → List Text
details_row f include_vendor r =
    r.day
    ∷ r.model_name
    ∷ center_of r
    ∷ f.i64 r.requests
    ∷ f.i64 r.prompt_tokens
    ∷ f.i64 r.completion_tokens
    ∷ f.yuan r.cost
    ∷ f.i64 r.cost
    ∷ (if include_vendor
        then f.yuan r.vendor_cost ∷ f.i64 r.vendor_cost ∷ f.yuan r.margin ∷ f.i64 r.margin ∷ []
        else [])

unfoldable pub details_total : Format → Bool → ℤ → List Text
details_total f include_vendor total =
    codes "合计"
    ∷ []
    ∷ []
    ∷ []
    ∷ []
    ∷ []
    ∷ []
    ∷ f.yuan total
    ∷ f.i64 total
    ∷ (if include_vendor then [] ∷ [] ∷ [] ∷ [] ∷ [] else [])

pub details_rows : Format → Bool → List BillDetailRow → List (List Text)
unfolding details_row
details_rows f include_vendor [] = []
details_rows f include_vendor (r ∷ rs) =
    details_row f include_vendor r ∷ details_rows f include_vendor rs

-- The last lines of the file: the header of the details, a line for each row, and the total.
unfoldable pub details : Format → Bool → List BillDetailRow → ℤ → List (List Text)
unfolding details_header details_rows details_total
details f include_vendor rows total =
    details_header include_vendor
    ∷ (details_rows f include_vendor rows ++ details_total f include_vendor total ∷ [])
