-- ===== src/Codes.antt =====
-- The tables of status codes of internal/gateway/codes.go. A token is the list of its bytes;
-- strings.TrimSpace and strconv.Atoi are arguments.
pub mod Denoted
use general_api.Base.{
  ltb, leb, ◌==◌, if◌then◌else◌, ltb→lt, lt→ltb, leb→le, ==_iff, Bool-cases, Option-cases, if_intro,
  length, length-append, All, All-append, ℤ, pos_part, neg_part, sub_ℕ, ◌+ℤ◌, ◌-ℤ◌, ◌≤ℤ◌, ◌<ℤ◌,
  ltb_ℤ, leb_ℤ, eqb_ℤ, +ℤ_parts, -ℤ_parts, eq_of_parts, int_laws, +ℤ_comm, +ℤ_assoc, +ℤ_zero,
  InRange, in_range, bits64, signed64, wrap64, wrap64-InRange, eqb_ℤ→eq, pos, negsuc, ℕ, zero, suc,
  ◌+◌, ◌-◌, ◌*◌, ◌/◌, ◌%◌, ◌^◌, ◌≤◌, ◌<◌, min, max, String, ◌≡◌, refl, sym, ap, subst, ◌∙◌, ◌≢◌,
  ◌↔◌, ◌⊎◌, inl, inr, Bool, true, false, ◌&&◌, ◌||◌, not, Option, none, some, List, [], ◌∷◌, ◌++◌,
  map, filter, append_assoc, append-nil, arith, str_eq, eq_iff, dec_lt, dec_le, ℕ_discrete,
}

pub record Strings : Type 0 where
  pub trim_space : List ℕ → List ℕ
  pub atoi : List ℕ → Option ℤ

-- The first byte of a token like 5xx.
unfoldable pub wildcard : List ℕ → Option ℕ
wildcard (d ∷ a ∷ b ∷ []) = if a == 120 && b == 120 || a == 88 && b == 88 then some d else none
wildcard tok = none

abbrev pub before : ℕ → Option (List ℕ × List ℕ) → Option (List ℕ × List ℕ)
before c none = none
before c (some (lo, hi)) = some (c ∷ lo, hi)

-- `strings.Cut(tok, "-")`
unfoldable pub cut : List ℕ → Option (List ℕ × List ℕ)
cut [] = none
cut (c ∷ s) = let rest = before c (cut s) in if c == 45 then some ([], s) else rest

-- The n codes from c on.
unfoldable pub count_up : ℕ → ℕ → List ℕ
count_up c zero = []
count_up c (suc n) = c ∷ count_up (c + 1) n

-- `int(tok[0]-'0') * 100`, of a byte.
abbrev pub base_of : ℕ → ℕ
base_of d = (d + 256 - 48) % 256 * 100

unfoldable pub parse_wildcard : ℕ → Option (List ℕ)
parse_wildcard d =
    if ltb (base_of d) 100 || ltb 500 (base_of d) then none else some (count_up (base_of d) 100)

unfoldable pub parse_range : Option ℤ → Option ℤ → Option (List ℕ)
parse_range none h = none
parse_range (some l) none = none
parse_range (some l) (some h) =
    if ltb_ℤ l (pos 100) || ltb_ℤ (pos 599) h || ltb_ℤ h l
    then none
    else some (count_up (pos_part l) (pos_part h - pos_part l + 1))

unfoldable pub parse_single : Option ℤ → Option (List ℕ)
parse_single none = none
parse_single (some c) =
    if ltb_ℤ c (pos 100) || ltb_ℤ (pos 599) c then none else some (pos_part c ∷ [])

abbrev pub parse_numbers : Strings → List ℕ → Option (List ℕ × List ℕ) → Option (List ℕ)
parse_numbers lib tok none = parse_single (lib.atoi tok)
parse_numbers lib tok (some (lo, hi)) = parse_range (lib.atoi lo) (lib.atoi hi)

abbrev pub parse_either : Strings → List ℕ → Option ℕ → Option (List ℕ)
parse_either lib tok (some d) = parse_wildcard d
parse_either lib tok none = parse_numbers lib tok (cut tok)

-- `parseCodeToken`
unfoldable pub parse_code_token : Strings → List ℕ → Option (List ℕ)
parse_code_token lib tok = parse_either lib tok (wildcard tok)

unfoldable pub mark : List ℕ → (ℕ → Bool) → ℕ → Bool
mark [] set = set
mark (c ∷ cs) set = mark cs (λ x. if x == c then true else set x)

abbrev pub mark_some : Option (List ℕ) → (ℕ → Bool) → ℕ → Bool
mark_some none set = set
mark_some (some cs) set = mark cs set

abbrev pub is_blank : List ℕ → Bool
is_blank [] = true
is_blank (c ∷ s) = false

unfoldable pub add_codes : Strings → List (List ℕ) → (ℕ → Bool) → ℕ → Bool
add_codes lib [] set = set
add_codes lib (raw ∷ items) set =
    let tok = lib.trim_space raw in
    add_codes lib items (if is_blank tok then set else mark_some (parse_code_token lib tok) set)

-- `parseCodeSet`
unfoldable pub parse_code_set : Strings → List (List ℕ) → ℕ → Bool
unfolding add_codes
parse_code_set lib items = add_codes lib items (λ c. false)

-- `codeMatch`; a table that is nil matches nothing.
unfoldable pub code_match : Option (ℕ → Bool) → ℕ → Bool
code_match none code = false
code_match (some set) code = set code
