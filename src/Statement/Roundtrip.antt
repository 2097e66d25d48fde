-- ===== src/Statement/Roundtrip.antt =====
-- A CSV file is read back as the lines that were written.
use general_api.Base.{
  ◌==◌, if◌then◌else◌, ==_iff, Bool-cases, All, ℕ, ◌≡◌, refl, sym, ap, ◌∙◌, ◌⊎◌, inl, inr, Bool,
  true, false, ◌&&◌, ◌||◌, not, Option, none, some, List, [], ◌∷◌, ◌++◌, append_assoc, append-nil,
  arith,
}
use general_api.Statement.{
  Text, has_code, contains_any, escape_csv, csv_field, csv_rest, csv_fields, csv_line, csv_lines,
  csv_file,
}

-- A strict reader in the manner of RFC 4180. `closed`: after a quote within quotes.
pub data Mode : Type 0 where
  line_start field_start plain quoted closed : Mode

pub data Act : Type 0 where
  field_done line_done bad : Act
  keep turn : Mode → Act

act_plain : ℕ → Act
act_plain c =
    if c == 44
    then field_done
    else if c == 10
    then line_done
    else if c == 34 || c == 13
    then bad
    else keep plain

act_start : ℕ → Act
unfolding act_plain
act_start c = if c == 34 then turn quoted else act_plain c

act_quoted : ℕ → Act
act_quoted c = if c == 34 then turn closed else keep quoted

act_closed : ℕ → Act
act_closed c =
    if c == 44
    then field_done
    else if c == 10
    then line_done
    else if c == 34
    then keep quoted
    else bad

act : Mode → ℕ → Act
unfolding act_plain act_start act_quoted act_closed
act line_start c = act_start c
act field_start c = act_start c
act plain c = act_plain c
act quoted c = act_quoted c
act closed c = act_closed c

add_line : List Text → Option (List (List Text)) → Option (List (List Text))
add_line l none = none
add_line l (some ls) = some (l ∷ ls)

read_end : Mode → Option (List (List Text))
read_end line_start = some []
read_end m = none

-- The rest of a file: the field so far, the fields before it on its line.
read : Mode → Text → List Text → Text → Option (List (List Text))
read m f row [] = read_end m
read m f row (c ∷ t) = elim (act m c) [
  | field_done ↦ read field_start [] (row ++ f ∷ []) t
  | line_done ↦ add_line (row ++ f ∷ []) (read line_start [] [] t)
  | bad ↦ none
  | keep m' ↦ read m' (f ++ c ∷ []) row t
  | turn m' ↦ read m' f row t
]

pub read_csv : Text → Option (List (List Text))
read_csv [] = none
read_csv (c ∷ t) = if c == 65279 then read line_start [] [] t else none

module _ (m : Mode) (f : Text) (row : List Text) (c : ℕ) (t : Text) where
  unfold_keep : (m' : Mode) → act m c ≡ keep m' → read m f row (c ∷ t) ≡ read m' (f ++ c ∷ []) row t
  unfolding read
  unfold_keep m' e = rw (e, read) refl

  unfold_turn : (m' : Mode) → act m c ≡ turn m' → read m f row (c ∷ t) ≡ read m' f row t
  unfolding read
  unfold_turn m' e = rw (e, read) refl

  unfold_field : act m c ≡ field_done → read m f row (c ∷ t) ≡ read field_start [] (row ++ f ∷ []) t
  unfolding read
  unfold_field e = rw (e, read) refl

  unfold_line :
      act m c ≡ line_done
      → read m f row (c ∷ t) ≡ add_line (row ++ f ∷ []) (read line_start [] [] t)
  unfolding read
  unfold_line e = rw (e, read) refl

quote : act quoted 34 ≡ turn closed
unfolding act
quote = refl

double : act closed 34 ≡ keep quoted
unfolding act
double = refl

inside : (c : ℕ) → c == 34 ≡ false → act quoted c ≡ keep quoted
unfolding act
inside c e = ap (λ b. if b then turn closed else keep quoted) e

escape_at :
    (c : ℕ) (s : Text) (b : Bool)
    → c == 34 ≡ b
    → escape_csv (c ∷ s) ≡ (if b then 34 ∷ 34 ∷ escape_csv s else c ∷ escape_csv s)
unfolding escape_csv
escape_at c s b e = ap (λ b. if b then 34 ∷ 34 ∷ escape_csv s else c ∷ escape_csv s) e

-- Within quotes.
reads_escaped :
    (s f : Text) (row : List Text) (t : Text)
    → read quoted f row (escape_csv s ++ 34 ∷ t) ≡ read closed (f ++ s) row t
reads_escaped [] f row t =
    ap (λ x. read quoted f row (x ++ 34 ∷ t)) nothing
    ∙ unfold_turn quoted f row 34 t closed quote
    ∙ ap (λ g. read closed g row t) (sym (append-nil f))
  where
    nothing : escape_csv [] ≡ []
    nothing = unfold escape_csv in refl
reads_escaped (c ∷ s) f row t =
    let more = reads_escaped s (f ++ c ∷ []) row t in
    let joined = ap (λ g. read closed g row t) (append_assoc f (c ∷ []) s) in
    elim (Bool-cases (c == 34)) [
      | inl e ↦
          let same = (==_iff c 34).0 e in
          ap (λ x. read quoted f row (x ++ 34 ∷ t)) (escape_at c s true e)
          ∙ unfold_turn quoted f row 34 (34 ∷ (escape_csv s ++ 34 ∷ t)) closed quote
          ∙ unfold_keep closed f row 34 (escape_csv s ++ 34 ∷ t) quoted double
          ∙ ap (λ x. read quoted (f ++ x ∷ []) row (escape_csv s ++ 34 ∷ t)) (sym same)
          ∙ more
          ∙ joined
      | inr e ↦
          ap (λ x. read quoted f row (x ++ 34 ∷ t)) (escape_at c s false e)
          ∙ unfold_keep quoted f row c (escape_csv s ++ 34 ∷ t) quoted (inside c e)
          ∙ more
          ∙ joined
    ]

abbrev is_safe : ℕ → Bool
is_safe c = not (c == 44) && not (c == 34) && not (c == 10) && not (c == 13)

outside :
    (m : Mode) (c : ℕ)
    → is_safe c ≡ true
    → (m ≡ plain) ⊎ ((m ≡ field_start) ⊎ (m ≡ line_start))
    → act m c ≡ keep plain
unfolding act
outside m c e (inl p) = rw p (ground arith)
outside m c e (inr (inl p)) = rw p (ground arith)
outside m c e (inr (inr p)) = rw p (ground arith)

-- A text without special codes.
abbrev AllSafe : Text → Type 0
AllSafe s = All (λ c. is_safe c ≡ true) s

reads_plain :
    (s f : Text) (row : List Text) (t : Text)
    → AllSafe s
    → read plain f row (s ++ t) ≡ read plain (f ++ s) row t
reads_plain [] f row t a = ap (λ g. read plain g row t) (sym (append-nil f))
reads_plain (c ∷ s) f row t a =
    unfold_keep plain f row c (s ++ t) plain (outside plain c a.0 (inl refl))
    ∙ reads_plain s (f ++ c ∷ []) row t a.1
    ∙ ap (λ g. read plain g row t) (append_assoc f (c ∷ []) s)

safe_of : (s : Text) → contains_any s (44 ∷ 34 ∷ 10 ∷ 13 ∷ []) ≡ false → AllSafe s
unfolding contains_any has_code
safe_of [] e = tt
safe_of (c ∷ s) e = (ground arith, safe_of s (ground arith))

-- The modes in which a field may end, between lines and fields included.
abbrev ends_field : Mode → Bool
ends_field quoted = false
ends_field m = true

comma : (m : Mode) → ends_field m ≡ true → act m 44 ≡ field_done
unfolding act
comma line_start e = refl
comma field_start e = refl
comma plain e = refl
comma quoted e = cc
comma closed e = refl

newline : (m : Mode) → ends_field m ≡ true → act m 10 ≡ line_done
unfolding act
newline line_start e = refl
newline field_start e = refl
newline plain e = refl
newline quoted e = cc
newline closed e = refl

record ReadAs (m : Mode) (row : List Text) (s : Text) : Type 0 where
  after : Mode
  may_end : ends_field after ≡ true
  reads : (t : Text) → read m [] row (csv_field s ++ t) ≡ read after s row t

opens :
    (m : Mode)
    → (m ≡ field_start) ⊎ (m ≡ line_start)
    → (act m 34 ≡ turn quoted) × (ends_field m ≡ true)
unfolding act
opens m (inl p) = rw p (refl, refl)
opens m (inr p) = rw p (refl, refl)

reads_safe :
    (m : Mode) (row : List Text) (s : Text)
    → (m ≡ field_start) ⊎ (m ≡ line_start)
    → AllSafe s
    → (m' : Mode) × (ends_field m' ≡ true) × ((t : Text) → read m [] row (s ++ t) ≡ read m' s row t)
reads_safe m row [] o a = (m, (opens m o).1, λ t. refl)
reads_safe m row (c ∷ s) o a = (
  plain,
  refl,
  λ t.
      unfold_keep m [] row c (s ++ t) plain (outside m c a.0 (inr o))
      ∙ reads_plain s (c ∷ []) row t a.1,
)

reads_field :
    (m : Mode) (row : List Text) (s : Text) → (m ≡ field_start) ⊎ (m ≡ line_start) → ReadAs m row s
reads_field m row s o = elim (Bool-cases (contains_any s (44 ∷ 34 ∷ 10 ∷ 13 ∷ []))) [
  | inl e ↦ record {
    after = closed;
    may_end = refl;
    reads = λ t.
        ap (λ x. read m [] row (x ++ t)) (field_at true e)
        ∙ unfold_turn m [] row 34 ((escape_csv s ++ 34 ∷ []) ++ t) quoted (opens m o).0
        ∙ ap (read quoted [] row) (append_assoc (escape_csv s) (34 ∷ []) t)
        ∙ reads_escaped s [] row t;
  }
  | inr e ↦
      let r = reads_safe m row s o (safe_of s e) in
      record {
        after = r.0;
        may_end = r.1;
        reads = λ t. ap (λ x. read m [] row (x ++ t)) (field_at false e) ∙ r.2 t;
      }
]
  where
    field_at :
        (b : Bool)
        → contains_any s (44 ∷ 34 ∷ 10 ∷ 13 ∷ []) ≡ b
        → csv_field s ≡ (if b then 34 ∷ (escape_csv s ++ 34 ∷ []) else s)
    field_at b e = unfold csv_field in ap (λ b. if b then 34 ∷ (escape_csv s ++ 34 ∷ []) else s) e

-- From the end of a field to that of its line.
reads_rest :
    (ss : List Text) (m : Mode) (f : Text) (row : List Text) (t : Text)
    → ends_field m ≡ true
    → read m f row (csv_rest ss ++ 10 ∷ t) ≡ add_line (row ++ f ∷ ss) (read line_start [] [] t)
unfolding csv_rest
reads_rest [] m f row t e = unfold_line m f row 10 t (newline m e)
reads_rest (s ∷ ss) m f row t e =
    let r = reads_field field_start (row ++ f ∷ []) s (inl refl) in
    unfold_field m f row 44 ((csv_field s ++ csv_rest ss) ++ 10 ∷ t) (comma m e)
    ∙ ap (read field_start [] (row ++ f ∷ [])) (append_assoc (csv_field s) (csv_rest ss) (10 ∷ t))
    ∙ r.reads (csv_rest ss ++ 10 ∷ t)
    ∙ reads_rest ss r.after s (row ++ f ∷ []) t r.may_end
    ∙ ap (λ l. add_line l (read line_start [] [] t)) (append_assoc row (f ∷ []) (s ∷ ss))

-- A line has a field at least.
abbrev pub HasField : List Text → Type 0
HasField [] = ⊥
HasField (s ∷ ss) = Unit {0}

reads_line :
    (l : List Text) (t : Text)
    → HasField l
    → read line_start [] [] (csv_line l ++ t) ≡ add_line l (read line_start [] [] t)
unfolding csv_line csv_fields
reads_line [] t h = absurd h
reads_line (s ∷ ss) t h =
    let r = reads_field line_start [] s (inr refl) in
    ap (read line_start [] []) (
      append_assoc (csv_field s ++ csv_rest ss) (10 ∷ []) t
      ∙ append_assoc (csv_field s) (csv_rest ss) (10 ∷ t))
    ∙ r.reads (csv_rest ss ++ 10 ∷ t)
    ∙ reads_rest ss r.after s [] t r.may_end

reads_lines :
    (ls : List (List Text)) → All HasField ls → read line_start [] [] (csv_lines ls) ≡ some ls
unfolding csv_lines read add_line read_end
reads_lines [] h = refl
reads_lines (l ∷ ls) h = reads_line l (csv_lines ls) h.0 ∙ ap (add_line l) (reads_lines ls h.1)

-- A file whose lines have a field each at least is read back by a strict reader of CSV as the
-- lines that were written, whatever commas, quotes and ends of lines the fields have.
pub csv_file-roundtrip :
    (ls : List (List Text)) → All HasField ls → read_csv (csv_file ls) ≡ some ls
unfolding read_csv csv_file
csv_file-roundtrip ls h = reads_lines ls h
