-- ===== src/Verification.antt =====
-- internal/service/verification.go: the codes that are mailed to an address, their resending, and
-- their use. Addresses are taken trimmed and in lower case; the format of an address, the clock,
-- the random code and the mail server's answer are arguments.
pub mod Guesses
pub mod Resend
use general_api.Base.{
  ltb, leb, ◌==◌, if◌then◌else◌, ltb→lt, lt→ltb, leb→le, ==_iff, Bool-cases, Option-cases, if_intro,
  length, length-append, All, All-append, ℤ, pos_part, neg_part, sub_ℕ, ◌+ℤ◌, ◌-ℤ◌, ◌≤ℤ◌, ◌<ℤ◌,
  ltb_ℤ, leb_ℤ, eqb_ℤ, +ℤ_parts, -ℤ_parts, eq_of_parts, int_laws, +ℤ_comm, +ℤ_assoc, +ℤ_zero,
  InRange, in_range, bits64, signed64, wrap64, wrap64-InRange, eqb_ℤ→eq, pos, negsuc, ℕ, zero, suc,
  ◌+◌, ◌-◌, ◌*◌, ◌/◌, ◌%◌, ◌^◌, ◌≤◌, ◌<◌, min, max, String, ◌≡◌, refl, sym, ap, subst, ◌∙◌, ◌≢◌,
  ◌↔◌, ◌⊎◌, inl, inr, Bool, true, false, ◌&&◌, ◌||◌, not, Option, none, some, List, [], ◌∷◌, ◌++◌,
  map, filter, append_assoc, append-nil, arith, str_eq, eq_iff, dec_lt, dec_le, ℕ_discrete,
}

abbrev pub code_ttl : ℕ
code_ttl = 300

abbrev pub resend_window : ℕ
resend_window = 60

abbrev pub max_attempts : ℕ
max_attempts = 5

-- `verifyRow`; the table has one row for each address.
pub record VerifyRow : Type 0 where
  pub code : String
  pub expire_at : ℕ
  pub sent_at : ℕ
  pub attempts : ℕ

abbrev pub Codes : Type 0
Codes = String → Option VerifyRow

abbrev pub put_code : String → Option VerifyRow → Codes → Codes
put_code email row t e = if str_eq e email then row else t e

-- DELETE … WHERE expire_at < ?
pub unexpired : ℕ → Option VerifyRow → Option VerifyRow
unexpired now none = none
unexpired now (some row) = if ltb row.expire_at now then none else some row

pub data Sent : Type 0 where
  bad_email mail_sent mail_failed : Sent
  too_soon : ℕ → Sent
  dev_code : String → Sent

-- Without a server the code is returned; else a mail is sent or fails.
pub data Smtp : Type 0 where
  unset delivers refuses : Smtp

abbrev pub new_row : ℕ → String → VerifyRow
new_row now code = record { code = code; expire_at = now + code_ttl; sent_at = now; attempts = 0 }

pub store_code : Smtp → ℕ → String → String → Codes → Sent × Codes
unfolding unexpired
store_code unset now email code t =
    (dev_code code, put_code email (some (new_row now code)) (λ e. unexpired now (t e)))
store_code delivers now email code t =
    (mail_sent, put_code email (some (new_row now code)) (λ e. unexpired now (t e)))
store_code refuses now email code t = (
  mail_failed,
  put_code email none (put_code email (some (new_row now code)) (λ e. unexpired now (t e))),
)

-- The seconds that a resend has to wait, from a row that is too young.
pub wait_left : ℕ → Option VerifyRow → Option ℕ
wait_left now none = none
wait_left now (some row) =
    if ltb now (row.sent_at + resend_window)
    then some (row.sent_at + resend_window - now + 1)
    else none

-- `SendCode`
unfoldable pub send_code : (String → Bool) → Smtp → ℕ → String → String → Codes → Sent × Codes
unfolding wait_left store_code
send_code valid_email smtp now email code t =
    if not (valid_email email) then (bad_email, t) else elim (wait_left now (t email)) [
      | some left ↦ (too_soon left, t)
      | none ↦ store_code smtp now email code t
    ]

pub data Answer : Type 0 where
  no_code expired wrong voided accepted : Answer

-- A wrong guess counts as long as fewer than five did, and the fifth voids the code.
pub wrong_guess : String → VerifyRow → Codes → Answer × Codes
wrong_guess email row t =
    if ltb row.attempts max_attempts
    then (let row' = record row { attempts = row.attempts + 1 } in
        if leb max_attempts row'.attempts
        then (voided, put_code email none t)
        else (wrong, put_code email (some row') t))
    else (wrong, t)

pub verify_row : ℕ → String → String → Option VerifyRow → Codes → Answer × Codes
unfolding wrong_guess
verify_row now email code none t = (no_code, t)
verify_row now email code (some row) t =
    if ltb row.expire_at now
    then (expired, put_code email none t)
    else if not (str_eq row.code code)
    then wrong_guess email row t
    else (accepted, put_code email none t)

-- `Verify`, one call after another.
unfoldable pub verify : ℕ → String → String → Codes → Answer × Codes
unfolding verify_row
verify now email code t = verify_row now email code (t email) t

pub record Guess : Type 0 where
  pub at : ℕ
  pub code : String

unfoldable pub verify_all : String → List Guess → Codes → List Answer × Codes
unfolding verify
verify_all email [] t = ([], t)
verify_all email (g ∷ gs) t =
    let r = verify g.at email g.code t in
    let rest = verify_all email gs r.1 in (r.0 ∷ rest.0, rest.1)
