-- ===== src/Verification/Resend.antt =====
-- The wait before a code is sent again.
use general_api.Base.{ℕ, ◌+◌, ◌-◌, ◌≤◌, ◌<◌, String, ◌≡◌, ◌≢◌, Bool, true, some, arith, eq_iff}
use general_api.Verification.{
  VerifyRow, Codes, voided, verify_row, wrong_guess, verify, too_soon, mail_sent, delivers,
  send_code, store_code, wait_left, new_row,
}

-- The fifth wrong guess lifts the wait: before it a new code within a minute is refused, with the
-- seconds left, and after it, at the same instant, a code is sent and can be guessed five times
-- again.
pub send_code-voided :
    (valid_email : String → Bool) (now guessed : ℕ) (email code guess : String) (t : Codes)
    (row : VerifyRow)
    → valid_email email ≡ true
    → t email ≡ some row
    → now < row.sent_at + 60
    → row.attempts ≡ 4
    → guessed ≤ row.expire_at
    → row.code ≢ guess
    → let voided_table = (verify guessed email guess t).1 in
      let resent = send_code valid_email delivers now email code voided_table in
      ((send_code valid_email delivers now email code t).0 ≡ too_soon (row.sent_at + 60 - now + 1))
      × ((verify guessed email guess t).0 ≡ voided)
      × (resent.0 ≡ mail_sent)
      × (resent.1 email ≡ some (new_row now code))
unfolding send_code verify verify_row wrong_guess wait_left store_code
send_code-voided valid_email now guessed email code guess t row v h a b c d =
    rw (h, v) (ground (arith, eq_iff email email, eq_iff row.code guess))
