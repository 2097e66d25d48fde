-- ===== src/Quota/Overdraft.antt =====
-- How far calls that overlap can overdraw an organisation: each is admitted by `Precheck` and
-- charged by `Settle` after its response, and others run in between.
use general_api.Base.{
  ℤ, ◌+ℤ◌, ◌≤ℤ◌, ◌<ℤ◌, int_laws, pos, ℕ, ◌+◌, ◌-◌, ◌*◌, ◌≤◌, ◌<◌, String, ◌≡◌, refl, ap, ◌∙◌, arith,
}
use general_api.Model.{Org, User}
use general_api.Quota.Store.{ok}
use general_api.Quota.{precheck_row, charge_org, stop_in_arrears}
use general_api.Quota.Admission.{precheck_row-iff_HasQuota}

-- The organisation and the number of its calls that are admitted and not yet settled.
pub record Traffic : Type 0 where
  pub org : Org
  pub in_flight : ℕ

-- At most `n` calls at once, each of at most `c` points.
pub data Step (n c : ℕ) : Traffic → Traffic → Type 0 where
  admits :
      (t : Traffic) (period : String) (u : User)
      → precheck_row period u t.org ≡ ok tt
      → t.in_flight < n
      → Step n c t (record t { in_flight = t.in_flight + 1 })
  charges :
      (t : Traffic) (now : ℕ) (period : String) (cost : ℤ) (o : Org)
      → 0 < t.in_flight
      → cost ≤ℤ pos c
      → charge_org now period cost t.org ≡ ok o
      → Step n c t (record { org = stop_in_arrears now o; in_flight = t.in_flight - 1 })
  -- A call with no cost, or one whose settlement failed.
  drops : (t : Traffic) → 0 < t.in_flight → Step n c t (record t { in_flight = t.in_flight - 1 })

pub data Reach (n c : ℕ) (t : Traffic) : Traffic → Type 0 where
  start : Reach n c t t
  after : {t' t'' : Traffic} → Reach n c t t' → Step n c t' t'' → Reach n c t t''

-- What is used and what the calls in flight may add.
record Bounded (n c : ℕ) (limit : ℤ) (t : Traffic) : Type 0 where
  same_limit : t.org.quota_limit ≡ limit
  few : t.in_flight ≤ n
  room : t.org.quota_used +ℤ pos (t.in_flight * c) ≤ℤ limit +ℤ pos (n * c)

charge_org-used :
    (now : ℕ) (period : String) (cost : ℤ) (o o' : Org)
    → charge_org now period cost o ≡ ok o'
    → ((stop_in_arrears now o').quota_used ≡ o.quota_used +ℤ cost)
      × ((stop_in_arrears now o').quota_limit ≡ o.quota_limit)
unfolding charge_org stop_in_arrears
charge_org-used now period cost o o' h = ground arith

one_more : (k n c : ℕ) → k < n → (k + 1) * c ≤ n * c
one_more k n c h = grind arith

one_less : (k c : ℕ) → 0 < k → k * c ≡ (k - 1) * c + c
one_less k c h = let e : k ≡ (k - 1) + 1 = omega arith in omega (arith, ap (λ (t : ℕ). t * c) e)

less_room :
    (used limit cost : ℤ) (k n c : ℕ)
    → 0 < k
    → cost ≤ℤ pos c
    → used +ℤ pos (k * c) ≤ℤ limit +ℤ pos (n * c)
    → used +ℤ cost +ℤ pos ((k - 1) * c) ≤ℤ limit +ℤ pos (n * c)
less_room used limit cost k n c h l b = omega (int_laws, one_less k c h)

fewer_room :
    (used limit : ℤ) (k n c : ℕ)
    → 0 < k
    → used +ℤ pos (k * c) ≤ℤ limit +ℤ pos (n * c)
    → used +ℤ pos ((k - 1) * c) ≤ℤ limit +ℤ pos (n * c)
fewer_room used limit k n c h b = omega (int_laws, one_less k c h)

more_room :
    (used limit : ℤ) (k n c : ℕ)
    → k < n
    → used <ℤ limit
    → used +ℤ pos ((k + 1) * c) ≤ℤ limit +ℤ pos (n * c)
more_room used limit k n c h b = omega (int_laws, one_more k n c h)

Step-Bounded :
    {n c : ℕ} {limit : ℤ} {t t' : Traffic}
    → Step n c t t'
    → Bounded n c limit t
    → Bounded n c limit t'
Step-Bounded {n} {c} {limit} (admits t period u h k) b = record {
  same_limit = b.same_limit;
  few = omega arith;
  room =
      more_room t.org.quota_used limit t.in_flight n c k
        (rw b.same_limit at (((precheck_row-iff_HasQuota period u t.org).0 h).org_total));
}
Step-Bounded {n} {c} {limit} (charges t now period cost o h l e) b =
    let (used, same) = charge_org-used now period cost t.org o e in
    record {
      same_limit = same ∙ b.same_limit;
      few = ground (arith, b.few);
      room = rw used (less_room t.org.quota_used limit cost t.in_flight n c h l b.room);
    }
Step-Bounded {n} {c} {limit} (drops t h) b = record {
  same_limit = b.same_limit;
  few = ground (arith, b.few);
  room = fewer_room t.org.quota_used limit t.in_flight n c h b.room;
}

Reach-Bounded :
    {n c : ℕ} {limit : ℤ} {t t' : Traffic}
    → Reach n c t t'
    → Bounded n c limit t
    → Bounded n c limit t'
Reach-Bounded start b = b
Reach-Bounded (after r s) b = Step-Bounded s (Reach-Bounded r b)

within :
    (used limit : ℤ) (k n c : ℕ)
    → used +ℤ pos (k * c) ≤ℤ limit +ℤ pos (n * c)
    → used ≤ℤ limit +ℤ pos (n * c)
within used limit k n c h = omega int_laws

-- An organisation that starts within its limit and with no call in flight never uses more than its
-- limit and the cost of the calls that may run at once: with at most `n` of them, of at most `c`
-- points each, in any interleaving of admissions and settlements, at most `n * c` more.
pub overdraft_bounded :
    (n c : ℕ) (o : Org) {t : Traffic}
    → o.quota_used ≤ℤ o.quota_limit
    → Reach n c (record { org = o; in_flight = 0 }) t
    → t.org.quota_used ≤ℤ o.quota_limit +ℤ pos (n * c)
overdraft_bounded n c o {t} h r =
    within t.org.quota_used o.quota_limit t.in_flight n c
      (Reach-Bounded r
        (record { same_limit = refl; few = omega arith; room = omega int_laws })).room
