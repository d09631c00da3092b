-- ===== src/Push/AuthHistoryLaws.antt =====
-- When repeated authentication failures start a re-authentication.
use yalexs_ble.Prelude.{ℕ, zero, suc, ◌+◌, ◌≡◌, leb, Text, arith, refl}
use yalexs_ble.Push.AuthHistory.{Lru, auth_failed, auth_success, should_raise}

module _ (lru : Lru) where
  -- Failures in a row of one lock, after a success.
  abbrev pub fail_times : ℕ → lru.Store → Text → lru.Store
  fail_times zero m mac = auth_success lru m mac
  fail_times (suc n) m mac = auth_failed lru (fail_times n m mac) mac

  count-fail_times : (n : ℕ) (m : lru.Store) (mac : Text) → lru.get (fail_times n m mac) mac 0 ≡ n
  unfolding auth_failed auth_success
  count-fail_times zero m mac = lru.get-put m mac 0 0
  count-fail_times (suc n) m mac =
      rw (lru.get-put (fail_times n m mac) mac (lru.get (fail_times n m mac) mac 0 + 1) 0)
        (omega (arith, count-fail_times n m mac))

  -- After a success and then n failures in a row of one lock, the failure is raised exactly if n is
  -- at least 5.
  pub should_raise-fail_times :
      (n : ℕ) (m : lru.Store) (mac : Text) → should_raise lru (fail_times n m mac) mac ≡ leb 5 n
  unfolding should_raise
  should_raise-fail_times n m mac = rw (count-fail_times n m mac) refl
