-- ===== src/Push/AuthHistory.antt =====
-- push.py: `AuthFailureHistory`. The map is the third-party `LRU`, a parameter here.
use yalexs_ble.Prelude.{ℕ, ◌+◌, ◌≡◌, Bool, leb, Text}

-- `AUTH_FAILURE_TO_START_REAUTH`
abbrev pub auth_failure_to_start_reauth : ℕ
auth_failure_to_start_reauth = 5

-- What the code uses of a map with least recently used keys: `m.get(k, d)` and `m[k] = v`. A
-- key just written is the most recent one, so it is there when it is read next.
pub record Lru : Type 1 where
  pub Store : Type 0
  pub get : Store → Text → ℕ → ℕ
  pub put : Store → Text → ℕ → Store
  pub get-put : (m : Store) (mac : Text) (v d : ℕ) → get (put m mac v) mac d ≡ v

module _ (lru : Lru) where
  unfoldable pub auth_failed : lru.Store → Text → lru.Store
  auth_failed failures_by_mac mac = lru.put failures_by_mac mac (lru.get failures_by_mac mac 0 + 1)

  unfoldable pub auth_success : lru.Store → Text → lru.Store
  auth_success failures_by_mac mac = lru.put failures_by_mac mac 0

  unfoldable pub should_raise : lru.Store → Text → Bool
  should_raise failures_by_mac mac =
      leb auth_failure_to_start_reauth (lru.get failures_by_mac mac 0)
