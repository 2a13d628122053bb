-- ===== src/Replay/Backoff.antt =====
-- The waits of `Run` (internal/replay/replay.go).
use pixel_beetle.Prelude.{ℕ, zero, suc, ◌<◌, ◌≡◌, refl, ap, arith}
use pixel_beetle.Replay.{reconnect_backoff_max, next_backoff, backoff_after}

backoff_settled : (n : ℕ) → backoff_after (suc (suc (suc (suc (suc n))))) ≡ 32_000_000_000
unfolding backoff_after
backoff_settled zero = refl
backoff_settled (suc n) = ap next_backoff (backoff_settled n)

-- From the sixth wait in a row on, `Run` waits 32 seconds before it connects again, which is more than
-- `reconnectBackoffMax`.
pub backoff_after-over :
    (n : ℕ)
    → (backoff_after (suc (suc (suc (suc (suc n))))) ≡ 32_000_000_000)
      × (reconnect_backoff_max < backoff_after (suc (suc (suc (suc (suc n))))))
backoff_after-over n = (backoff_settled n, omega (arith, backoff_settled n))
