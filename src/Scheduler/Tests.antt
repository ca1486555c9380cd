-- ===== src/Scheduler/Tests.antt =====
-- The waits before the retries, at some attempts.
use rsg_hermes.Prelude.{◌≡◌, refl}
use rsg_hermes.Scheduler.Backoff.{compute_backoff_seconds}

third_wait : compute_backoff_seconds 3 ≡ 240
unfolding compute_backoff_seconds
third_wait = refl
