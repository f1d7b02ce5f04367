-- ===== src/Server/Ticker.antt =====
-- The goroutines of `StartGroupRoleReconciliation` (internal/server/group_consumer.go) and
-- `StartDeviceLivenessPolling` (internal/server/device_liveness.go): a loop over a ticker.
use users.Prelude.{zero, suc, List, [], ◌∷◌}
use users.Prelude.Int.{ℤ, pos, negsuc}
use users.World.{M, pure, attempt, ◌>>=◌}

-- What the select of a round receives: a tick, or the end of the context.
pub data Signal : Type 0 where
  tick done : Signal

-- The rounds of the loop, for the signals that it receives.
unfoldable pub ticker_loop : M (Unit {0}) → List Signal → M (Unit {0})
ticker_loop pass [] = pure tt
ticker_loop pass (done ∷ signals) = pure tt
ticker_loop pass (tick ∷ signals) = do _ ← attempt pass; ticker_loop pass signals

-- No goroutine is started on an interval that is not positive.
unfoldable pub start_ticker : ℤ → M (Unit {0}) → List Signal → M (Unit {0})
unfolding ticker_loop
start_ticker (negsuc n) pass signals = pure tt
start_ticker (pos zero) pass signals = pure tt
start_ticker (pos (suc n)) pass signals = ticker_loop pass signals
