-- ===== src/Live/Ends.antt =====
-- The loop over pages of cli/web_live.go ends, whatever other requests write meanwhile.
use http_capture.Prelude.{ℕ, ◌<◌, ◌≢◌}
use http_capture.Live.{LiveRequestSummary, Live, Ending, out_of_fuel}

abbrev Newer : ℕ → LiveRequestSummary → Type 0
Newer after item = after < item.request_id

-- The handler does not stop for want of fuel.
pub record Ends (run : Ending × Live) : Type 0 where
  pub at : run.0 ≢ out_of_fuel
