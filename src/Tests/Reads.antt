-- ===== src/Tests/Reads.antt =====
-- The theorems about web/lib/read-outcome.ts at concrete inputs.
use ovrflo.Prelude.{ℕ, Option, none, some, [], true, arith}
use ovrflo.Prelude.Errors.{Returns}
use ovrflo.ReadOutcome.{
  ReadFailure, ReadOutcome, fresh, ready, transport, no_metadata, refresh_failure_outcome,
}
use ovrflo.ReadOutcome.Refresh.{Refreshed, refresh_failure_lem}

abbrev lost : ReadFailure
lost = record {
  source = "rpc";
  code = transport;
  message = "timeout";
  retryable = true;
  index = none;
  entity_id = some "7";
}

abbrev before : Option (ReadOutcome ℕ)
before = some (ready fresh 5 [] no_metadata)

refresh_failure_lem_example : Returns (refresh_failure_outcome before lost) (Refreshed before lost)
refresh_failure_lem_example = refresh_failure_lem before lost (omega arith)
