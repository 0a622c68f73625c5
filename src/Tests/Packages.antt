-- ===== src/Tests/Packages.antt =====
-- Reasons, quality minutes and verdicts at concrete inputs.
use liqvera.Prelude.{ℕ, true, [], ◌∷◌, none, some}
use liqvera.Prelude.Int.{pos}
use liqvera.Python.{codes}
use liqvera.Evidence.{CaptureManifest, CaptureTerminal, QualityMinuteRecord}
use liqvera.Economics.{SealedStageAEconomics}
use liqvera.Verdict.{judge}
use liqvera.Verdict.Gates.{Judged, judge-Judged}
use liqvera.Tests.{amount}

abbrev minute : ℕ → QualityMinuteRecord
minute start = record {
  capture_run_id = codes "run";
  minute_start_ms = start;
  venue = codes "LIGHTER";
  accepted = 3;
  rejected = 0;
}

abbrev manifest : CaptureManifest
manifest = record {
  capture_run_id = codes "run";
  started_at_ms = 0;
  venue_set = codes "LIGHTER" ∷ [];
  schema_version = codes "v1";
}

abbrev terminal : CaptureTerminal
terminal = record {
  capture_run_id = codes "run";
  terminated_at_ms = 120_000;
  status = codes "CLOSED";
}

-- A profitable run.
abbrev good : SealedStageAEconomics
good = record {
  independent_episode_count = 25;
  total_net = amount (pos 5);
  median_net = amount (pos 1);
  usd_1000_net = amount (pos 1);
  usd_5000_net = amount (pos 0);
  largest_episode_concentration = amount (pos 24_999_999);
  survived_delay_300ms = true;
  survived_delay_500ms = true;
  survived_both_fee_cases = true;
}

judge-Judged_example :
    Judged none manifest terminal
      (minute 0 ∷ [])
      (some good)
      (judge none manifest terminal (minute 0 ∷ []) (some good))
judge-Judged_example = judge-Judged none manifest terminal (minute 0 ∷ []) (some good)
