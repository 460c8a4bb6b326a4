-- ===== src/Tests/Worker.antt =====
-- The worker's steps on the rows of the job table's tests.
use openpreflight.Prelude.{refl, [], ◌∷◌, none, some, arith}
use openpreflight.Go.Strings.{codes, str_eq}
use openpreflight.Store.Models.{in_flight_status}
use openpreflight.Store.Settings.{default_settings}
use openpreflight.Queue.System.{Worker, Step, claim, start, Reach, here, next}
use openpreflight.Queue.System.Invariant.{IsWorking, Reach-IsWorking}
use openpreflight.Queue.System.Ends.{HasEnded, Reach-HasEnded}
use openpreflight.Queue.System.Cancel.{Escapes, claim-Escapes}
use openpreflight.Tests.Jobs.{rows, claimed_row, claimed_rows, rows-UniqueIds, rows-claim}

abbrev idle : Worker
idle = record {
  runner = record {
    tables = record { jobs = rows; deliveries = [] };
    running = [];
    signalled = [];
  };
  claimed = none;
  ended = [];
}

idle-IsWorking : IsWorking default_settings idle
unfolding default_settings
idle-IsWorking = record {
  unique = rows-UniqueIds;
  rows = (((λ e. cc), (λ e. cc)), (((λ e. cc), (λ e. cc)), (((λ e. cc), (λ e. cc)), tt)));
  bounded = omega arith;
}

abbrev claiming : Worker
claiming = record {
  runner = record {
    tables = record { jobs = claimed_rows; deliveries = [] };
    running = [];
    signalled = [];
  };
  claimed = some claimed_row;
  ended = [];
}

claims : Step default_settings idle claiming
unfolding default_settings
claims = claim idle (codes "2026-01-04") claimed_row claimed_rows refl (omega arith) rows-claim

abbrev working : Worker
working = record {
  runner = record {
    tables = record { jobs = claimed_rows; deliveries = [] };
    running = codes "r3" ∷ [];
    signalled = [];
  };
  claimed = none;
  ended = [];
}

works : Reach default_settings idle working
works = next (next here claims) (start claiming claimed_row refl)

Reach-IsWorking_example : IsWorking default_settings working
Reach-IsWorking_example = Reach-IsWorking default_settings idle working idle-IsWorking works

r1_ended : HasEnded (codes "r1") rows
unfolding in_flight_status str_eq
r1_ended = ((λ e. refl), ((λ e. cc), ((λ e. cc), tt)))

Reach-HasEnded_example : HasEnded (codes "r1") claimed_rows
unfolding works claims
Reach-HasEnded_example =
    Reach-HasEnded (codes "r1") default_settings idle working works ((tt, tt), tt) r1_ended

claim-Escapes_example : Escapes idle (codes "2026-01-05") claimed_row claimed_rows default_settings
unfolding default_settings
claim-Escapes_example =
    claim-Escapes default_settings idle (codes "2026-01-04") (codes "2026-01-05") claimed_row
      claimed_rows rows-UniqueIds refl (omega arith) rows-claim refl refl
