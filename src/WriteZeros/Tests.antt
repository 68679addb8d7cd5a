-- ===== src/WriteZeros/Tests.antt =====
-- The zero filling of a concrete disk of 600 sectors.
use whdd_modify.Prelude.{ℕ, refl, Bool, true, false, none, some, List, [], ◌∷◌, arith}
use whdd_modify.Procedure.{BlockStatus}
use whdd_modify.WriteZeros.{ZerosCtx, System, open_write_zeros, perform}
use whdd_modify.WriteZeros.Round.{IsReady, Written, perform-Written}
use whdd_modify.WriteZeros.Open.{Opened, open_write_zeros-Opened}
use whdd_modify.WriteZeros.Run.{Works, run, ZerosEnded, run-ZerosEnded}

abbrev at_start : ZerosCtx
at_start = record {
  priv = record { start_lba = 10; end_lba = 600; lba_to_process = 590; blk_index = 0 };
  progress = record { num = 0; den = 3 };
  report = record {
    lba = 0;
    sectors_processed = 0;
    blk_access_time = 0;
    blk_status = BlockStatus.ok;
  };
  position = 5120;
  device = λ i. 7;
}

at_start-IsReady : IsReady at_start
at_start-IsReady = record {
  small = omega arith;
  started = omega arith;
  enough = omega arith;
  no_more = omega arith;
  index = refl;
  in_bounds = omega arith;
  left = λ l. refl;
  none_left = λ e. absurd (omega arith);
  synchronized = λ l. refl;
}

-- Every `write` fails.
abbrev broken : System
broken = record { write = λ offset bytes. none; access_time = 9 }

perform-Written_example : Written at_start (perform broken at_start).0
perform-Written_example =
    perform-Written broken at_start at_start-IsReady (λ offset bytes n e. cc) (omega arith)

open_write_zeros-Opened_example :
    Opened 307200 700 (λ i. 7) true (open_write_zeros 307200 700 (λ i. 7) true true)
open_write_zeros-Opened_example =
    open_write_zeros-Opened 307200 700 (λ i. 7) true true (omega arith) (omega arith)

abbrev working : Works
working = (record { write = λ offset bytes. some bytes; access_time = 9 }, λ offset bytes. refl)

abbrev rounds : List (Bool × Works)
rounds = (false, working) ∷ (false, working) ∷ (false, working) ∷ (false, working) ∷ []

-- A frontend that only looks on.
abbrev look_on : ZerosCtx → ℕ → ℕ × ℕ
look_on c n = (n, 0)

run-ZerosEnded_example : ZerosEnded at_start (run look_on rounds at_start 0)
run-ZerosEnded_example =
    run-ZerosEnded look_on rounds at_start 0 at_start-IsReady refl (omega arith)
