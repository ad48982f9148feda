-- ===== src/Log/Tests.antt =====
-- The theorems on tools/log.c at a log in foreground mode.
use smart_fridge.Prelude.{arith, codes, some, [], true}
use smart_fridge.Prelude.Int.{pos}
use smart_fridge.Log.{Log, Date, error, warning, info, debug1, debug2, log_header}
use smart_fridge.Log.Lines.{Fits}

abbrev noon : Date
noon = record { year = 2020; month = 5; day = 1; hour = 12; minute = 0; second = 30 }

-- One option `d` was given.
abbrev verbose : Log
verbose = record {
  debug_level = pos 1;
  foreground = true;
  log_file = some (codes "fridge.log");
  node_name = codes "reader";
  printed = [];
  appended = [];
}

noon-Fits : Fits noon verbose.node_name
unfolding log_header
noon-Fits error = omega arith
noon-Fits warning = omega arith
noon-Fits info = omega arith
noon-Fits debug1 = omega arith
noon-Fits debug2 = omega arith
