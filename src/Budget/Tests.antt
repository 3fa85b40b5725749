-- ===== src/Budget/Tests.antt =====
-- A budget with a limit of two, asked three times.
use gess.Budget.{DemandCounters, new_budget, consume_times}
use gess.Budget.Laws.{IsCounted, consume_times-IsCounted}

abbrev fresh_counters : DemandCounters
fresh_counters = record { cascades = 0; steps = 0; length_max = 0; limit_hits = 0 }

consume_times-IsCounted_example :
    IsCounted 2 3 fresh_counters (consume_times 2 3 (new_budget fresh_counters))
consume_times-IsCounted_example = consume_times-IsCounted 2 3 fresh_counters
