-- ===== src/Observer/Tests.antt =====
-- An observer over a queue and a log in memory.
use lohpi.Common.{◌<◌, ◌≡◌, Option, none, some, List, [], ◌∷◌, ◌++◌, arith}
use lohpi.Observer.{MessageId, Fifo, LogDirectory, GossipObserver, add_gossips}
use lohpi.Observer.Flushes.{LogAnswers, cursor_below_capacity}

abbrev listed : Fifo
listed = record {
  Queue = List MessageId;
  new_queue = λ capacity. some [];
  insert = λ m q. q ++ m ∷ [];
  elements = λ q. q;
}

-- a log that takes every batch, and one that takes none
abbrev kept_log : LogDirectory
kept_log = record {
  Dir = List (List MessageId);
  make_directory = λ dir. some dir;
  append_file = λ batch dir. some (batch ∷ dir);
}

abbrev full_disk : LogDirectory
full_disk = record {
  Dir = List (List MessageId);
  make_directory = λ dir. some dir;
  append_file = λ batch dir. none;
}

kept_log-LogAnswers : LogAnswers listed kept_log
kept_log-LogAnswers batch dir h = cc

abbrev fresh : GossipObserver listed kept_log
fresh = record { observed_gossips = []; config = record { capacity = 2 }; cursor = 0; dir = [] }

abbrev nearly_full : GossipObserver listed full_disk
nearly_full = record {
  observed_gossips = (1 ∷ []) ∷ [];
  config = record { capacity = 2 };
  cursor = 1;
  dir = [];
}

abbrev three : List (Option MessageId)
three = some (1 ∷ []) ∷ none ∷ some (2 ∷ []) ∷ some (3 ∷ []) ∷ []

cursor_below_capacity_example :
    ((add_gossips listed kept_log three fresh).cursor
      < (add_gossips listed kept_log three fresh).config.capacity)
    × ((add_gossips listed kept_log three fresh).config ≡ fresh.config)
cursor_below_capacity_example =
    cursor_below_capacity listed kept_log kept_log-LogAnswers three fresh (omega arith)
