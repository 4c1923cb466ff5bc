-- ===== src/Events/Tests.antt =====
-- The event log's theorems on two entries.
use docker_analysis.Base.{◌≡◌, true, false, List, [], ◌∷◌, codes, map, nat_eq}
use docker_analysis.Base.Int.{pos}
use docker_analysis.Events.{new_events, events_limit}
use docker_analysis.Events.Log.{Entry, message_of, last_n, log_entries, log_entries_last}

abbrev entries : List Entry
entries =
    record {
      now = pos 1;
      ready = λ l. true;
      action = codes "create";
      id = codes "a1";
      from = codes "ubuntu";
    }
    ∷ record {
      now = pos 2;
      ready = λ l. false;
      action = codes "start";
      id = codes "a1";
      from = codes "ubuntu";
    }
    ∷ []

log_entries_last_example :
    (log_entries entries new_events).events ≡ last_n events_limit (map message_of entries)
log_entries_last_example = log_entries_last entries
