-- ===== src/Store/Tests.antt =====
-- One blocked incident of one device: it is contested, unlocked, and reported again.
use hackaton_open_ai.Prelude.{eq_iff, true≢false, sym, String, ◌≢◌, refl, none, List, [], ◌∷◌}
use hackaton_open_ai.Model.{hate_speech, child_as_target}
use hackaton_open_ai.Store.Tables.{Store, IncidentRow, status_eq}
use hackaton_open_ai.Store.Incidents.{IncidentCreate, incident_values}
use hackaton_open_ai.Store.Commands.{IsAccounted}
use hackaton_open_ai.Store.Where.{count_where}
use hackaton_open_ai.Store.Run.{Call, create, request, unlock, keep_it, run, run-IsAccounted}
use hackaton_open_ai.Store.Isolation.{Untouched, run-Untouched}
use hackaton_open_ai.Samples.{insult, block_decision}

abbrev event : IncidentCreate
event = record {
  child_id = "child";
  device_id = "mac";
  application = "Chat";
  occurred_at = 1;
  assessment = insult;
  decision = block_decision;
  deduplication_key = "key-1";
}

abbrev row : IncidentRow
row = incident_values "family" event hate_speech child_as_target "inc-1" 2 "key-1"

abbrev empty : Store
empty = record {
  children = record { id = "child"; family_id = "family" } ∷ [];
  devices = record { id = "mac"; family_id = "family"; child_id = "child" } ∷ [];
  incidents = [];
  commands = [];
  next_command = 1;
}

abbrev tables : Store
tables = record empty { incidents = row ∷ [] }

tables-IsAccounted : IsAccounted tables
unfolding count_where
tables-IsAccounted = record { distinct = (tt, tt); counted = (refl, tt); referenced = tt }

abbrev calls : List Call
calls =
    request "family" "inc-1" "A joke" 3
    ∷ unlock "family" "inc-1" none 4
    ∷ unlock "family" "inc-1" none 5
    ∷ create "family" event "inc-2" "inc-3" "suffix" 6
    ∷ keep_it "family" "inc-1" 7
    ∷ []

run-IsAccounted_example : IsAccounted (run calls tables)
run-IsAccounted_example = run-IsAccounted calls tables tables-IsAccounted

abbrev others_calls : List Call
others_calls = unlock "other" "inc-1" none 4 ∷ create "other" event "inc-2" "inc-3" "suffix" 6 ∷ []

abbrev other_family : String
other_family = "other"

different : other_family ≢ "family"
different e = true≢false (sym ((eq_iff other_family "family").1 e))

run-Untouched_example : Untouched "family" tables (run others_calls tables)
run-Untouched_example = run-Untouched "family" others_calls tables (different, (different, tt))
