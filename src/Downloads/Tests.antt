-- ===== src/Downloads/Tests.antt =====
-- A queue of three items, and the theorems at it.
use romcloud.Base.{
  ℕ, String, ◌≡◌, refl, Bool, true, false, none, some, [], ◌∷◌, string_eq, option_eq, contains,
  ◌==◌,
}
use romcloud.Downloads.Model.{
  DownloadState, DownloadItem, manual, queued, running, failed, complete, state_eq,
}
use romcloud.Downloads.Repository.{
  Table, ids, is_consistent, enqueue, transition, transitioned, next_queued, retry_all_failed,
}
use romcloud.Downloads.Repository.Keeps.{Enqueued, enqueue-Enqueued}
use romcloud.Downloads.Repository.Operations.{execute, retry_failed, execute-consistent}
use romcloud.Downloads.Repository.Answers.{
  Answered, Oldest, transition-Answered, next_queued-Oldest,
}

abbrev item : String → String → DownloadState → ℕ → DownloadItem
item id game state seq = record {
  id = id;
  batch_id = none;
  game_id = some game;
  game_title = game;
  system = "psx";
  origin = manual;
  state = state;
  queue_seq = seq;
  worker_instance_id = none;
  bytes_total = 0;
  bytes_present = 0;
  error_code = none;
  error_message = none;
  created_at = 1;
  updated_at = seq;
  started_at = none;
  finished_at = none;
}

-- Game `a` failed twice, game `b` waits.
abbrev table : Table
table =
    item "1" "a" failed 1
    ∷ item "2" "b" queued 2
    ∷ item "3" "a" failed 3
    ∷ item "4" "c" running 4
    ∷ []

table-consistent : is_consistent table ≡ true
unfolding is_consistent string_eq
table-consistent = refl

-- Only the newest failed item of game `a` is queued again.
retried :
    retry_all_failed 9 table
    ≡ some (
      1,
      item "1" "a" failed 1
          ∷ item "2" "b" queued 2
          ∷ record (item "3" "a" queued 3) { updated_at = 9 }
          ∷ item "4" "c" running 4
          ∷ [],
    )
unfolding retry_all_failed string_eq option_eq
retried = refl

execute_example : (t : Table) × (execute (retry_failed 9) table ≡ some t) × (is_consistent t ≡ true)
execute_example = execute-consistent (retry_failed 9) table table-consistent refl

abbrev listed : String → Bool
listed g = g == "b"

listed_b : listed "b" ≡ true
unfolding string_eq
listed_b = refl

fresh_id : contains (ids table) "5" ≡ false
unfolding ids string_eq
fresh_id = refl

enqueue_example :
    (i : DownloadItem) × (made : Bool) × (t : Table) × (enqueue listed "5" 9 none "b" "b" "psx"
        manual table
      ≡ some ((i, made), t))
    × Enqueued "b" table i made t
    × (is_consistent t ≡ true)
enqueue_example =
    enqueue-Enqueued listed "5" 9 none "b" "b" "psx" manual table table-consistent fresh_id listed_b

transition_example :
    Answered "4"
      (running ∷ [])
      (transitioned 9 complete none none none)
      table
      (transition "4" 9 (running ∷ []) complete none none none table)
transition_example =
    transition-Answered "4" 9 (running ∷ []) complete none none none table table-consistent

next_queued_example : Oldest table (next_queued table)
next_queued_example = next_queued-Oldest table
