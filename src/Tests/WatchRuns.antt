-- ===== src/Tests/WatchRuns.antt =====
-- config/watch.go: one write to a watched file, and a tick.
use goga.Prelude.{
  Once, ◌≡◌, refl, ◌↔◌, inl, String, true, false, if◌then◌else◌, ◌==◌, none, some, List, [], ◌∷◌,
  Listed,
}
use goga.Errors.{ok, err, raw}
use goga.Config.Failure.{Error, foreign}
use goga.Config.Watch.{
  has, put, FileEvent, Notifier, added, closed, new_watcher, interesting, Loop, start, event, tick,
  Callback, changed, take_event, Step, on_event, on_tick, Run, started, and_then,
}
use goga.Config.Watch.Rounds.{due, Noticed, tick_reports_due, changed-Noticed}
use goga.Config.Watch.Paths.{From, new_watcher_outcome}

abbrev clean : String → String
clean path = if path == "./app.yaml" then "app.yaml" else path

abbrev dir : String → String
dir path = "."

abbrev saved : FileEvent
saved = record {
  name = "./app.yaml";
  create = false;
  write = true;
  remove = false;
  rename = false;
  chmod = false;
}

abbrev files : List String
files = "app.yaml" ∷ []

abbrev waiting : Loop
waiting = record { pending = "app.yaml" ∷ []; armed = true; running = true }

saved_run : Run clean files (event saved ∷ []) [] waiting
unfolding take_event interesting has put
saved_run = and_then started (on_event start saved refl)

tick_reports_due_example :
    ((out : List Callback) (t : Loop)
      → Step clean files waiting tick out t
      → Once out
        × ((p : String) → Listed (changed p) out ↔ Listed p (due clean files (event saved ∷ []))))
    × ((p : String)
        → waiting.running ≡ true
        → Listed p (due clean files (event saved ∷ []))
        → (out : List Callback) × (t : Loop) × Step clean files waiting tick out t
          × Listed (changed p) out)
tick_reports_due_example = tick_reports_due clean files (event saved ∷ []) [] waiting saved_run

changed-Noticed_example : Noticed clean files "app.yaml" (tick ∷ event saved ∷ [])
changed-Noticed_example =
    changed-Noticed clean files (tick ∷ event saved ∷ []) (changed "app.yaml" ∷ [])
      (record { pending = []; armed = false; running = true }) "app.yaml"
      (and_then saved_run (on_tick waiting refl refl)) (inl refl)

-- The directory cannot be added.
abbrev full : Notifier
full = record { new = none; add = λ d. some (raw (foreign 28)) }

new_watcher_outcome_example :
    ((watched : List String)
      → (new_watcher clean dir full ("./app.yaml" ∷ [])).1 ≡ ok watched
      → ((x : String) → Listed x watched ↔ From clean dir clean ("./app.yaml" ∷ []) x)
        × ((path : String)
            → Listed path ("./app.yaml" ∷ [])
            → Listed (added (dir (clean path))) (new_watcher clean dir full ("./app.yaml" ∷ [])).0)
        × (¬ Listed closed (new_watcher clean dir full ("./app.yaml" ∷ [])).0))
    × ((e : Error)
        → (new_watcher clean dir full ("./app.yaml" ∷ [])).1 ≡ err e
        → full.new ≡ none
        → Listed closed (new_watcher clean dir full ("./app.yaml" ∷ [])).0)
new_watcher_outcome_example = new_watcher_outcome clean dir full ("./app.yaml" ∷ [])
