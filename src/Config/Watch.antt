-- ===== src/Config/Watch.antt =====
-- config/watch.go: the watcher of the configuration files. filepath.Clean and filepath.Dir are
-- arguments, and fsnotify is given by what its calls answer.
pub mod Rounds
pub mod Paths
use Prim.Native.String
use goga.Prelude.{
  ℕ, String, Bool, true, false, ◌≡◌, ◌&&◌, ◌||◌, ◌==◌, Option, none, some, List, [], ◌∷◌, ◌++◌, map,
  if◌then◌else◌,
}
use goga.Errors.{ok, err, wrap}
use goga.Config.Failure.{Failure, Result, Error}

-- `m[s]`, and `m[s] = true`, for a map from strings to true
unfoldable pub has : List String → String → Bool
has [] s = false
has (t ∷ ts) s = t == s || has ts s

unfoldable pub put : String → List String → List String
put s ts = if has ts s then ts else ts ++ s ∷ []

-- fsnotify.Event, with its operations as event.Has finds them
pub record FileEvent : Type 0 where
  pub name : String
  pub create : Bool
  pub write : Bool
  pub remove : Bool
  pub rename : Bool
  pub chmod : Bool

-- fsnotify.NewWatcher and the watcher's Add
pub record Notifier : Type 0 where
  pub new : Option Error
  pub add : String → Option Error

-- What newWatcher did to the fsnotify watcher.
pub data NotifierCall : Type 0 where
  added : String → NotifierCall
  closed : NotifierCall

-- The second loop of newWatcher, which adds the directories; the half-built watcher is closed.
unfoldable pub add_dirs : Notifier → List String → List NotifierCall × Option Error
add_dirs fsw [] = ([], none)
add_dirs fsw (d ∷ ds) =
    let (calls, failure) = add_dirs fsw ds in
    elim (fsw.add d) [
      | none ↦ (added d ∷ calls, failure)
      | some e ↦ (added d ∷ closed ∷ [], some (wrap (String.◌++◌ "goga/config: watch " d) e))
    ]

module _ (clean dir : String → String) where
  -- The first loop of newWatcher: the watched files and their directories.
  unfoldable pub watched_paths : List String → List String × List String → List String × List String
  unfolding put has
  watched_paths [] sets = sets
  watched_paths (path ∷ paths) (files, dirs) =
      watched_paths paths (put (clean path) files, put (dir (clean path)) dirs)

  -- `newWatcher`: what it did, and the files that it watches or its error
  unfoldable pub new_watcher : Notifier → List String → List NotifierCall × Result (List String)
  unfolding watched_paths add_dirs
  new_watcher fsw paths = elim fsw.new [
    | some e ↦ ([], err (wrap "goga/config: watch" e))
    | none ↦
        let (files, dirs) = watched_paths paths ([], []) in
        let (calls, failure) = add_dirs fsw dirs in
        elim failure [ none ↦ (calls, ok files) | some e ↦ (calls, err e) ]
  ]

-- The variables of `run`. The timer is armed or stopped.
pub record Loop : Type 0 where
  pub pending : List String
  pub armed : Bool
  pub running : Bool

abbrev pub start : Loop
start = record { pending = []; armed = false; running = true }

-- What one `select` of the loop receives.
pub data Input : Type 0 where
  done events_closed errors_closed tick : Input
  event : FileEvent → Input
  error : Error → Input

-- A call of onChange or of onError
pub data Callback : Type 0 where
  changed : String → Callback
  failed : Error → Callback

-- `Close`, given what the fsnotify watcher's Close answers and whether an earlier call closed it
unfoldable pub close : Option Error → Bool → Bool × Option Error
close answer true = (true, none)
close none false = (true, none)
close (some e) false = (true, some (wrap "goga/config: watch close" e))

module _ (clean : String → String) where
  -- `interesting`, for a watcher with these files
  unfoldable pub interesting : List String → FileEvent → Bool
  unfolding has
  interesting files e = has files (clean e.name) && (e.create || e.write || e.remove || e.rename)

  -- The case of an event
  unfoldable pub take_event : List String → Loop → FileEvent → Loop
  unfolding put has interesting
  take_event files s e =
      if interesting files e
      then record s { pending = put (clean e.name) s.pending; armed = true }
      else s

  -- One round of the loop; the case that `select` takes is open. Only an armed timer ticks.
  pub data Step (files : List String) : Loop → Input → List Callback → Loop → Type 0 where
    on_done : (s : Loop) → s.running ≡ true → Step files s done [] (record s { running = false })
    on_events_closed :
        (s : Loop) → s.running ≡ true → Step files s events_closed [] (record s { running = false })
    on_errors_closed :
        (s : Loop) → s.running ≡ true → Step files s errors_closed [] (record s { running = false })
    on_event :
        (s : Loop) (e : FileEvent)
        → s.running ≡ true
        → Step files s (event e) [] (take_event files s e)
    on_tick :
        (s : Loop)
        → s.running ≡ true
        → s.armed ≡ true
        → Step files s tick (map changed s.pending) (record s { pending = []; armed = false })
    on_error : (s : Loop) (e : Error) → s.running ≡ true → Step files s (error e) (failed e ∷ []) s

  -- What the loop received since it started, newest first, the state that it is in, and the calls
  -- that it made.
  pub data Run (files : List String) : List Input → List Callback → Loop → Type 0 where
    started : Run files [] [] start
    and_then :
        {is : List Input} {cs : List Callback} {s : Loop} {i : Input} {out : List Callback}
        {t : Loop}
        → Run files is cs s
        → Step files s i out t
        → Run files (i ∷ is) (cs ++ out) t
