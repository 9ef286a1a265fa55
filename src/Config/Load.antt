-- ===== src/Config/Load.antt =====
-- config/config.go: the merge of the sources, Load, and the reload of a watched configuration.
pub mod Precedence
pub mod Outcomes
pub mod Order
use Prim.Native.String
use goga.Prelude.{
  ℕ, String, Bool, Option, none, some, List, [], ◌∷◌, ◌++◌, map, ◌==◌, if◌then◌else◌,
}
use goga.Errors
use goga.Errors.{ok, err, raw, wrap, ◌>>=◌, within}
use goga.Options.{apply}
use goga.Config.Failure.{Failure, Result, Error, missing_keys}
use goga.Config.Library.{Library, Files}
use goga.Config.Guard.{KeyGuard, new_key_guard, add}
use goga.Config.Settings
use goga.Config.Settings.{
  Settings, Source, FileSource, ConfigOption, sources_in_house_order, decode_hooks,
}

module _ (lib : Library) where
  open lib use {Map, Handle, Bytes, Value, Callback, flatten, new_handle, merge, unmarshal_with}

  -- The variables of the loop of `build`.
  pub record Merge : Type 0 where
    pub k : Handle
    pub guard : KeyGuard
    pub merged : List String

  -- One round of the loop, for a source that contributes a map.
  unfoldable pub merge_map : Merge → String → Map → Result Merge
  merge_map m name mp = do
    let message = String.◌++◌ "goga/config: merging " name
    guard ← within message (add m.guard name (flatten mp))
    k ← within message (merge m.k mp)
    ok (record { k = k; guard = guard; merged = m.merged ++ name ∷ [] })

  unfoldable pub merge_read : Merge → String → Option Map → Result Merge
  unfolding merge_map
  merge_read m name none = ok m
  merge_read m name (some mp) = merge_map m name mp

  unfoldable pub merge_source : Merge → Source lib → Result Merge
  unfolding merge_read
  merge_source m src = do
    mp ← within (String.◌++◌ "goga/config: reading " src.name) (src.read m.k)
    merge_read m src.name mp

  unfoldable pub merge_sources : Merge → List (Source lib) → Result Merge
  unfolding merge_source
  merge_sources m [] = ok m
  merge_sources m (src ∷ rest) = do next ← merge_source m src; merge_sources next rest

  abbrev pub start_merge : Merge
  start_merge = record { k = new_handle; guard = new_key_guard; merged = [] }

  unfoldable pub build : Files Bytes → Settings lib → Result (Handle × List String)
  unfolding merge_sources sources_in_house_order
  build files s = do
    m ← merge_sources start_merge (sources_in_house_order lib files s)
    ok (m.k, m.merged)

  unfoldable pub decode : Handle → Settings lib → Result Value
  unfolding decode_hooks
  decode k s = within "goga/config: decoding" (unmarshal_with k (decode_hooks lib s))

  -- What Load and a reload do after the merge.
  unfoldable pub check_and_decode : Handle → Settings lib → Result Value
  unfolding decode Settings.missing_keys
  check_and_decode k s = elim (Settings.missing_keys lib s k) [
    | [] ↦ decode k s
    | key ∷ keys ↦ err (raw (missing_keys (key ∷ keys)))
  ]

  -- `Config[T]`; `watched` holds the paths that a watcher was started on.
  pub record Config : Type 0 where
    pub value : Value
    pub k : Handle
    pub set : Settings lib
    pub watched : Option (List String)

  -- `Event`
  pub record Event : Type 0 where
    pub path : String
    pub k : Option Handle
    pub value : Option Value
    pub err : Option Error

  -- The callback gets one event for each reload.
  abbrev pub failed : String → Option Handle → Error → Event
  failed path k e = record { path = path; k = k; value = none; err = some e }

  -- `reload` after `build`
  unfoldable pub finish_reload : String → Settings lib → Handle → Event
  unfolding check_and_decode
  finish_reload path s k = elim (check_and_decode k s) [
    | err e ↦ failed path (some k) e
    | ok value ↦ record { path = path; k = some k; value = some value; err = none }
  ]

  unfoldable pub reload : Files Bytes → Settings lib → String → Option Error → Event
  unfolding build finish_reload
  reload files s path (some e) =
      failed path none (wrap (String.◌++◌ "goga/config: watching " path) e)
  reload files s path none = elim (build files s) [
    | err e ↦ failed path none e
    | ok (k, used) ↦ finish_reload path s k
  ]

  -- `reloaded` and `watchFailed`
  unfoldable pub reloaded : Files Bytes → Settings lib → String → Event
  unfolding reload
  reloaded files s path = reload files s path none

  unfoldable pub watch_failed : Error → Event
  watch_failed e = failed "" none (wrap "goga/config: watch" e)

  -- `newWatcher` on the paths, or its error
  module _ (new_watcher : List String → Option Error) where
    unfoldable pub start_watching : Settings lib → Result (Option (List String))
    start_watching s = elim s.files [
      | [] ↦ ok none
      | f ∷ fs ↦
          let paths = map (λ (g : FileSource). g.path) s.files in
          elim (new_watcher paths) [ none ↦ ok (some paths) | some e ↦ err e ]
    ]

    unfoldable pub watch_if_asked : Settings lib → Result (Option (List String))
    unfolding start_watching
    watch_if_asked s = elim s.watch [ none ↦ ok none | some fn ↦ start_watching s ]

    unfoldable pub load_settings : Files Bytes → Settings lib → Result Config
    unfolding build check_and_decode watch_if_asked
    load_settings files s = do
      merged ← build files s
      value ← check_and_decode merged.0 s
      watched ← watch_if_asked s
      ok (record { value = value; k = merged.0; set = s; watched = watched })

    unfoldable pub load : Files Bytes → List (ConfigOption lib) → Result Config
    unfolding load_settings
    load files opts =
        let (s, failure) = apply (Settings.no_settings lib) opts in
        elim failure [ some e ↦ err (wrap "goga/config: load" e) | none ↦ load_settings files s ]
