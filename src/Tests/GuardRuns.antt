-- ===== src/Tests/GuardRuns.antt =====
-- The key guard of config/config.go on two sources.
use goga.Prelude.{◌≡◌, refl, subst, ◌↔◌, String, List, [], ◌∷◌}
use goga.Prelude.Dict.{lookup, insert}
use goga.Prelude.Texts.{text_leb}
use goga.Sorting.{sort_strings, place}
use goga.Errors.{ok, err, raw}
use goga.Config.Keys.{parent_paths, prefixes, split, join, take}
use goga.Config.Failure.{colliding_keys}
use goga.Config.Guard.{
  KeyGuard, new_key_guard, add, add_keys, add_key, owned_parent, add_branches, record_key,
}
use goga.Config.Guard.Laws.{Trail, new-Tracks}
use goga.Config.Guard.Verdict.{IsClashFree, Verdict, from_source}
use goga.Config.Guard.Accepts.{add-Verdict, add_all, guard_accepts_iff}

abbrev nested : List String
nested = "db.pool.max" ∷ "db.url" ∷ []

no_keys-IsClashFree : IsClashFree []
no_keys-IsClashFree s k t l m = elim m [ ]

abbrev after_file : Trail
after_file = from_source "file" nested []

abbrev file_guard : KeyGuard
file_guard = record {
  leaves = ("db.pool.max", "file") ∷ ("db.url", "file") ∷ [];
  branches =
      ("db", record { leaf = "db.pool.max"; source = "file" })
      ∷ ("db.pool", record { leaf = "db.pool.max"; source = "file" })
      ∷ [];
}

guard : Unit {0}
unfolding add add_keys add_key owned_parent add_branches record_key sort_strings place text_leb
    parent_paths prefixes split join take lookup insert
guard = tt

file_added : add new_key_guard "file" nested ≡ ok file_guard
unfolding guard
file_added = refl

env_refused :
    add file_guard "env" ("db" ∷ []) ≡ err (raw (colliding_keys "db" "env" "db.pool.max" "file"))
unfolding guard
env_refused = refl

file-Verdict : Verdict after_file (ok file_guard)
file-Verdict =
    subst (Verdict after_file) file_added
      (add-Verdict new_key_guard [] "file" nested new-Tracks no_keys-IsClashFree)

add-Verdict_example :
    Verdict (from_source "env" ("db" ∷ []) after_file) (add file_guard "env" ("db" ∷ []))
add-Verdict_example =
    add-Verdict file_guard after_file "env" ("db" ∷ []) file-Verdict.0 file-Verdict.1

guard_accepts_iff_example :
    ((g : KeyGuard) × (add_all new_key_guard (("file", nested) ∷ ("env", "db" ∷ []) ∷ []) ≡ ok g))
    ↔ IsClashFree (from_source "env" ("db" ∷ []) after_file)
guard_accepts_iff_example = guard_accepts_iff (("file", nested) ∷ ("env", "db" ∷ []) ∷ [])
