-- ===== src/Config/Watch/Paths.antt =====
-- What newWatcher watches, and what it leaves when it fails.
use goga.Prelude.{
  ◌≡◌, refl, ◌∙◌, ap, ◌↔◌, ◌⊎◌, inl, inr, String, Option-cases, none, some, List, [], ◌∷◌, Listed,
  arith, map, Listed-map, Listed-map_inv,
}
use goga.Errors.{ok, err}
use goga.Config.Failure.{Error}
use goga.Config.Watch.{put, Notifier, added, closed, watched_paths, add_dirs, new_watcher}
use goga.Config.Watch.Rounds.{Listed-put}

add_dirs-none :
    (fsw : Notifier) (ds : List String)
    → (add_dirs fsw ds).1 ≡ none
    → (add_dirs fsw ds).0 ≡ map added ds
unfolding add_dirs
add_dirs-none fsw [] h = refl
add_dirs-none fsw (d ∷ ds) h = elim (Option-cases (fsw.add d)) [
  | inr (e, bad) ↦ ground arith
  | inl fine ↦ let rest = add_dirs-none fsw ds (ground arith) in ground arith
]

add_dirs-closed :
    (fsw : Notifier) (ds : List String) (e : Error)
    → (add_dirs fsw ds).1 ≡ some e
    → Listed closed (add_dirs fsw ds).0
unfolding add_dirs
add_dirs-closed fsw [] e h = cc
add_dirs-closed fsw (d ∷ ds) e h = elim (Option-cases (fsw.add d)) [
  | inr (f, bad) ↦
      let calls : (add_dirs fsw (d ∷ ds)).0 ≡ added d ∷ closed ∷ [] = ground arith in
      rw calls (inr (inl refl))
  | inl fine ↦
      let calls : (add_dirs fsw (d ∷ ds)).0 ≡ added d ∷ (add_dirs fsw ds).0 = ground arith in
      rw calls (inr (add_dirs-closed fsw ds e (ground arith)))
]

module _ (clean dir : String → String) where
  -- Some path of the list is sent to `x`.
  abbrev pub From : (String → String) → List String → String → Type 0
  From f paths x = (path : String) × Listed path paths × (x ≡ f path)

  -- One more path on the set that a round of the loop extends
  put-From :
      (f : String → String) (path : String) (paths set : List String) (x : String)
      → (Listed x (put (f path) set) ⊎ From f paths x) ↔ (Listed x set ⊎ From f (path ∷ paths) x)
  put-From f path paths set x =
      let (to, from) = Listed-put x (f path) set in
      (
        λ m. elim m [
          | inl l ↦ elim (to l) [ inl old ↦ inl old | inr e ↦ inr (path, inl refl, e) ]
          | inr (p, l, e) ↦ inr (p, inr l, e)
        ],
        λ m. elim m [
          | inl old ↦ inl (from (inl old))
          | inr (p, inl same, e) ↦ inl (from (inr (e ∙ ap f same)))
          | inr (p, inr l, e) ↦ inr (p, l, e)
        ],
      )

  Listed-files :
      (x : String) (paths files dirs : List String)
      → Listed x (watched_paths clean dir paths (files, dirs)).0
        ↔ (Listed x files ⊎ From clean paths x)
  unfolding watched_paths
  Listed-files x [] files dirs =
      (λ m. inl m, λ m. elim m [ inl l ↦ l | inr (p, l, e) ↦ elim l [ ] ])
  Listed-files x (path ∷ paths) files dirs =
      let (to, from) =
        Listed-files x paths (put (clean path) files) (put (dir (clean path)) dirs) in
      let (there, back) = put-From clean path paths files x in
      (λ m. there (to m), λ m. from (back m))

  Listed-dirs :
      (x : String) (paths files dirs : List String)
      → Listed x (watched_paths clean dir paths (files, dirs)).1
        ↔ (Listed x dirs ⊎ From (λ p. dir (clean p)) paths x)
  unfolding watched_paths
  Listed-dirs x [] files dirs = (λ m. inl m, λ m. elim m [ inl l ↦ l | inr (p, l, e) ↦ elim l [ ] ])
  Listed-dirs x (path ∷ paths) files dirs =
      let (to, from) = Listed-dirs x paths (put (clean path) files) (put (dir (clean path)) dirs) in
      let (there, back) = put-From (λ p. dir (clean p)) path paths dirs x in
      (λ m. there (to m), λ m. from (back m))

  new_watcher-ok :
      (fsw : Notifier) (paths files : List String)
      → (new_watcher clean dir fsw paths).1 ≡ ok files
      → (files ≡ (watched_paths clean dir paths ([], [])).0)
        × ((new_watcher clean dir fsw paths).0
            ≡ map added (watched_paths clean dir paths ([], [])).1)
  unfolding new_watcher
  new_watcher-ok fsw paths files h = elim (Option-cases fsw.new) [
    | inr (e, bad) ↦ ground arith
    | inl there ↦
        let dirs = (watched_paths clean dir paths ([], [])).1 in
        elim (Option-cases (add_dirs fsw dirs).1) [
          | inr (e, bad) ↦ ground arith
          | inl fine ↦ let calls = add_dirs-none fsw dirs fine in (ground arith, ground arith)
        ]
  ]

  new_watcher-err :
      (fsw : Notifier) (paths : List String) (e : Error)
      → (new_watcher clean dir fsw paths).1 ≡ err e
      → fsw.new ≡ none
      → Listed closed (new_watcher clean dir fsw paths).0
  unfolding new_watcher
  new_watcher-err fsw paths e h there =
      let dirs = (watched_paths clean dir paths ([], [])).1 in
      elim (Option-cases (add_dirs fsw dirs).1) [
        | inl fine ↦ ground arith
        | inr (f, bad) ↦
            let calls : (new_watcher clean dir fsw paths).0 ≡ (add_dirs fsw dirs).0 =
              ground arith in
            rw calls (add_dirs-closed fsw dirs f bad)
      ]

  -- When newWatcher succeeds it watches exactly the cleaned paths, with no test of whether a file is
  -- there, it has added the directory of each to the fsnotify watcher, and has not closed that; when it
  -- fails with an fsnotify watcher at hand, it has closed it.
  pub new_watcher_outcome :
      (fsw : Notifier) (paths : List String)
      → ((files : List String)
          → (new_watcher clean dir fsw paths).1 ≡ ok files
          → ((x : String) → Listed x files ↔ From clean paths x)
            × ((path : String)
                → Listed path paths
                → Listed (added (dir (clean path))) (new_watcher clean dir fsw paths).0)
            × (¬ Listed closed (new_watcher clean dir fsw paths).0))
        × ((e : Error)
            → (new_watcher clean dir fsw paths).1 ≡ err e
            → fsw.new ≡ none
            → Listed closed (new_watcher clean dir fsw paths).0)
  new_watcher_outcome fsw paths = (
    λ files h.
        let (same, calls) = new_watcher-ok fsw paths files h in
        (
          λ x.
              let (to, from) = Listed-files x paths [] [] in
              (
                λ m. elim (to (rw same at m)) [ inl n ↦ elim n [ ] | inr f ↦ f ],
                λ f. rw same (from (inr f)),
              ),
          λ path m. rw calls (
              Listed-map added (dir (clean path)) (watched_paths clean dir paths ([], [])).1
                ((Listed-dirs (dir (clean path)) paths [] []).1 (inr (path, m, refl)))),
          λ m.
              let (d, e, l) =
                Listed-map_inv added closed (watched_paths clean dir paths ([], [])).1
                  (rw calls at m) in
              cc,
        ),
    new_watcher-err fsw paths,
  )
