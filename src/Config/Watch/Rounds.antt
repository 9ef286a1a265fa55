-- ===== src/Config/Watch/Rounds.antt =====
-- The rounds of the watcher's loop: what a tick reports, and what is reported at all.
use goga.Prelude.{
  Once, append-Once, ◌≡◌, ◌≢◌, refl, sym, subst, ◌↔◌, ◌⊎◌, inl, inr, String, Bool-cases, true,
  false, List, [], ◌∷◌, map, ◌==◌, eq_iff, Listed, Listed-append_left, Listed-append_right,
  Listed-append_cases, Listed-map, Listed-map_inv, arith, if◌then◌else◌,
}
use goga.Config.Watch.{
  has, put, FileEvent, interesting, Loop, Input, done, events_closed, errors_closed, tick, event,
  error, Callback, changed, take_event, Step, on_done, on_events_closed, on_errors_closed, on_event,
  on_tick, on_error, Run, started, and_then,
}

has-Listed : (ts : List String) (s : String) → has ts s ≡ true → Listed s ts
unfolding has
has-Listed [] s h = cc
has-Listed (t ∷ ts) s h = elim (Bool-cases (t == s)) [
  | inl same ↦ inl (ground (arith, eq_iff t s))
  | inr other ↦ inr (has-Listed ts s (ground arith))
]

Listed-has : (ts : List String) (s : String) → Listed s ts → has ts s ≡ true
unfolding has
Listed-has [] s m = elim m [ ]
Listed-has (t ∷ ts) s (inl e) = ground (arith, eq_iff t s)
Listed-has (t ∷ ts) s (inr m) = let later = Listed-has ts s m in ground arith

pub Listed-put : (x s : String) (ts : List String) → Listed x (put s ts) ↔ (Listed x ts ⊎ (x ≡ s))
unfolding put
Listed-put x s ts = elim (Bool-cases (has ts s)) [
  | inl there ↦
      rw there (λ m. inl m, λ m. elim m [ inl l ↦ l | inr e ↦ rw e (has-Listed ts s there) ])
  | inr new ↦ rw new (
    λ m. elim (Listed-append_cases x ts (s ∷ []) m) [
      | inl l ↦ inl l
      | inr (inl e) ↦ inr e
      | inr (inr n) ↦ elim n [ ]
    ],
    λ m. elim m [
      | inl l ↦ Listed-append_left x ts (s ∷ []) l
      | inr e ↦ Listed-append_right x ts (s ∷ []) (inl e)
    ],
  )
]

put-Once : (s : String) (ts : List String) → Once ts → Once (put s ts)
unfolding put
put-Once s ts once = elim (Bool-cases (has ts s)) [
  | inl there ↦ rw there once
  | inr new ↦ rw new (append-Once s ts once (λ l. cc (Listed-has ts s l)))
]

changed_inv : (p q : String) → changed p ≡ changed q → p ≡ q
changed_inv p q h = cc

map_changed-Once : (ps : List String) → Once ps → Once (map changed ps)
map_changed-Once [] once = tt
map_changed-Once (p ∷ ps) (first, once) = (
  λ m. let (q, e, l) = Listed-map_inv changed (changed p) ps m in first (rw (changed_inv p q e) l),
  map_changed-Once ps once,
)

module _ (clean : String → String) (files : List String) where
  -- The watched files that had an interesting event since the last tick, newest input first.
  abbrev pub due : List Input → List String
  due [] = []
  due (tick ∷ is) = []
  due (event e ∷ is) =
      let before = due is in if interesting clean files e then clean e.name ∷ before else before
  due (_ ∷ is) = due is

  -- What a run keeps: the pending paths are the due ones, once each, and the timer is armed exactly
  -- when there are any.
  record Accounts (is : List Input) (s : Loop) : Type 0 where
    pending_due : (p : String) → Listed p s.pending ↔ Listed p (due is)
    pending_once : Once s.pending
    armed_iff : (s.armed ≡ true) ↔ (s.pending ≢ [])

  put-nonempty : (p : String) (ps : List String) → put p ps ≢ []
  put-nonempty p ps e =
      let (there, back) = Listed-put p p ps in elim (subst (Listed p) e (back (inr refl))) [ ]

  event-Accounts :
      (is : List Input) (s : Loop) (e : FileEvent)
      → Accounts is s
      → Accounts (event e ∷ is) (take_event clean files s e)
  unfolding take_event
  event-Accounts is s e h = elim (Bool-cases (interesting clean files e)) [
    | inr dull ↦
        rw (dull, if◌then◌else◌)
          (record {
            pending_due = λ p. rw (dull, if◌then◌else◌) (h.pending_due p);
            pending_once = h.pending_once;
            armed_iff = h.armed_iff;
          })
    | inl hit ↦
        rw (hit, if◌then◌else◌)
          (record {
            pending_due = λ p.
                rw (hit, if◌then◌else◌)
                  (let (there, back) = Listed-put p (clean e.name) s.pending in
                    let (to, from) = h.pending_due p in
                    (
                      λ m. elim (there m) [ inl l ↦ inr (to l) | inr q ↦ inl q ],
                      λ m. elim m [ inl q ↦ back (inr q) | inr l ↦ back (inl (from l)) ],
                    ));
            pending_once = put-Once (clean e.name) s.pending h.pending_once;
            armed_iff = (λ t. put-nonempty (clean e.name) s.pending, λ n. refl);
          })
  ]

  Run-Accounts :
      {is : List Input} {cs : List Callback} {s : Loop} → Run clean files is cs s → Accounts is s
  Run-Accounts started = record {
    pending_due = λ p. (λ m. m, λ m. m);
    pending_once = tt;
    armed_iff = (λ h. cc, λ h. absurd (h refl));
  }
  Run-Accounts (and_then r (on_done s running)) =
      let h = Run-Accounts r in
      record { pending_due = h.pending_due; pending_once = h.pending_once; armed_iff = h.armed_iff }
  Run-Accounts (and_then r (on_events_closed s running)) =
      let h = Run-Accounts r in
      record { pending_due = h.pending_due; pending_once = h.pending_once; armed_iff = h.armed_iff }
  Run-Accounts (and_then r (on_errors_closed s running)) =
      let h = Run-Accounts r in
      record { pending_due = h.pending_due; pending_once = h.pending_once; armed_iff = h.armed_iff }
  Run-Accounts (and_then r (on_event s e running)) = event-Accounts _ s e (Run-Accounts r)
  Run-Accounts (and_then r (on_tick s running armed)) = record {
    pending_due = λ p. (λ m. m, λ m. m);
    pending_once = tt;
    armed_iff = (λ h. cc, λ h. absurd (h refl));
  }
  Run-Accounts (and_then r (on_error s f running)) =
      let h = Run-Accounts r in
      record { pending_due = h.pending_due; pending_once = h.pending_once; armed_iff = h.armed_iff }

  tick-pending :
      {s t : Loop} {out : List Callback}
      → Step clean files s tick out t
      → out ≡ map changed s.pending
  tick-pending (on_tick s running armed) = refl

  -- In any run of the loop: a tick calls onChange once for each path that is due and for no other;
  -- and while a path is due and the loop runs, the timer is armed and a tick that calls onChange for
  -- it is possible.
  pub tick_reports_due :
      (is : List Input) (cs : List Callback) (s : Loop)
      → Run clean files is cs s
      → ((out : List Callback) (t : Loop)
          → Step clean files s tick out t
          → Once out × ((p : String) → Listed (changed p) out ↔ Listed p (due is)))
        × ((p : String)
            → s.running ≡ true
            → Listed p (due is)
            → (out : List Callback) × (t : Loop) × Step clean files s tick out t
              × Listed (changed p) out)
  tick_reports_due is cs s r = (
    λ out t ticked.
        let h = Run-Accounts r in
        let calls = tick-pending ticked in
        (
          rw calls (map_changed-Once s.pending h.pending_once),
          λ p. (
            λ m.
                let (q, e, l) = Listed-map_inv changed (changed p) s.pending (rw calls at m) in
                (h.pending_due p).0 (rw (changed_inv p q e) l),
            λ m. rw calls (Listed-map changed p s.pending ((h.pending_due p).1 m)),
          ),
        ),
    λ p running m.
        let h = Run-Accounts r in
        let there = (h.pending_due p).1 m in
        let armed = h.armed_iff.1 (λ e. elim (subst (Listed p) e there) [ ]) in
        (
          map changed s.pending,
          record s { pending = []; armed = false },
          on_tick s running armed,
          Listed-map changed p s.pending there,
        ),
  )

  -- An interesting event on a path, among what the loop received
  abbrev pub Noticed : String → List Input → Type 0
  Noticed p is =
      (e : FileEvent) × Listed (event e) is
      × (clean e.name ≡ p)
      × (interesting clean files e ≡ true)

  later_Noticed : (i : Input) (is : List Input) (p : String) → Noticed p is → Noticed p (i ∷ is)
  later_Noticed i is p (e, l, named, hit) = (e, inr l, named, hit)

  due-Noticed : (is : List Input) (p : String) → Listed p (due is) → Noticed p is
  due-Noticed [] p m = elim m [ ]
  due-Noticed (tick ∷ is) p m = elim m [ ]
  due-Noticed (event e ∷ is) p m = elim (Bool-cases (interesting clean files e)) [
    | inr dull ↦ later_Noticed (event e) is p (due-Noticed is p (rw (dull, if◌then◌else◌) at m))
    | inl hit ↦
        let shown : Listed p (clean e.name ∷ due is) = (rw (hit, if◌then◌else◌) at m) in
        elim shown [
          | inl q ↦ (e, inl refl, sym q, hit)
          | inr n ↦ later_Noticed (event e) is p (due-Noticed is p n)
        ]
  ]
  due-Noticed (done ∷ is) p m = later_Noticed done is p (due-Noticed is p m)
  due-Noticed (events_closed ∷ is) p m = later_Noticed events_closed is p (due-Noticed is p m)
  due-Noticed (errors_closed ∷ is) p m = later_Noticed errors_closed is p (due-Noticed is p m)
  due-Noticed (error f ∷ is) p m = later_Noticed (error f) is p (due-Noticed is p m)

  -- The calls of one round
  Step-Noticed :
      {is : List Input} {s t : Loop} {i : Input} {out : List Callback} (p : String)
      → Accounts is s
      → Step clean files s i out t
      → Listed (changed p) out
      → Noticed p is
  Step-Noticed p h (on_done s running) m = elim m [ ]
  Step-Noticed p h (on_events_closed s running) m = elim m [ ]
  Step-Noticed p h (on_errors_closed s running) m = elim m [ ]
  Step-Noticed p h (on_event s e running) m = elim m [ ]
  Step-Noticed {is} p h (on_tick s running armed) m =
      let (q, e, l) = Listed-map_inv changed (changed p) s.pending m in
      due-Noticed is p ((h.pending_due p).0 (rw (changed_inv p q e) l))
  Step-Noticed p h (on_error s f running) (inl e) = cc
  Step-Noticed p h (on_error s f running) (inr n) = elim n [ ]

  -- Every path that the loop ever calls onChange for had an interesting event before.
  pub changed-Noticed :
      (is : List Input) (cs : List Callback) (s : Loop) (p : String)
      → Run clean files is cs s
      → Listed (changed p) cs
      → Noticed p is
  changed-Noticed _ _ _ p started m = elim m [ ]
  changed-Noticed _ _ _ p (and_then {is} {cs} {s} {i} {out} {t} r step) m =
      later_Noticed i is p (elim (Listed-append_cases (changed p) cs out m) [
        | inl before ↦ changed-Noticed is cs s p r before
        | inr now ↦ Step-Noticed p (Run-Accounts r) step now
      ])
