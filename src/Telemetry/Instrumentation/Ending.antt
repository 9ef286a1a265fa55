-- ===== src/Telemetry/Instrumentation/Ending.antt =====
-- The closer of a span, called any number of times.
use goga.Prelude.{
  ◌≡◌, refl, ℕ, String, Bool, true, false, Option, none, some, List, [], ◌∷◌, ◌++◌, arith, inl, inr,
  Option-cases, filter, length,
}
use goga.Semconv.{KeyValue}
use goga.Telemetry.Settings.{Error}
use goga.Telemetry.Instrumentation.{
  Resolved, Closer, Effect, error_counted, duration_recorded, span_ended, start, finish, end_span,
}

module _ (Part : Type 0) (type_of : Error → String) where
  -- Calls of a closer, each with its error and its time
  unfoldable pub end_all : Closer Part → List (Option Error × ℕ) → List (Effect Part)
  unfolding end_span
  end_all c [] = []
  end_all c ((e, now) ∷ calls) =
      let (d, effects) = end_span Part type_of c e now in effects ++ end_all d calls

  abbrev pub is_end : Effect Part → Bool
  is_end span_ended = true
  is_end _ = false

  abbrev pub is_count : Effect Part → Bool
  is_count (error_counted part set) = true
  is_count _ = false

  abbrev pub is_measure : Effect Part → Bool
  is_measure (duration_recorded part elapsed set) = true
  is_measure _ = false

  -- 1 where there is an instrument
  abbrev pub present : Option Part → ℕ
  present none = 0
  present (some part) = 1

  -- 1 where there is an instrument and an error
  abbrev pub failures : Option Error → Option Part → ℕ
  failures none part = 0
  failures (some e) part = present part

  end_all-done :
      (c : Closer Part) (calls : List (Option Error × ℕ)) → c.done ≡ true → end_all c calls ≡ []
  unfolding end_all
  end_all-done c [] h = refl
  end_all-done c ((e, now) ∷ calls) h = ground (arith, end_all-done c calls h)

  once :
      (c : Closer Part) (e : Option Error) (now : ℕ) (later : List (Option Error × ℕ))
      → c.done ≡ false
      → end_all c ((e, now) ∷ later) ≡ end_all c ((e, now) ∷ [])
  unfolding end_all
  once c e now later h = ground (arith, end_all-done (record c { done = true }) later refl)

  first_call :
      (c : Closer Part) (e : Option Error) (now : ℕ)
      → c.done ≡ false
      → (length (filter is_end (end_all c ((e, now) ∷ []))) ≡ 1)
        × (length (filter is_measure (end_all c ((e, now) ∷ []))) ≡ present c.resolved.duration)
        × (length (filter is_count (end_all c ((e, now) ∷ []))) ≡ failures e c.resolved.errors)
  unfolding end_all finish
  first_call c none now h = elim (Option-cases c.resolved.duration) [
    | inl nil ↦ (ground arith, ground arith, ground arith)
    | inr (d, there) ↦ (ground arith, ground arith, ground arith)
  ]
  first_call c (some f) now h = elim (Option-cases c.resolved.duration) [
    | inl nil ↦ elim (Option-cases c.resolved.errors) [
      | inl no_counter ↦ (ground arith, ground arith, ground arith)
      | inr (k, counts) ↦ (ground arith, ground arith, ground arith)
    ]
    | inr (d, there) ↦ elim (Option-cases c.resolved.errors) [
      | inl no_counter ↦ (ground arith, ground arith, ground arith)
      | inr (k, counts) ↦ (ground arith, ground arith, ground arith)
    ]
  ]

  -- The closer that Start returns does on its first call what it ever does: further calls, with
  -- whatever errors, add nothing. That call ends the span once, records the duration once where there
  -- is a histogram, and counts an error once where it is given one and there is a counter.
  pub closer_once :
      (name : String) (r : Resolved Part) (op : String) (attrs : List KeyValue) (begun : ℕ)
      (e : Option Error) (now : ℕ) (later : List (Option Error × ℕ))
      → (end_all (start Part name r op attrs begun).0 ((e, now) ∷ later)
          ≡ end_all (start Part name r op attrs begun).0 ((e, now) ∷ []))
        × (length (filter is_end (end_all (start Part name r op attrs begun).0 ((e, now) ∷ later)))
            ≡ 1)
        × (length
              (filter is_measure (end_all (start Part name r op attrs begun).0 ((e, now) ∷ later)))
            ≡ present r.duration)
        × (length
              (filter is_count (end_all (start Part name r op attrs begun).0 ((e, now) ∷ later)))
            ≡ failures e r.errors)
  closer_once name r op attrs begun e now later =
      let c = (start Part name r op attrs begun).0 in
      let same = once c e now later (unfold start in refl) in
      let (ended, timed, failed) = first_call c e now (unfold start in refl) in
      rw same (refl, ended, unfold start in timed, unfold start in failed)
