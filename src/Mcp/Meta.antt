-- ===== src/Mcp/Meta.antt =====
-- mcp/trace.go: trace context in _meta, whose values are texts or something else. The W3C propagator
-- works through a carrier and is a parameter.
use goga.Prelude.{String, none, some, List, [], ◌∷◌}
use goga.Prelude.Dict.{Dict, lookup, insert, keys}

-- A value of the map[string]any
pub data MetaValue : Type 0 where
  text : String → MetaValue
  other : MetaValue

abbrev pub Meta : Type 0
Meta = Dict MetaValue

-- `metaCarrier.Get`
unfoldable pub get : Meta → String → String
get c key = elim (lookup key c) [ some (text s) ↦ s | some other ↦ "" | none ↦ "" ]

-- `metaCarrier.Set`
unfoldable pub set : Meta → String → String → Meta
set c key value = insert key (text value) c

-- `metaCarrier.Keys`
unfoldable pub carrier_keys : Meta → List String
carrier_keys c = keys c

module _ (Ctx : Type 0) where
  -- The propagator: what Extract reads of a carrier by Get, and what Inject sets
  pub record Propagator : Type 0 where
    pub extract : Ctx → (String → String) → Ctx
    pub inject : Ctx → Dict String

  -- The calls of Set that Inject makes
  unfoldable pub set_all : Meta → Dict String → Meta
  unfolding set
  set_all c [] = c
  set_all c ((key, value) ∷ fields) = set_all (set c key value) fields

  module _ (propagator : Propagator) where
    -- `extractTraceContext`
    unfoldable pub extract_trace_context : Ctx → Meta → Ctx
    unfolding get
    extract_trace_context ctx [] = ctx
    extract_trace_context ctx (field ∷ fields) = propagator.extract ctx (get (field ∷ fields))

    -- `injectTraceContext`; nil is the empty list
    unfoldable pub inject_trace_context : Ctx → Meta
    unfolding set_all
    inject_trace_context ctx = set_all [] (propagator.inject ctx)
