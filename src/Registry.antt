-- ===== src/Registry.antt =====
-- registry/registry.go: adapter names to constructors. Go's type parameters are erased: a value is
-- dynamic, and the runtime types that the code compares are arguments or fields. What a call does to
-- the decoder and to constructors is kept as a list of calls beside its result. A context is passed
-- on and is otherwise unused; locking makes each operation one step, and is not modelled.
pub mod Names
pub mod Opening
pub mod Handles
use goga.Prelude.{
  ℕ, String, Bool, true, false, Option, none, some, List, [], ◌∷◌, ◌++◌, eqb, if◌then◌else◌,
}
use goga.Prelude.Dict.{Dict, lookup, insert, keys}
use goga.Sorting.{sort_strings}
use goga.Errors
use goga.Errors.{ok, err, raw, wrap}
use goga.Options.{Setter, apply}

-- reflect.Type: equal numbers for identical types
abbrev pub GoType : Type 0
GoType = ℕ

pub data Failure : Type 0 where
  nil_constructor : String → Failure
  -- The name, and the port of the registration that has it.
  duplicate_name : String → GoType → Failure
  -- The name, the port asked for, and the registered names.
  unknown_name : String → GoType → List String → Failure
  -- The name, the port registered and the port asked for.
  port_mismatch : String → GoType → GoType → Failure
  -- A sink, and a handle's settings, of another type than the registration's; a zero handle.
  wrong_sink : GoType → GoType → Failure
  wrong_settings : String → GoType → GoType → Failure
  zero_handle : String → Failure
  foreign : ℕ → Failure

abbrev pub Error : Type 0
Error = Errors.Error Failure

abbrev pub Result : Type 0 → Type 0
Result A = Errors.Result Failure A

-- A call of the decoder or of a constructor.
pub data Call : Type 0 where
  decoder_called constructor_called : GoType → Call

module _ (Any : Type 0) where
  -- `Settings`: raw configuration by key
  abbrev pub Raw : Type 0
  Raw = Dict Any

  -- `Decode`, for a destination of the given type
  abbrev pub Decode : Type 0
  Decode = Raw → GoType → Result Any

  -- A constructor from settings to a port
  abbrev pub Constructor : Type 0
  Constructor = Any → Result Any

  pub record Entry : Type 0 where
    pub port : GoType
    pub settings : GoType
    pub ctor : Constructor

  pub record Registry : Type 0 where
    pub decode : Decode
    pub entries : Dict Entry

  -- New panics on a nil decoder.
  unfoldable pub new : Option Decode → Option Registry
  new none = none
  new (some decode) = some (record { decode = decode; entries = [] })

  unfoldable pub register :
      Registry → String → GoType → GoType → Option Constructor → Registry × Option Error
  register r name port settings none = (r, some (raw (nil_constructor name)))
  register r name port settings (some ctor) = elim (lookup name r.entries) [
    | some prev ↦ (r, some (raw (duplicate_name name prev.port)))
    | none ↦ (
      record r {
        entries = insert name (record { port = port; settings = settings; ctor = ctor }) r.entries;
      },
      none,
    )
  ]

  unfoldable pub names : Registry → List String
  names r = sort_strings (keys r.entries)

  module _ (zero_value : GoType → Any) where
    -- What a call did, and its result
    abbrev pub Traced : Type 0
    Traced = List Call × Result Any

    -- `decodeSettings`
    unfoldable pub decode_settings : Decode → Raw → GoType → Traced
    decode_settings decode [] settings = ([], ok (zero_value settings))
    decode_settings decode (first ∷ rest) settings = elim (decode (first ∷ rest) settings) [
      | ok s ↦ (decoder_called settings ∷ [], ok s)
      | err e ↦ (decoder_called settings ∷ [], err (wrap "decoding settings into" e))
    ]

    -- Call the constructor after what was done before.
    abbrev pub construct : List Call → GoType → Constructor → Any → Traced
    construct before port ctor s = (before ++ constructor_called port ∷ [], ctor s)

    -- The closure `open` of an entry, for a sink that is a pointer to the given type
    unfoldable pub entry_open : Entry → Decode → Raw → GoType → Traced
    entry_open e decode raw_settings sink =
        let (calls, decoded) = decode_settings decode raw_settings e.settings in
        elim decoded [
          | err f ↦ (calls, err f)
          | ok s ↦
              let (all_calls, built) = construct calls e.port e.ctor s in
              elim built [
                | err f ↦ (all_calls, err f)
                | ok p ↦
                    if eqb sink e.port
                    then (all_calls, ok p)
                    else (all_calls, err (raw (wrong_sink sink e.port)))
              ]
        ]

    abbrev pub open_message : String
    open_message = "goga/registry: open"

    -- `Open`, for the port that the caller instantiates it with
    unfoldable pub open_port : Registry → GoType → String → Raw → Traced
    open_port r port name raw_settings = elim (lookup name r.entries) [
      | none ↦ ([], err (raw (unknown_name name port (names r))))
      | some e ↦
          if eqb e.port port
          then (let (calls, result) = entry_open e r.decode raw_settings port in
              (calls, Errors.within open_message result))
          else ([], err (raw (port_mismatch name e.port port)))
    ]

    -- `Adapter`; the registry is an address, and the type parameters are fields.
    pub record Adapter : Type 0 where
      pub name : String
      pub reg : Option ℕ
      pub port : GoType
      pub settings : GoType

    -- `Provide` on the registry at an address: on an error the handle is the zero one.
    unfoldable pub provide :
        ℕ
        → Registry
        → String
        → GoType
        → GoType
        → Option Constructor
        → Registry × Adapter × Option Error
    provide address r name port settings ctor =
        let (r', failure) = register r name port settings ctor in
        elim failure [
          | some e ↦
              (r', record { name = ""; reg = none; port = port; settings = settings }, some e)
          | none ↦ (
            r',
            record { name = name; reg = some address; port = port; settings = settings },
            none,
          )
        ]

    -- The end of Adapter.Open, from the settings on
    unfoldable pub open_with :
        Adapter → Entry → List (Setter Failure Any) → List Call → Any → Traced
    open_with a e opts calls s =
        let (t, failure) = apply s opts in
        elim failure [
          | some f ↦ (calls, err f)
          | none ↦
              let (all_calls, built) = construct calls a.port e.ctor t in
              (all_calls, Errors.within open_message built)
        ]

    unfoldable pub open_registered : Registry → Adapter → Raw → List (Setter Failure Any) → Traced
    open_registered r a raw_settings opts = elim (lookup a.name r.entries) [
      | none ↦ ([], err (raw (unknown_name a.name a.port (names r))))
      | some e ↦
          if eqb e.port a.port
          then (if eqb e.settings a.settings
              then (let (calls, decoded) = decode_settings r.decode raw_settings a.settings in
                  elim decoded [
                    | err f ↦ (calls, err (wrap open_message f))
                    | ok s ↦ open_with a e opts calls s
                  ])
              else ([], err (raw (wrong_settings a.name a.settings e.settings))))
          else ([], err (raw (port_mismatch a.name e.port a.port)))
    ]

    -- `Adapter.Open`, where the registries stand at their addresses
    unfoldable pub adapter_open :
        (ℕ → Registry) → Adapter → Raw → List (Setter Failure Any) → Traced
    adapter_open heap a raw_settings opts = elim a.reg [
      | none ↦ ([], err (raw (zero_handle a.name)))
      | some address ↦ open_registered (heap address) a raw_settings opts
    ]
