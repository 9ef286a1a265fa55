-- ===== src/Mcp/Handlers/Contained.antt =====
-- What a call of a handler does, however the project's function ends.
use goga.Prelude.{
  ◌≡◌, refl, ℕ, String, Bool, Option, none, some, List, [], ◌∷◌, ◌++◌, arith, sym, subst,
}
use goga.Prelude.Dict.{Dict}
use goga.Errors.{ok, err, raw, wrap, within, ◌>>=◌, is}
use goga.Semconv.{KeyValue, mcp_prompt_name}
use goga.Context.{Context, with_timeout}
use goga.Mcp.Settings.{Failure, Error, Result, Kind, tool, resource, prompt, panicked}
use goga.Mcp.Details.{ToolSettings, ResourceSettings}
use goga.Mcp.Handlers.{
  Outcome, returned, panics, Act, opened, called, logged, closed, released, Handled, contain,
  tool_error, handle_tool, handle_resource, handle_prompt, Contents, contents, Json,
  decode_prompt_arguments,
}

-- The errors that the spans of a trace ended with, the contexts of the project's function, and the
-- panics that were logged
unfoldable pub endings : List Act → List (Option Error)
endings [] = []
endings (closed e ∷ acts) = e ∷ endings acts
endings (_ ∷ acts) = endings acts

unfoldable pub calls : List Act → List Context
calls [] = []
calls (called ctx ∷ acts) = ctx ∷ calls acts
calls (_ ∷ acts) = calls acts

unfoldable pub panics_logged : List Act → List ℕ
panics_logged [] = []
panics_logged (logged kind name v ∷ acts) = v ∷ panics_logged acts
panics_logged (_ ∷ acts) = panics_logged acts

abbrev pub failure_of : {A : Type 0} → Result A → Option Error
failure_of (ok a) = none
failure_of (err e) = some e

-- What a handler returns for what the function did: its panic, or its error with what is found in it
abbrev pub Reported : {A B : Type 0} → Kind → String → Outcome A → Result B → Type 0
Reported kind name (panics v) result = result ≡ err (raw (panicked kind name v))
Reported kind name (returned (err e)) result =
    (f : Error) × (result ≡ err f) × ((test : Failure → Bool) → is test f ≡ is test e)
Reported {B = B} kind name (returned (ok a)) result = (b : B) × (result ≡ ok b)

abbrev pub values : {A : Type 0} → Outcome A → List ℕ
values (panics v) = v ∷ []
values (returned r) = []

-- A span that is opened first and ends once, with the error that the handler returns; one call of the
-- function in the context; its end reported, a panic with one record in the log.
abbrev pub Contained : {A B : Type 0} → Kind → String → Context → Outcome A → Handled B → Type 0
Contained kind name ctx outcome (acts, result) =
    (endings acts ≡ failure_of result ∷ [])
    × (calls acts ≡ ctx ∷ [])
    × (panics_logged acts ≡ values outcome)
    × Reported kind name outcome result

shown : Unit {0}
unfolding endings calls panics_logged handle_tool handle_resource contain is
shown = tt

-- What handle_resource makes of the function's result
abbrev resource_result : ResourceSettings → String → Result (String × String) → Result Contents
resource_result rs requested r =
    within "goga/mcp: reading resource" r >>= (λ read. ok (contents requested rs read))

prompt_path :
    {In Messages : Type 0} (json : Json In Messages) (name : String)
    (fn : Context → In → Outcome Messages) (ctx : Context) (args : Dict String) (decoded : In)
    → decode_prompt_arguments In Messages json args ≡ ok decoded
    → handle_prompt In Messages json name fn ctx args ≡ (
      opened "prompt" (mcp_prompt_name name ∷ [])
          ∷ called ctx
          ∷ (contain prompt name (fn ctx decoded) (within "goga/mcp: rendering prompt")).0,
      (contain prompt name (fn ctx decoded) (within "goga/mcp: rendering prompt")).1,
    )
unfolding handle_prompt
prompt_path json name fn ctx args decoded h = ground arith

tool_ends :
    {Out : Type 0} (name : String) (ctx : Context) (attrs : List KeyValue) (outcome : Outcome Out)
    → Contained tool name ctx outcome (
      opened "tool" attrs ∷ called ctx ∷ (contain tool name outcome (tool_error name)).0
          ++ released ∷ [],
      (contain tool name outcome (tool_error name)).1,
    )
unfolding shown
tool_ends name ctx attrs (panics v) = (refl, refl, refl, refl)
tool_ends name ctx attrs (returned (err e)) = (refl, refl, refl, (wrap name e, refl, λ test. refl))
tool_ends name ctx attrs (returned (ok a)) = (refl, refl, refl, (a, refl))

resource_ends :
    (uri : String) (ctx : Context) (attrs : List KeyValue) (rs : ResourceSettings)
    (requested : String) (outcome : Outcome (String × String))
    → Contained resource uri ctx outcome (
      opened "resource" attrs
          ∷ called ctx
          ∷ (contain resource uri outcome (resource_result rs requested)).0,
      (contain resource uri outcome (resource_result rs requested)).1,
    )
unfolding shown
resource_ends uri ctx attrs rs requested (panics v) = (refl, refl, refl, refl)
resource_ends uri ctx attrs rs requested (returned (err e)) =
    (refl, refl, refl, (wrap "goga/mcp: reading resource" e, refl, λ test. refl))
resource_ends uri ctx attrs rs requested (returned (ok (bytes, own))) =
    (refl, refl, refl, (contents requested rs (bytes, own), refl))

prompt_ends :
    {Messages : Type 0} (name : String) (ctx : Context) (attrs : List KeyValue)
    (outcome : Outcome Messages)
    → Contained prompt name ctx outcome (
      opened "prompt" attrs
          ∷ called ctx
          ∷ (contain prompt name outcome (within "goga/mcp: rendering prompt")).0,
      (contain prompt name outcome (within "goga/mcp: rendering prompt")).1,
    )
unfolding shown
prompt_ends name ctx attrs (panics v) = (refl, refl, refl, refl)
prompt_ends name ctx attrs (returned (err e)) =
    (refl, refl, refl, (wrap "goga/mcp: rendering prompt" e, refl, λ test. refl))
prompt_ends name ctx attrs (returned (ok a)) = (refl, refl, refl, (a, refl))

-- A call of a tool's handler, a resource's, or a prompt's whose arguments decode, however the
-- project's function ends: the span ends exactly once, with the error that the handler returns; the
-- function is called once; where it returns an error, what errors.Is finds in that is what it finds in
-- the handler's; and where it panics, the handler returns an error that says so and logs it once.
pub handlers-Contained :
    {In Out Messages : Type 0} (name : String) (ts : ToolSettings) (rs : ResourceSettings)
    (json : Json In Messages) (ctx : Context) (tool_fn : Context → In → Outcome Out)
    (session : Option String) (arguments : In)
    (resource_fn : Context → String → Outcome (String × String)) (requested : String)
    (prompt_fn : Context → In → Outcome Messages) (args : Dict String) (decoded : In)
    → decode_prompt_arguments In Messages json args ≡ ok decoded
    → Contained tool name
        (with_timeout ts.timeout ctx)
        (tool_fn (with_timeout ts.timeout ctx) arguments)
        (handle_tool name ts tool_fn ctx session arguments)
      × Contained resource name ctx
          (resource_fn ctx requested)
          (handle_resource name rs resource_fn ctx requested)
      × Contained prompt name ctx
          (prompt_fn ctx decoded)
          (handle_prompt In Messages json name prompt_fn ctx args)
unfolding handle_tool handle_resource
handlers-Contained name ts rs json ctx tool_fn session arguments resource_fn requested prompt_fn
      args decoded h =
    (
      tool_ends name (with_timeout ts.timeout ctx) _
          (tool_fn (with_timeout ts.timeout ctx) arguments),
      resource_ends name ctx _ rs requested (resource_fn ctx requested),
      subst (Contained prompt name ctx (prompt_fn ctx decoded))
          (sym (prompt_path json name prompt_fn ctx args decoded h))
          (prompt_ends name ctx (mcp_prompt_name name ∷ []) (prompt_fn ctx decoded)),
    )

pub tool_calls :
    {In Out : Type 0} (name : String) (ts : ToolSettings) (fn : Context → In → Outcome Out)
    (ctx : Context) (session : Option String) (arguments : In)
    → calls (handle_tool name ts fn ctx session arguments).0 ≡ with_timeout ts.timeout ctx ∷ []
unfolding handle_tool calls
tool_calls name ts fn ctx session arguments =
    (tool_ends name (with_timeout ts.timeout ctx) [] (fn (with_timeout ts.timeout ctx) arguments)).1
