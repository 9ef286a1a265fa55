-- ===== src/Mcp/Client.antt =====
-- mcp/client.go. The SDK's session is given by what its calls answer; `Ctx` is a context beside the
-- time that is left, for the trace that it carries.
use goga.Prelude.{ℕ, String, Option, none, some, List, [], ◌∷◌}
use goga.Prelude.Dict.{Dict}
use goga.Errors.{ok, err, raw, wrap, within}
use goga.Context.{Context, with_timeout}
use goga.Options.{apply}
use goga.Semconv.{KeyValue, mcp_tool_name, mcp_resource_uri, mcp_prompt_name}
use goga.Mcp.Settings.{Error, Result, nil_client_transport}
use goga.Mcp.Details.{ClientOption, client_defaults}
use goga.Mcp.Meta.{Meta, Propagator, inject_trace_context}
use goga.Mcp.Server.{Span, failure_of}

module _ (Session Ctx Reply : Type 0) where
  pub record Client : Type 0 where
    pub session : Session
    pub instr : String
    pub call_timeout : ℕ

  -- What the SDK answers: to a connection under a name and version, to a call of a session with a
  -- method's parameters, and to the end of a session
  pub record Sdk : Type 0 where
    pub connect : String → String → ℕ → Result Session
    pub call_tool : Session → Context → Meta → String → String → Result Reply
    pub read_resource : Session → Context → Meta → String → Result Reply
    pub get_prompt : Session → Context → Meta → String → Dict String → Result Reply
    pub close : Session → Option Error

  -- The span of an operation, ended with its error
  abbrev pub spanned :
      {A : Type 0} → String → String → List KeyValue → Result A → List Span × Result A
  spanned instr op attrs result =
      (record { instr = instr; op = op; attrs = attrs; outcome = failure_of result } ∷ [], result)

  module _ (sdk : Sdk) (propagator : Propagator Ctx) where
    -- `Connect`
    unfoldable pub connect : List ClientOption → List Span × Result Client
    unfolding apply
    connect opts =
        let (s, failure) = apply client_defaults opts in
        elim failure [
          | some e ↦ ([], err e)
          | none ↦ elim s.transport [
            | none ↦ ([], err (raw nil_client_transport))
            | some transport ↦
                spanned s.instr "client.connect" [] (elim (sdk.connect s.name s.version transport) [
                  | err e ↦ err (wrap "goga/mcp: connecting" e)
                  | ok session ↦
                      ok (record {
                        session = session;
                        instr = s.instr;
                        call_timeout = s.call_timeout;
                      })
                ])
          ]
        ]

    -- `CallTool`, with the arguments as the SDK is given them
    unfoldable pub call_tool : Client → Context → Ctx → String → String → List Span × Result Reply
    unfolding with_timeout inject_trace_context mcp_tool_name
    call_tool c ctx trace name arguments = spanned c.instr "client.tool" (mcp_tool_name name ∷ []) (
        within "goga/mcp: calling tool" (
          sdk.call_tool c.session (with_timeout c.call_timeout ctx)
            (inject_trace_context Ctx propagator trace) name arguments))

    -- `ReadResource`
    unfoldable pub read_resource : Client → Context → Ctx → String → List Span × Result Reply
    unfolding with_timeout inject_trace_context mcp_resource_uri
    read_resource c ctx trace uri = spanned c.instr "client.resource" (mcp_resource_uri uri ∷ []) (
        within "goga/mcp: reading resource" (
          sdk.read_resource c.session (with_timeout c.call_timeout ctx)
            (inject_trace_context Ctx propagator trace) uri))

    -- `GetPrompt`
    unfoldable pub get_prompt :
        Client → Context → Ctx → String → Dict String → List Span × Result Reply
    unfolding with_timeout inject_trace_context mcp_prompt_name
    get_prompt c ctx trace name arguments =
        spanned c.instr "client.prompt" (mcp_prompt_name name ∷ []) (
          within "goga/mcp: getting prompt" (
            sdk.get_prompt c.session (with_timeout c.call_timeout ctx)
              (inject_trace_context Ctx propagator trace) name arguments))

    -- `Close`
    unfoldable pub close : Client → Option Error
    close c = elim (sdk.close c.session) [
      | none ↦ none
      | some e ↦ some (wrap "goga/mcp: closing client session" e)
    ]
