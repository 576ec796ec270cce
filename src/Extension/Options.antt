-- ===== src/Extension/Options.antt =====
-- extension/options.go: what the connectors can be configured with. The logger and the context are
-- opaque; the cancel function is a change of the state `S` that it acts on, and a retry function
-- turns one attempt (a state change that may fail) into several.
use go_streams.Prelude.{Bool, List, [], ◌∷◌}

-- An attempt: the state after it, and whether it succeeded.
abbrev pub Attempt : Type 0 → Type 0
Attempt S = S → S × Bool

pub record Options (Logger Context S : Type 0) : Type 0 where
  pub logger : Logger
  pub ctx : Context
  pub ctx_cancel : S → S
  pub retry_func : Context → Attempt S → Attempt S

-- `makeDefaultOptions`, over the default logger and the background context
unfoldable pub make_default_options :
    {Logger Context S : Type 0} → Logger → Context → Options Logger Context S
make_default_options default_logger background = record {
  logger = default_logger;
  ctx = background;
  ctx_cancel = λ s. s;
  retry_func = λ _ f. f;
}

abbrev pub Opt : Type 0 → Type 0 → Type 0 → Type 0
Opt Logger Context S = Options Logger Context S → Options Logger Context S

-- `WithLogger`
unfoldable pub with_logger : {Logger Context S : Type 0} → Logger → Opt Logger Context S
with_logger new_logger o = record o { logger = new_logger }

-- `WithContext`
unfoldable pub with_context : {Logger Context S : Type 0} → Context → Opt Logger Context S
with_context new_ctx o = record o { ctx = new_ctx }

-- `WithContextCancel`
unfoldable pub with_context_cancel : {Logger Context S : Type 0} → (S → S) → Opt Logger Context S
with_context_cancel cancel o = record o { ctx_cancel = cancel }

-- `WithRetryFunc`
unfoldable pub with_retry_func :
    {Logger Context S : Type 0} → (Context → Attempt S → Attempt S) → Opt Logger Context S
with_retry_func retry o = record o { retry_func = retry }

-- `for _, opt := range opts { opt(&options) }`
unfoldable pub apply_options :
    {Logger Context S : Type 0}
    → List (Opt Logger Context S)
    → Options Logger Context S
    → Options Logger Context S
apply_options [] o = o
apply_options (opt ∷ opts) o = apply_options opts (opt o)
