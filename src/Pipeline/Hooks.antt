-- ===== src/Pipeline/Hooks.antt =====
-- internal/pipeline/hooks.go and the registration half of pipeline.go. A hook is one value with the
-- stages that it implements; a call of it returns the object that it has edited in place and a
-- decision, or panics after some edits. Clock, context and logger are left out.
use sniffy.Common.{Bool, List, [], ◌∷◌, ◌++◌, Option, none, some}
use sniffy.Common.Int.{ℤ}
use sniffy.Common.Sort.{sort_stable}
use sniffy.Common.Bytes.{Text}
use sniffy.Flow.{Flow, Decision, WsMessage, StreamMessage}

-- What a call of a hook comes to.
pub data Called (A : Type 0) : Type 0 where
  returned : A → Decision → Called A
  panicked : A → Called A

-- One stage of a hook: `RequestHook`, `ResponseHook`, `WSHook` or `StreamHook`.
pub record Hook (A : Type 0) : Type 0 where
  pub name : Text
  pub priority : ℤ
  pub enabled : Bool
  pub matches : Text → Bool
  pub call : A → Called A

-- A plugin: `h.(RequestHook)` and the like tell which stages it implements.
pub record Plugin : Type 0 where
  pub on_request : Option (Hook Flow)
  pub on_response : Option (Hook Flow)
  pub on_web_socket_message : Option (Hook WsMessage)
  pub on_stream_message : Option (Hook StreamMessage)
  pub on_connection : Option (Hook Text)

-- The hook lists of `Pipeline`; its breakpoint manager is a value of its own.
pub record Registry : Type 0 where
  pub req_hooks : List (Hook Flow)
  pub resp_hooks : List (Hook Flow)
  pub ws_hooks : List (Hook WsMessage)
  pub stream_hooks : List (Hook StreamMessage)
  pub conn_hooks : List (Hook Text)
  pub core_req : List (Hook Flow)
  pub core_resp : List (Hook Flow)
  pub core_ws : List (Hook WsMessage)
  pub core_stream : List (Hook StreamMessage)

-- `New`.
unfoldable pub new : Registry
new = record {
  req_hooks = [];
  resp_hooks = [];
  ws_hooks = [];
  stream_hooks = [];
  conn_hooks = [];
  core_req = [];
  core_resp = [];
  core_ws = [];
  core_stream = [];
}

-- `sort.SliceStable` by priority.
unfoldable pub by_priority : {A : Type 0} → List (Hook A) → List (Hook A)
unfolding sort_stable
by_priority hooks = sort_stable (λ h. h.priority) hooks

add_sorted : {A : Type 0} → List (Hook A) → Option (Hook A) → List (Hook A)
unfolding by_priority
add_sorted hooks none = hooks
add_sorted hooks (some h) = by_priority (hooks ++ h ∷ [])

unfoldable pub register : Registry → Plugin → Registry
unfolding add_sorted
register p h = record p {
  req_hooks = add_sorted p.req_hooks h.on_request;
  resp_hooks = add_sorted p.resp_hooks h.on_response;
  ws_hooks = add_sorted p.ws_hooks h.on_web_socket_message;
  stream_hooks = add_sorted p.stream_hooks h.on_stream_message;
  conn_hooks = add_sorted p.conn_hooks h.on_connection;
}

unfoldable pub add_last : {A : Type 0} → List (Hook A) → Option (Hook A) → List (Hook A)
add_last hooks none = hooks
add_last hooks (some h) = hooks ++ h ∷ []

unfoldable pub register_core : Registry → Plugin → Registry
unfolding add_last
register_core p h = record p {
  core_req = add_last p.core_req h.on_request;
  core_resp = add_last p.core_resp h.on_response;
  core_ws = add_last p.core_ws h.on_web_socket_message;
  core_stream = add_last p.core_stream h.on_stream_message;
}

-- `Clear`.
unfoldable pub clear : Registry → Registry
clear p = record p {
  req_hooks = [];
  resp_hooks = [];
  ws_hooks = [];
  stream_hooks = [];
  conn_hooks = [];
}

unfoldable pub snapshot_req : Registry → List (Hook Flow)
unfolding by_priority
snapshot_req p = by_priority (p.core_req ++ p.req_hooks)

unfoldable pub snapshot_resp : Registry → List (Hook Flow)
unfolding by_priority
snapshot_resp p = by_priority (p.core_resp ++ p.resp_hooks)

unfoldable pub snapshot_ws : Registry → List (Hook WsMessage)
unfolding by_priority
snapshot_ws p = by_priority (p.core_ws ++ p.ws_hooks)

unfoldable pub snapshot_stream : Registry → List (Hook StreamMessage)
unfolding by_priority
snapshot_stream p = by_priority (p.core_stream ++ p.stream_hooks)
