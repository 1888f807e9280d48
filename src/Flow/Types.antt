-- ===== src/Flow/Types.antt =====
-- internal/flow/flow.go: `Flow`, `Request`, `Response` and their parts. Times are instants in
-- milliseconds. A nil map is `none`; a nil slice and an empty one are the same list, except for
-- the wire bytes of a body, which the code compares with nil.
use sniffy.Common.{ℕ, Bool, false, List, [], Option, none, some}
use sniffy.Common.Int.{ℤ}
use sniffy.Common.Bytes.{Text, Bytes}

pub data FlowState : Type 0 where
  pending awaiting_response completed blocked mocked errored paused_at_breakpoint : FlowState

-- Any other text is an unknown phase.
pub data Phase : Type 0 where
  request_phase response_phase : Phase
  unknown_phase : Text → Phase

-- `map[string][]string`.
abbrev pub Headers : Type 0
Headers = Option (List (Text × List Text))

-- What the code stores in `Metadata` (`any`): flags, texts, and values of other types.
pub data MetaValue : Type 0 where
  flag : Bool → MetaValue
  text : Text → MetaValue
  opaque_value : ℕ → MetaValue

abbrev pub Metadata : Type 0
Metadata = Option (List (Text × MetaValue))

pub record ProcessInfo : Type 0 where
  pub pid : ℕ
  pub name : Text
  pub path : Text
  pub user : Text
  pub has_icon : Bool
  pub icon_data : Text
  pub icon_type : Text
  pub icon_size : ℤ
  pub icon_category : Text

pub record Timing : Type 0 where
  pub request_at : ℕ
  pub response_at : ℕ
  pub completed_at : ℕ
  pub duration_ms : ℤ
  pub ttfb_ms : ℤ

-- The wire form of a body: `origEncodedBody`, `origDecodedBody`, `origEncoding`.
pub record Request : Type 0 where
  pub method : Text
  pub url : Text
  pub host : Text
  pub path : Text
  pub proto : Text
  pub header : Headers
  pub body : Bytes
  pub client_ip : Text
  pub raw_headers : List (Text × Text)
  pub orig_encoded_body : Option Bytes
  pub orig_decoded_body : Bytes
  pub orig_encoding : Text

pub record Response : Type 0 where
  pub status : ℤ
  pub status_text : Text
  pub header : Headers
  pub body : Bytes
  pub trailer : Headers
  pub raw_headers : List (Text × Text)
  pub orig_status_line : Text
  pub orig_encoded_body : Option Bytes
  pub orig_decoded_body : Bytes
  pub orig_encoding : Text
  pub body_file : Text
  pub body_size : ℤ

pub record Flow : Type 0 where
  pub id : Text
  pub conn_id : Text
  pub protocol : Text
  pub request : Option Request
  pub response : Option Response
  pub timing : Timing
  pub state : FlowState
  pub paused_at : Option Phase
  pub modified : Bool
  pub tags : List Text
  pub error : Text
  pub metadata : Metadata
  pub process : Option ProcessInfo

-- `New`: the random ID and the time are arguments.
unfoldable pub new : Text → Text → ℕ → Flow
new id protocol now = record {
  id = id;
  conn_id = [];
  protocol = protocol;
  request = none;
  response = none;
  timing = record {
    request_at = now;
    response_at = 0;
    completed_at = 0;
    duration_ms = ℤ.pos 0;
    ttfb_ms = ℤ.pos 0;
  };
  state = pending;
  paused_at = none;
  modified = false;
  tags = [];
  error = [];
  metadata = some [];
  process = none;
}
