-- ===== src/Flow/Messages.antt =====
-- internal/flow/ws.go and internal/flow/stream.go: the messages of WebSocket and stream sessions.
-- Times are instants in milliseconds.
use sniffy.Common.{ℕ, List, Option}
use sniffy.Common.Int.{ℤ}
use sniffy.Common.Bytes.{Text, Bytes}
use sniffy.Flow.Types.{ProcessInfo}

pub record WsMessage : Type 0 where
  pub id : Text
  pub flow_id : Text
  pub conn_id : Text
  pub url : Text
  pub direction : Text
  pub kind : Text
  pub payload : Bytes
  pub timestamp : ℕ

-- The texts "open" and "closed".
pub data SessionStatus : Type 0 where
  is_open is_closed : SessionStatus

pub record WsSession : Type 0 where
  pub id : Text
  pub url : Text
  pub status : SessionStatus
  pub start_time : ℕ
  pub end_time : Option ℕ
  pub message_count : ℕ
  pub total_size : ℕ
  pub messages : List WsMessage
  pub process : Option ProcessInfo

pub record StreamMessage : Type 0 where
  pub id : Text
  pub flow_id : Text
  pub conn_id : Text
  pub url : Text
  pub direction : Text
  pub kind : Text
  pub event_type : Text
  pub payload : Bytes
  pub timestamp : ℕ
  pub seq : ℕ

pub record StreamSession : Type 0 where
  pub id : Text
  pub url : Text
  pub kind : Text
  pub method : Text
  pub status_code : ℤ
  pub status : SessionStatus
  pub start_time : ℕ
  pub end_time : Option ℕ
  pub message_count : ℕ
  pub total_size : ℕ
  pub messages : List StreamMessage
  pub process : Option ProcessInfo
