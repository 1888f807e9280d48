-- ===== src/Stream/Detect.antt =====
-- capture/processors/http/streaming.go: which responses are streams, and which requests mean to have
-- one. `strings.ToLower` is the argument `lower`; headers are read by their canonical keys.
use sniffy.Common.{Bool, true, ◌||◌, [], ◌∷◌, Option, none, some, ◌==◌, if◌then◌else◌}
use sniffy.Common.Bytes.{Text, codes, text_eq, has_prefix, contains}
use sniffy.Common.Trim.{trim_space}
use sniffy.Stream.Relay.{StreamKind, sse, grpc, chunk}

-- The text before the first semicolon.
unfoldable pub before_semicolon : Text → Text
before_semicolon [] = []
before_semicolon (c ∷ s) = if c == 59 then [] else c ∷ before_semicolon s

unfoldable pub content_type_base : (Text → Text) → Text → Text
unfolding before_semicolon trim_space
content_type_base lower ct = lower (trim_space (before_semicolon ct))

unfoldable pub is_grpc_content_type : (Text → Text) → Text → Bool
unfolding content_type_base
is_grpc_content_type lower ct =
    let b = content_type_base lower ct in
    text_eq b (codes "application/grpc")
    || (has_prefix b (codes "application/grpc+") || has_prefix b (codes "application/grpc-"))

-- `detectResponseStream` of the header Content-Type; no stream is `none`.
unfoldable pub detect_response_stream : (Text → Text) → Text → Option StreamKind
unfolding is_grpc_content_type content_type_base
detect_response_stream lower header =
    let ct = content_type_base lower header in
    if text_eq ct (codes "text/event-stream")
    then some sse
    else if is_grpc_content_type lower ct
    then some grpc
    else if text_eq ct (codes "application/x-ndjson")
        || (text_eq ct (codes "application/stream+json")
            || text_eq ct (codes "application/x-json-stream"))
    then some chunk
    else none

-- `streamingIntent` of the headers Content-Type and Accept.
unfoldable pub streaming_intent : (Text → Text) → Text → Text → Bool
unfolding is_grpc_content_type
streaming_intent lower content_type accept =
    if is_grpc_content_type lower content_type
    then true
    else contains (lower accept) (codes "text/event-stream")
