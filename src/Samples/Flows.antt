-- ===== src/Samples/Flows.antt =====
-- internal/flow on concrete flows and decisions.
use sniffy.Common.{◌≡◌, refl, List, [], ◌∷◌, none, some}
use sniffy.Common.Int.{pos}
use sniffy.Common.Bytes.{Text, text_eq, codes}
use sniffy.Flow.{
  Flow, Request, Response, Decision, continue_decision, mock_decision, merge, priority, new,
}
use sniffy.Common.Dict.{lookup}
use sniffy.Flow.Order.{reconcile_ordered_headers, collect, emit, queue, appended, sort_texts}
use sniffy.Flow.Order.Replay.{reconcile-collect}
use sniffy.Flow.Merge.{merge_all, merge_all-IsFirstStrongest, IsFirstStrongest}

abbrev pub sample_request : Request
sample_request = record {
  method = codes "POST";
  url = codes "http://a.test/x";
  host = codes "a.test";
  path = codes "/x";
  proto = codes "HTTP/1.1";
  header = some ((codes "Accept", codes "*/*" ∷ []) ∷ []);
  body = codes "hi";
  client_ip = codes "10.0.0.9";
  raw_headers = (codes "accept", codes "*/*") ∷ [];
  orig_encoded_body = none;
  orig_decoded_body = [];
  orig_encoding = [];
}

abbrev pub sample_response : Response
sample_response = record {
  status = pos 200;
  status_text = codes "OK";
  header = none;
  body = codes "ok";
  trailer = none;
  raw_headers = [];
  orig_status_line = [];
  orig_encoded_body = none;
  orig_decoded_body = [];
  orig_encoding = [];
  body_file = [];
  body_size = pos 0;
}

abbrev pub sample_flow : Flow
sample_flow = record (new (codes "f1") (codes "http") 7) {
  request = some sample_request;
  tags = codes "t" ∷ [];
}

abbrev decisions : List Decision
decisions = mock_decision (codes "first") ∷ continue_decision ∷ mock_decision (codes "second") ∷ []

merged_decisions : merge_all continue_decision decisions ≡ mock_decision (codes "first")
unfolding merge_all merge priority mock_decision continue_decision
merged_decisions = refl

merge_all-IsFirstStrongest_example :
    IsFirstStrongest continue_decision decisions (merge_all continue_decision decisions)
merge_all-IsFirstStrongest_example = merge_all-IsFirstStrongest continue_decision decisions

-- Names in any case, by their first letter.
abbrev short_name : Text → Text
short_name [] = []
short_name (c ∷ s) = c ∷ []

abbrev raw_lines : List (Text × Text)
raw_lines =
    (codes "host", codes "a.test")
    ∷ (codes "x-A", codes "1")
    ∷ (codes "accept", codes "*")
    ∷ (codes "x-b", codes "2")
    ∷ []

reconcile-collect_example :
    reconcile_ordered_headers short_name raw_lines (collect short_name raw_lines []) ≡ raw_lines
reconcile-collect_example = reconcile-collect short_name raw_lines

-- A header that a plugin has added goes to the end.
added :
    reconcile_ordered_headers short_name
      ((codes "host", codes "a.test") ∷ [])
      ((codes "z", codes "new" ∷ []) ∷ (codes "h", codes "b.test" ∷ []) ∷ [])
    ≡ (codes "host", codes "b.test") ∷ (codes "z", codes "new") ∷ []
unfolding reconcile_ordered_headers emit queue lookup appended sort_texts text_eq
added = refl
