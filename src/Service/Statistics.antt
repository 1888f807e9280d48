-- ===== src/Service/Statistics.antt =====
-- internal/service/statistics.go. The int64 counters are numbers without an upper bound, and the
-- average, a float64, is the pair of its numerator and denominator.
use sniffy.Common.{
  ℕ, suc, ◌+◌, Bool, ◌&&◌, ◌||◌, List, [], ◌∷◌, Option, none, some, take, ltb, ◌==◌, if◌then◌else◌,
}
use sniffy.Common.Int.{ℤ, is_pos, pos_part}
use sniffy.Common.Sort.{eq_ℤ}
use sniffy.Common.Bytes.{Text, text_eq}
use sniffy.Common.Ordered.{text_less, sort_func}
use sniffy.Flow.{Flow, Request, Response}
use sniffy.Flow.Copy.{body_len}

unfoldable pub top_host_limit : ℕ
top_host_limit = 10

abbrev pub Counts : Type 0 → Type 0
Counts K = List (K × ℕ)

module _ {K : Type 0} (same : K → K → Bool) where
  -- `m[k]`, which is 0 for a key that is not there.
  unfoldable pub count : K → Counts K → ℕ
  count k [] = 0
  count k ((j, n) ∷ m) = if same j k then n else count k m

  -- `m[k] += n`.
  unfoldable pub increase : K → Counts K → Counts K
  increase k [] = (k, 1) ∷ []
  increase k ((j, n) ∷ m) = if same j k then (j, suc n) ∷ m else (j, n) ∷ increase k m

pub record Collector : Type 0 where
  pub total_requests : ℕ
  pub total_bytes : ℕ
  pub total_resp_time : ℕ
  pub resp_count : ℕ
  pub status_codes : Counts ℤ
  pub methods : Counts Text
  pub hosts : Counts Text

-- `newStatsCollector`, and what `reset` leaves.
unfoldable pub new_collector : Collector
new_collector = record {
  total_requests = 0;
  total_bytes = 0;
  total_resp_time = 0;
  resp_count = 0;
  status_codes = [];
  methods = [];
  hosts = [];
}

unfoldable pub count_request : Option Request → Collector → Collector
unfolding increase
count_request none s = s
count_request (some q) s = record s {
  methods = increase text_eq q.method s.methods;
  hosts = increase text_eq q.host s.hosts;
}

unfoldable pub count_response : Option Response → Collector → Collector
unfolding increase body_len
count_response none s = s
count_response (some r) s = record s {
  status_codes = increase eq_ℤ r.status s.status_codes;
  total_bytes = s.total_bytes + pos_part (body_len r);
}

unfoldable pub count_time : ℤ → Collector → Collector
count_time ms s =
    if is_pos ms
    then record s {
      total_resp_time = s.total_resp_time + pos_part ms;
      resp_count = suc s.resp_count;
    }
    else s

-- `record`.
unfoldable pub record_flow : Collector → Flow → Collector
unfolding count_request count_response count_time
record_flow s f = count_time f.timing.duration_ms (
    count_response f.response
      (count_request f.request (record s { total_requests = suc s.total_requests })))

-- `HostCount`s in the order of `snapshot`: by falling count, then by host.
unfoldable pub host_before : Text × ℕ → Text × ℕ → Bool
host_before (h, n) (k, m) = ltb m n || ((n == m) && text_less h k)

unfoldable pub top_hosts : Counts Text → Counts Text
unfolding top_host_limit host_before sort_func
top_hosts hosts = take top_host_limit (sort_func host_before hosts)

pub record Statistics : Type 0 where
  pub total_requests : ℕ
  pub total_sessions : ℕ
  pub total_bytes : ℕ
  pub average_response_time : Option (ℕ × ℕ)
  pub status_code_distribution : Counts ℤ
  pub method_distribution : Counts Text
  pub top_hosts : Counts Text

-- `snapshot`; no average stands for 0.
unfoldable pub snapshot : Collector → Statistics
unfolding top_hosts
snapshot s = record {
  total_requests = s.total_requests;
  total_sessions = s.total_requests;
  total_bytes = s.total_bytes;
  average_response_time =
      if ltb 0 s.resp_count then some (s.total_resp_time, s.resp_count) else none;
  status_code_distribution = s.status_codes;
  method_distribution = s.methods;
  top_hosts = top_hosts s.hosts;
}

-- `reset`.
unfoldable pub reset : Collector → Collector
unfolding new_collector
reset s = new_collector
