-- ===== src/Service/Counting.antt =====
-- internal/service/statistics.go: the counts are those of the recorded flows, and a snapshot does not
-- depend on the order in which Go ranges over its maps.
use sniffy.Common.{
  ℕ, suc, ◌+◌, ◌↔◌, ◌≡◌, refl, ap, ◌∙◌, Bool, true, false, inl, inr, List, [], ◌∷◌, Option, none,
  some, arith, take, length, select, if◌then◌else◌, Bool-cases,
}
use mathlib.Core.List.{Perm}
use sniffy.Common.Int.{ℤ, is_pos, pos_part}
use sniffy.Common.Sort.{eq_ℤ, eq_ℤ_iff}
use sniffy.Common.Bytes.{Text, text_eq, text_eq_iff}
use sniffy.Common.Ordered.{StrictOrder, text_less-StrictOrder, sort_func-perm}
use sniffy.Flow.Copy.{body_len}
use sniffy.Flow.{Flow, Request, Response}
use sniffy.Service.Statistics.{
  Counts, count, increase, Collector, new_collector, reset, record_flow, host_before, top_hosts,
  count_request, count_response, count_time,
}

host_before_asym : (a b : Text × ℕ) → host_before a b ≡ true → host_before b a ≡ false
unfolding host_before
host_before_asym (h, n) (k, m) e = ground (arith, text_less-StrictOrder.asym h k)

host_before_trans :
    (a b c : Text × ℕ) → host_before a b ≡ true → host_before b c ≡ true → host_before a c ≡ true
unfolding host_before
host_before_trans (h, n) (k, m) (l, o) e f = ground (arith, text_less-StrictOrder.trans h k l)

host_before_connex : (a b : Text × ℕ) → host_before a b ≡ false → host_before b a ≡ false → a ≡ b
unfolding host_before
host_before_connex (h, n) (k, m) e f = ground (arith, text_less-StrictOrder.connex h k)

-- Whatever the order in which Go ranges over the map of the hosts, the snapshot lists the same hosts
-- in the same order.
pub top_hosts-perm :
    (hosts other : Counts Text) → Perm hosts other → top_hosts hosts ≡ top_hosts other
unfolding top_hosts
top_hosts-perm hosts other p =
    let o : StrictOrder host_before = record {
      asym = host_before_asym;
      trans = host_before_trans;
      connex = host_before_connex;
    } in
    ap (take 10) (sort_func-perm host_before o (hlevel) hosts other p)

module _ {K : Type 0} (same : K → K → Bool)
    (same_iff : (a b : K) → (same a b ≡ true) ↔ (a ≡ b)) where
  count-increase :
      (k j : K) (m : Counts K)
      → count same k (increase same j m) ≡ count same k m + (if same j k then 1 else 0)
  unfolding count increase
  count-increase k j [] = ground arith
  count-increase k j ((i, n) ∷ m) =
      ground (arith, same_iff i j, same_iff i k, same_iff j k, count-increase k j m)

not_pos : (z : ℤ) → is_pos z ≡ false → pos_part z ≡ 0
not_pos (ℤ.pos n) e = ground arith
not_pos (ℤ.negsuc n) e = refl

-- What a flow has: the tests that the statistics answer.
abbrev pub request_has : (Request → Text) → Text → Option Request → Bool
request_has field t none = false
request_has field t (some q) = text_eq (field q) t

abbrev pub response_has : ℤ → Option Response → Bool
response_has n none = false
response_has n (some r) = eq_ℤ r.status n

abbrev pub response_bytes : Option Response → ℕ
response_bytes none = 0
response_bytes (some r) = pos_part (body_len r)

abbrev pub total : (Flow → ℕ) → List Flow → ℕ
total f [] = 0
total f (x ∷ xs) = f x + total f xs

-- A collector after flows, the last of which comes first.
unfoldable pub record_all : Collector → List Flow → Collector
unfolding record_flow
record_all s [] = s
record_all s (f ∷ fs) = record_flow (record_all s fs) f

-- What a collector says of the flows.
pub record Exact (fs : List Flow) (s : Collector) : Type 0 where
  pub requests : s.total_requests ≡ length fs
  pub methods :
      (m : Text)
      → count text_eq m s.methods
        ≡ length (select (λ f. request_has (λ q. q.method) m f.request) fs)
  pub hosts :
      (h : Text)
      → count text_eq h s.hosts ≡ length (select (λ f. request_has (λ q. q.host) h f.request) fs)
  pub statuses :
      (n : ℤ) → count eq_ℤ n s.status_codes ≡ length (select (λ f. response_has n f.response) fs)
  pub bytes : s.total_bytes ≡ total (λ f. response_bytes f.response) fs
  pub time : s.total_resp_time ≡ total (λ f. pos_part f.timing.duration_ms) fs
  pub timed : s.resp_count ≡ length (select (λ f. is_pos f.timing.duration_ms) fs)

count_request-exact :
    (o : Option Request) (s : Collector) (t : Text)
    → (count text_eq t (count_request o s).methods
        ≡ count text_eq t s.methods + (if request_has (λ q. q.method) t o then 1 else 0))
      × (count text_eq t (count_request o s).hosts
          ≡ count text_eq t s.hosts + (if request_has (λ q. q.host) t o then 1 else 0))
unfolding count_request
count_request-exact none s t = (omega arith, omega arith)
count_request-exact (some q) s t = (
  count-increase text_eq text_eq_iff t q.method s.methods,
  count-increase text_eq text_eq_iff t q.host s.hosts,
)

count_response-exact :
    (o : Option Response) (s : Collector) (n : ℤ)
    → (count eq_ℤ n (count_response o s).status_codes
        ≡ count eq_ℤ n s.status_codes + (if response_has n o then 1 else 0))
      × ((count_response o s).total_bytes ≡ s.total_bytes + response_bytes o)
unfolding count_response
count_response-exact none s n = (omega arith, omega arith)
count_response-exact (some r) s n = (count-increase eq_ℤ eq_ℤ_iff n r.status s.status_codes, refl)

-- What the other steps leave alone.
count_request-kept :
    (o : Option Request) (s : Collector)
    → let t = count_request o s in
      (t.total_requests ≡ s.total_requests)
      × (t.total_bytes ≡ s.total_bytes)
      × (t.total_resp_time ≡ s.total_resp_time)
      × (t.resp_count ≡ s.resp_count)
      × (t.status_codes ≡ s.status_codes)
unfolding count_request
count_request-kept none s = (refl, refl, refl, refl, refl)
count_request-kept (some q) s = (refl, refl, refl, refl, refl)

count_response-kept :
    (o : Option Response) (s : Collector)
    → let t = count_response o s in
      (t.total_requests ≡ s.total_requests)
      × (t.methods ≡ s.methods)
      × (t.hosts ≡ s.hosts)
      × (t.total_resp_time ≡ s.total_resp_time)
      × (t.resp_count ≡ s.resp_count)
unfolding count_response
count_response-kept none s = (refl, refl, refl, refl, refl)
count_response-kept (some r) s = (refl, refl, refl, refl, refl)

count_time-exact :
    (ms : ℤ) (s : Collector)
    → let t = count_time ms s in
      (t.total_resp_time ≡ s.total_resp_time + pos_part ms)
      × (t.resp_count ≡ s.resp_count + (if is_pos ms then 1 else 0))
      × (t.total_requests ≡ s.total_requests)
      × (t.total_bytes ≡ s.total_bytes)
      × (t.methods ≡ s.methods)
      × (t.hosts ≡ s.hosts)
      × (t.status_codes ≡ s.status_codes)
unfolding count_time
count_time-exact ms s = elim (Bool-cases (is_pos ms)) [
  | inl e ↦ rw e (refl, omega arith, refl, refl, refl, refl, refl)
  | inr e ↦
      let z : pos_part ms ≡ 0 = not_pos ms e in
      rw (e, z) (omega arith, omega arith, refl, refl, refl, refl, refl)
]

bit-select :
    (p : Flow → Bool) (f : Flow) (fs : List Flow)
    → length (select p (f ∷ fs)) ≡ length (select p fs) + (if p f then 1 else 0)
bit-select p f fs = ground arith

record_flow-Exact :
    (fs : List Flow) (s : Collector) (f : Flow) → Exact fs s → Exact (f ∷ fs) (record_flow s f)
unfolding record_flow
record_flow-Exact fs s f x =
    let s1 : Collector = record s { total_requests = suc s.total_requests } in
    let s2 = count_request f.request s1 in
    let s3 = count_response f.response s2 in
    let (q_total, q_bytes, q_time, q_count, q_codes) = count_request-kept f.request s1 in
    let (r_total, r_methods, r_hosts, r_time, r_count) = count_response-kept f.response s2 in
    let (t_time, t_count, t_total, t_bytes, t_methods, t_hosts, t_codes) =
      count_time-exact f.timing.duration_ms s3 in
    let cq = count_request-exact f.request s1 in
    let cr = count_response-exact f.response s2 in
    record {
      requests = omega (arith, t_total, r_total, q_total, x.requests);
      methods = λ m. omega (
        arith,
        ap (count text_eq m) (t_methods ∙ r_methods),
        (cq m).0,
        x.methods m,
        bit-select (λ f. request_has (λ q. q.method) m f.request) f fs,
      );
      hosts = λ h. omega (
        arith,
        ap (count text_eq h) (t_hosts ∙ r_hosts),
        (cq h).1,
        x.hosts h,
        bit-select (λ f. request_has (λ q. q.host) h f.request) f fs,
      );
      statuses = λ n. omega (
        arith,
        ap (count eq_ℤ n) t_codes,
        (cr n).0,
        ap (count eq_ℤ n) q_codes,
        x.statuses n,
        bit-select (λ f. response_has n f.response) f fs,
      );
      bytes = omega (arith, t_bytes, (cr (ℤ.pos 0)).1, q_bytes, x.bytes);
      time = omega (arith, t_time, r_time, q_time, x.time);
      timed = omega (
        arith,
        t_count,
        r_count,
        q_count,
        x.timed,
        bit-select (λ f. is_pos f.timing.duration_ms) f fs,
      );
    }

record_all-keeps : (s : Collector) (fs : List Flow) → Exact [] s → Exact fs (record_all s fs)
unfolding record_all
record_all-keeps s [] x = x
record_all-keeps s (f ∷ fs) x = record_flow-Exact fs (record_all s fs) f (record_all-keeps s fs x)

new_collector-Exact : Exact [] new_collector
unfolding new_collector count
new_collector-Exact = record {
  requests = refl;
  methods = λ m. refl;
  hosts = λ h. refl;
  statuses = λ n. refl;
  bytes = refl;
  time = refl;
  timed = refl;
}

-- The counters of the statistics are exact: the requests, each method, host and status, the bytes of
-- the bodies and the times are those of the flows recorded since the start or the last reset,
-- whatever was counted before it.
pub record_all-Exact :
    (old : Collector) (fs : List Flow)
    → Exact fs (record_all new_collector fs) × Exact fs (record_all (reset old) fs)
unfolding reset
record_all-Exact old fs = (
  record_all-keeps new_collector fs new_collector-Exact,
  record_all-keeps _ fs new_collector-Exact,
)
