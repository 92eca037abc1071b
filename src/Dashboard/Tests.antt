-- ===== src/Dashboard/Tests.antt =====
-- The dashboard at concrete inputs.
use startup.Common.{
  ◌≡◌, refl, none, some, true, false, List, [], ◌∷◌, codes, length, All, Ordered, total,
}
use startup.Marketplace.{live}
use startup.Dashboard.{SellerToolSummary, SellerDashboardResponse, Platform, seven_days, range_days}
use startup.Dashboard.Series.{array_from, build_dated_series, build_request_series}
use startup.Dashboard.Builders.{build_revenue_mix}
use startup.Dashboard.MixLaws.{NotLess, IsSold, value_of, earned, build_revenue_mix_lem}
use startup.Dashboard.Load.{settled, Event, account_changed, load_ended, initial, run}
use startup.Dashboard.LoadLaws.{IsHonest, run-IsHonest}
use Prim.Native.String.{String}

-- A decimal is worth as many cents as it has digits.
abbrev platform : Platform
platform = record {
  rounded_hundredfold = λ s. length s;
  round = λ n. n;
  number_text = λ n. codes "7";
  iso_string = λ n. codes "2026-01-01T12:00:00.000Z";
  weekday = λ n. codes "Thu";
  month_and_day = λ n. codes "Jan 1";
}

abbrev tool : String → SellerToolSummary
tool revenue = record {
  tool_id = codes "t1";
  tool_name = codes "Digest";
  slug = codes "digest";
  status = live;
  latest_job_status = none;
  latest_job_error = none;
  requests_this_month = 3;
  revenue_this_month = codes revenue;
  unique_users_this_month = 2;
  avg_response_time_ms = none;
  p50_response_time_ms = none;
  p95_response_time_ms = none;
  p99_response_time_ms = none;
  uptime_percentage = none;
}

abbrev summary : SellerDashboardResponse
summary = record {
  total_revenue_this_month = codes "6";
  previous_month_revenue = codes "0";
  total_requests_this_month = 9;
  active_tools = 3;
  avg_response_time_ms = none;
  revenue_chart_data = [];
  request_chart_data = [];
  latency_chart_data = [];
  recent_activity = [];
  tools = tool "1" ∷ tool "" ∷ tool "12.50" ∷ [];
}

series_length : length (build_request_series platform seven_days (some summary)) ≡ 7
unfolding build_request_series build_dated_series array_from range_days
series_length = refl

build_revenue_mix_lem_example :
    (total value_of (build_revenue_mix platform (some summary))
      ≡ total (earned platform) summary.tools)
    × All IsSold (build_revenue_mix platform (some summary))
    × Ordered NotLess (build_revenue_mix platform (some summary))
build_revenue_mix_lem_example = build_revenue_mix_lem platform (some summary)

abbrev events : List Event
events =
    account_changed true true
    ∷ account_changed true false
    ∷ load_ended 1 (settled none (some summary))
    ∷ []

run-IsHonest_example : IsHonest (run initial events)
run-IsHonest_example = run-IsHonest events
