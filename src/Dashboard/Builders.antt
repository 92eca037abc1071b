-- ===== src/Dashboard/Builders.antt =====
-- The tables of a seller, and the snapshot of a buyer. `sanitizeName` of the page is that of
-- lib/submissions.ts, word for word.
use startup.Common.{
  ℕ, Bool, true, false, not, ◌&&◌, ◌||◌, Option, none, some, List, [], ◌++◌, map, keep, length, ltb,
  leb, sort, is_some, if◌then◌else◌, ◌or_else◌, Text, codes,
}
use startup.Marketplace.{
  ToolStatus, draft, processing, live, paused, ToolProcessingJobStatus, queued, running, retrying,
  succeeded, failed,
}
use startup.Submission.Names.{sanitize_name}
use startup.Dashboard.{
  DashboardActivityItem, DashboardPurchasedTool, DashboardUsagePoint, DashboardSummaryResponse,
  SellerActivityItem, SellerToolSummary, SellerDashboardResponse, Platform, cents_from_decimal,
}
use startup.Dashboard.Series.{of_summary}

pub record MixSlice : Type 0 where
  pub name : Text
  pub value : ℕ
  pub slug : Text

pub record StatusLabel : Type 0 where
  pub label : Text
  pub color : Text

pub record LeaderRow : Type 0 where
  pub name : Text
  pub slug : Text
  pub requests : ℕ
  pub revenue : ℕ
  pub unique_users : ℕ
  pub status : StatusLabel

pub record LatencyRow : Type 0 where
  pub name : Text
  pub p50 : ℕ
  pub p95 : ℕ
  pub p99 : ℕ

pub data ActivityKind : Type 0 where
  request error : ActivityKind

pub record ActivityItem : Type 0 where
  pub id : Text
  pub kind : ActivityKind
  pub text : Text
  pub when : Text

tool_status_label : ToolStatus → StatusLabel
tool_status_label live = record { label = codes "live"; color = codes "#16a34a" }
tool_status_label processing = record { label = codes "processing"; color = codes "var(--blue)" }
tool_status_label ToolStatus.rejected = record { label = codes "rejected"; color = codes "#dc2626" }
tool_status_label paused = record { label = codes "paused"; color = codes "#d97706" }
tool_status_label draft = record { label = codes "review"; color = codes "#d97706" }

unfoldable pub seller_tool_status_label : ToolStatus → Option ToolProcessingJobStatus → StatusLabel
unfolding tool_status_label
seller_tool_status_label status none = tool_status_label status
seller_tool_status_label status (some queued) = record {
  label = codes "queued";
  color = codes "var(--muted)";
}
seller_tool_status_label status (some running) = record {
  label = codes "running";
  color = codes "var(--blue)";
}
seller_tool_status_label status (some retrying) = record {
  label = codes "retrying";
  color = codes "#d97706";
}
seller_tool_status_label status (some failed) = record {
  label = codes "failed";
  color = codes "#dc2626";
}
seller_tool_status_label status (some succeeded) = tool_status_label status

-- `b.value - a.value`, as a test that a later slice goes before an earlier one.
abbrev pub sells_more : MixSlice → MixSlice → Bool
sells_more y x = ltb x.value y.value

module _ (js : Platform) where
  unfoldable pub mix_slice : SellerToolSummary → MixSlice
  mix_slice tool = record {
    name = sanitize_name (some tool.tool_name);
    value = cents_from_decimal js (some tool.revenue_this_month);
    slug = tool.slug;
  }

  unfoldable pub build_revenue_mix : Option SellerDashboardResponse → List MixSlice
  build_revenue_mix summary =
      sort sells_more
        (keep (λ (s : MixSlice). ltb 0 s.value) (map mix_slice (of_summary (λ s. s.tools) summary)))

  leader_row : SellerToolSummary → LeaderRow
  leader_row tool = record {
    name = sanitize_name (some tool.tool_name);
    slug = tool.slug;
    requests = tool.requests_this_month;
    revenue = cents_from_decimal js (some tool.revenue_this_month);
    unique_users = tool.unique_users_this_month;
    status = seller_tool_status_label tool.status tool.latest_job_status;
  }

  unfoldable pub build_leaderboard : Option SellerDashboardResponse → List LeaderRow
  unfolding leader_row
  build_leaderboard summary = map leader_row (of_summary (λ s. s.tools) summary)

  latency_row : SellerToolSummary → LatencyRow
  latency_row tool = record {
    name = sanitize_name (some tool.tool_name);
    p50 = js.round (tool.p50_response_time_ms or_else 0);
    p95 = js.round (tool.p95_response_time_ms or_else 0);
    p99 = js.round (tool.p99_response_time_ms or_else 0);
  }

  unfoldable pub build_seller_latency : Option SellerDashboardResponse → List LatencyRow
  unfolding latency_row
  build_seller_latency summary =
      keep (λ (r : LatencyRow). ltb 0 r.p50 || ltb 0 r.p95 || ltb 0 r.p99)
        (map latency_row (of_summary (λ s. s.tools) summary))

  activity_item : SellerActivityItem → ActivityItem
  activity_item item = record {
    id = item.id;
    kind = if leb 400 item.status_code then error else request;
    text =
        sanitize_name (some item.tool_name)
        ++ (codes " returned "
            ++ (js.number_text item.status_code
                ++ (codes " in " ++ (js.number_text item.response_time_ms ++ codes "ms"))));
    when = item.request_timestamp;
  }

  unfoldable pub build_seller_activity : Option SellerDashboardResponse → List ActivityItem
  unfolding activity_item
  build_seller_activity summary = map activity_item (of_summary (λ s. s.recent_activity) summary)

abbrev is_under_way : Option ToolProcessingJobStatus → Bool
is_under_way (some queued) = true
is_under_way (some running) = true
is_under_way (some retrying) = true
is_under_way _ = false

abbrev is_processing : ToolStatus → Bool
is_processing processing = true
is_processing _ = false

abbrev is_draft : ToolStatus → Bool
is_draft draft = true
is_draft _ = false

abbrev is_stopped : ToolStatus → Bool
is_stopped ToolStatus.rejected = true
is_stopped paused = true
is_stopped _ = false

abbrev has_failed : Option ToolProcessingJobStatus → Bool
has_failed (some failed) = true
has_failed _ = false

unfoldable pub attention_tools : Option SellerDashboardResponse → List SellerToolSummary
attention_tools summary =
    keep (λ (t : SellerToolSummary). has_failed t.latest_job_status || is_stopped t.status)
      (of_summary (λ s. s.tools) summary)

unfoldable pub testing_tools : Option SellerDashboardResponse → List SellerToolSummary
testing_tools summary =
    keep (λ (t : SellerToolSummary). is_processing t.status || is_under_way t.latest_job_status)
      (of_summary (λ s. s.tools) summary)

unfoldable pub tools_in_review : Option SellerDashboardResponse → List SellerToolSummary
tools_in_review summary =
    keep (λ (t : SellerToolSummary). is_draft t.status && not (is_some t.latest_job_status))
      (of_summary (λ s. s.tools) summary)

pub record PurchasedTool : Type 0 where
  pub name : Text
  pub slug : Text
  pub category : Text
  pub calls : ℕ
  pub spend_cents : ℕ
  pub last_used : Text

pub record BuyerActivity : Type 0 where
  pub tool : Text
  pub status : ℕ
  pub cost_cents : ℕ
  pub latency_ms : ℕ
  pub when : Text

pub record BuyerSnapshot : Type 0 where
  pub spend_cents : ℕ
  pub calls_this_month : ℕ
  pub saved_tools : ℕ
  pub api_keys : ℕ
  pub spend_series : List ℕ
  pub call_series : List ℕ
  pub purchased_tools : List PurchasedTool
  pub activity : List BuyerActivity

module _ (js : Platform) where
  purchased_tool : DashboardPurchasedTool → PurchasedTool
  purchased_tool tool = record {
    name = sanitize_name (some tool.tool_name);
    slug = tool.slug;
    category = tool.category;
    calls = tool.calls_this_month;
    spend_cents = cents_from_decimal js (some tool.spend_this_month);
    last_used = tool.last_used_at or_else [];
  }

  buyer_activity : DashboardActivityItem → BuyerActivity
  buyer_activity item = record {
    tool = item.tool_name;
    status = item.status_code;
    cost_cents = cents_from_decimal js (some item.cost);
    latency_ms = item.response_time_ms;
    when = item.request_timestamp;
  }

  unfoldable pub build_buyer_snapshot : Option DashboardSummaryResponse → BuyerSnapshot
  unfolding purchased_tool buyer_activity
  build_buyer_snapshot none = record {
    spend_cents = 0;
    calls_this_month = 0;
    saved_tools = 0;
    api_keys = 0;
    spend_series = [];
    call_series = [];
    purchased_tools = [];
    activity = [];
  }
  build_buyer_snapshot (some summary) = record {
    spend_cents = cents_from_decimal js (some summary.stats.total_spend_this_month);
    calls_this_month = summary.stats.total_api_calls_this_month;
    saved_tools = length (map purchased_tool summary.purchased_tools);
    api_keys = summary.active_api_keys;
    spend_series =
        map (λ (p : DashboardUsagePoint). cents_from_decimal js (some p.spend))
          summary.usage_chart_data;
    call_series = map (λ (p : DashboardUsagePoint). p.calls) summary.usage_chart_data;
    purchased_tools = map purchased_tool summary.purchased_tools;
    activity = map buyer_activity summary.recent_activity;
  }
