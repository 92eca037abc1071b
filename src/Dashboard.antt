-- ===== src/Dashboard.antt =====
-- apps/web/src/app/dashboard/page.tsx without its rendering, with the answers of the API that it
-- reads, from types/dashboard.ts and types/seller.ts. The fields that it does not read are left out.
pub mod Series
pub mod Builders
pub mod Load
pub mod MixLaws
pub mod LoadLaws
mod Tests
use startup.Common.{ℕ, Option, none, some, List, take, Text}
use startup.Marketplace.{ToolStatus, ToolProcessingJobStatus}

pub record DashboardStats : Type 0 where
  pub total_api_calls_this_month : ℕ
  pub total_spend_this_month : Text
  pub total_earned_this_month : Text
  pub active_tools : ℕ

pub record DashboardActivityItem : Type 0 where
  pub id : Text
  pub tool_id : Text
  pub tool_name : Text
  pub request_timestamp : Text
  pub status_code : ℕ
  pub response_time_ms : ℕ
  pub cost : Text
  pub error_message : Option Text

pub record DashboardPurchasedTool : Type 0 where
  pub tool_id : Text
  pub tool_name : Text
  pub slug : Text
  pub category : Text
  pub calls_this_month : ℕ
  pub spend_this_month : Text
  pub last_used_at : Option Text

pub record DashboardUsagePoint : Type 0 where
  pub date : Text
  pub calls : ℕ
  pub spend : Text

pub record DashboardSummaryResponse : Type 0 where
  pub display_name : Text
  pub role : Text
  pub stats : DashboardStats
  pub active_api_keys : ℕ
  pub purchased_tools : List DashboardPurchasedTool
  pub recent_activity : List DashboardActivityItem
  pub usage_chart_data : List DashboardUsagePoint

pub record SellerRevenuePoint : Type 0 where
  pub date : Text
  pub amount : Text

pub record SellerRequestsPoint : Type 0 where
  pub date : Text
  pub count : ℕ

pub record SellerLatencyPoint : Type 0 where
  pub date : Text
  pub avg_response_time_ms : ℕ

pub record SellerActivityItem : Type 0 where
  pub id : Text
  pub tool_id : Text
  pub tool_name : Text
  pub request_timestamp : Text
  pub status_code : ℕ
  pub response_time_ms : ℕ
  pub cost : Text
  pub error_message : Option Text

pub record SellerToolSummary : Type 0 where
  pub tool_id : Text
  pub tool_name : Text
  pub slug : Text
  pub status : ToolStatus
  pub latest_job_status : Option ToolProcessingJobStatus
  pub latest_job_error : Option Text
  pub requests_this_month : ℕ
  pub revenue_this_month : Text
  pub unique_users_this_month : ℕ
  pub avg_response_time_ms : Option ℕ
  pub p50_response_time_ms : Option ℕ
  pub p95_response_time_ms : Option ℕ
  pub p99_response_time_ms : Option ℕ
  pub uptime_percentage : Option Text

pub record SellerDashboardResponse : Type 0 where
  pub total_revenue_this_month : Text
  pub previous_month_revenue : Text
  pub total_requests_this_month : ℕ
  pub active_tools : ℕ
  pub avg_response_time_ms : Option ℕ
  pub revenue_chart_data : List SellerRevenuePoint
  pub request_chart_data : List SellerRequestsPoint
  pub latency_chart_data : List SellerLatencyPoint
  pub recent_activity : List SellerActivityItem
  pub tools : List SellerToolSummary

pub data RangeKey : Type 0 where
  seven_days thirty_days ninety_days : RangeKey

-- `RANGE_DAYS`
unfoldable pub range_days : RangeKey → ℕ
range_days seven_days = 7
range_days thirty_days = 30
range_days ninety_days = 90

-- What the platform provides: the floating-point `Math.round(Number(text) * 100)` of a decimal that the
-- API sends, which is not negative; `Math.round` of a number; the decimal text of a number; and, of the
-- day that lies a number of days before today, the text that `toISOString` gives, and the ones that
-- `toLocaleDateString` gives, with the weekday and with the month and the day.
pub record Platform : Type 0 where
  pub rounded_hundredfold : Text → ℕ
  pub round : ℕ → ℕ
  pub number_text : ℕ → Text
  pub iso_string : ℕ → Text
  pub weekday : ℕ → Text
  pub month_and_day : ℕ → Text

module _ (js : Platform) where
  -- A missing value counts as 0.
  unfoldable pub cents_from_decimal : Option Text → ℕ
  cents_from_decimal none = 0
  cents_from_decimal (some amount) = js.rounded_hundredfold amount

  unfoldable pub iso_date_key : ℕ → Text
  iso_date_key days = take 10 (js.iso_string days)

  unfoldable pub day_label : RangeKey → ℕ → Text
  day_label seven_days days = js.weekday days
  day_label _ days = js.month_and_day days
