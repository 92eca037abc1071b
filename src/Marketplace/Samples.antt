-- ===== src/Marketplace/Samples.antt =====
-- Tools for the tests.
use Prim.Native.String.{String}
use startup.Common.{ℕ, false, none, some, codes}
use startup.Marketplace.{Tool, SellerInfo, ToolCategory, royalty, draft}

abbrev pub sample_seller : SellerInfo
sample_seller = record {
  id = codes "s1";
  display_name = codes "Ada";
  avatar_url = none;
  username = codes "ada";
}

abbrev pub sample_tool : String → String → ToolCategory → ℕ → Tool
sample_tool name description category requests = record {
  id = codes "t1";
  seller_id = codes "s1";
  seller = sample_seller;
  name = codes name;
  slug = codes "tool";
  tagline = codes "";
  description = codes description;
  category = category;
  status = draft;
  ownership_type = royalty;
  input_type = none;
  output_type = none;
  input_schema = none;
  output_schema = none;
  environment_variables = none;
  source_file_tree = none;
  price_per_request = some (codes "0.005");
  one_time_price = none;
  demo_url = none;
  api_endpoint = none;
  docker_image_uri = none;
  github_url = none;
  source_s3_key = none;
  config_s3_key = none;
  entry_command = none;
  port = none;
  processing_error = none;
  documentation = none;
  avg_response_time_ms = none;
  total_requests = requests;
  uptime_percentage = none;
  is_featured = false;
  view_count = 0;
  created_at = codes "2026-01-01";
  updated_at = codes "2026-01-02";
}
