-- ===== src/Marketplace.antt =====
-- The marketplace's data: apps/web/src/types/tool.ts and apps/web/src/types/seller.ts.
-- A decimal that the API sends as a string is a text; counts and times are natural numbers.
-- A field that may be missing or null is an option, since the code reads both alike.
pub mod Samples
use startup.Common.{ℕ, Bool, Option, List, Text, codes}
use startup.Json.{Json}

pub data ToolCategory : Type 0 where
  nlp computer_vision data_analysis automation generation other : ToolCategory

-- The string that stands for a category in the source.
unfoldable pub category_name : ToolCategory → Text
unfolding codes
category_name nlp = codes "nlp"
category_name computer_vision = codes "computer_vision"
category_name data_analysis = codes "data_analysis"
category_name automation = codes "automation"
category_name generation = codes "generation"
category_name other = codes "other"

pub data ToolStatus : Type 0 where
  draft processing live paused rejected : ToolStatus

pub data OwnershipType : Type 0 where
  royalty full_sale : OwnershipType

pub data InputType : Type 0 where
  text image json csv url file : InputType

pub data OutputType : Type 0 where
  json text image csv file : OutputType

pub record SellerInfo : Type 0 where
  pub id : Text
  pub display_name : Text
  pub avatar_url : Option Text
  pub username : Text

pub record EnvironmentVariable : Type 0 where
  pub key : Text
  pub value : Text

pub record Tool : Type 0 where
  pub id : Text
  pub seller_id : Text
  pub seller : SellerInfo
  pub name : Text
  pub slug : Text
  pub tagline : Text
  pub description : Text
  pub category : ToolCategory
  pub status : ToolStatus
  pub ownership_type : OwnershipType
  pub input_type : Option InputType
  pub output_type : Option OutputType
  pub input_schema : Option Json
  pub output_schema : Option Json
  pub environment_variables : Option (List EnvironmentVariable)
  pub source_file_tree : Option (List Text)
  pub price_per_request : Option Text
  pub one_time_price : Option Text
  pub demo_url : Option Text
  pub api_endpoint : Option Text
  pub docker_image_uri : Option Text
  pub github_url : Option Text
  pub source_s3_key : Option Text
  pub config_s3_key : Option Text
  pub entry_command : Option Text
  pub port : Option ℕ
  pub processing_error : Option Text
  pub documentation : Option Text
  pub avg_response_time_ms : Option ℕ
  pub total_requests : ℕ
  pub uptime_percentage : Option Text
  pub is_featured : Bool
  pub view_count : ℕ
  pub created_at : Text
  pub updated_at : Text

pub record ToolListResponse : Type 0 where
  pub items : List Tool
  pub total : ℕ
  pub page : ℕ
  pub limit : ℕ
  pub pages : ℕ

pub data ToolProcessingJobStatus : Type 0 where
  queued running retrying succeeded failed : ToolProcessingJobStatus

pub record ToolProcessingJob : Type 0 where
  pub id : Text
  pub tool_id : Text
  pub status : ToolProcessingJobStatus
  pub attempts : ℕ
  pub max_attempts : ℕ
  pub trigger : Text
  pub last_error : Option Text
  pub arq_job_id : Text
  pub enqueued_at : Option Text
  pub started_at : Option Text
  pub finished_at : Option Text
  pub created_at : Text
  pub updated_at : Text
