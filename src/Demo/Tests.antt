-- ===== src/Demo/Tests.antt =====
-- The theorems on demos at concrete inputs.
use startup.Common.{
  ◌≡◌, ◌↔◌, refl, true, false, none, some, [], ◌∷◌, List, codes, ascii_lower, arith, text_eq, trim,
  includes, starts_with,
}
use startup.Marketplace.{InputType}
use startup.Json.{Json, str, obj, Members, end, member, lookup_member, to_text, coalesce}
use startup.Api.Errors.{Response}
use startup.Demo.{Browser, DemoSchemaField, string, number, is_truthy, text_of}
use startup.Demo.Fields.{
  validate_dynamic_fields, has_listing_url_and_image_inputs, has_source, has_image_field,
  has_url_field, field_fault, first_fault, is_filled, has_text, is_bad_number,
}
use startup.Demo.Payload.{Form, build_payload}
use startup.Demo.Reply.{
  parse_response, normalize_gateway_error_page, extract_error_message, gateway_message,
  looks_like_gateway_page,
}
use startup.Demo.Session.{
  Session, Demo, Faults, answer, read_session_count, begin_demo, press, is_session_limited, started,
  take_answer, finish, counted, increment_session_count, thrown,
}
use startup.Demo.FieldLaws.{AllOk, validate_dynamic_fields_iff}
use startup.Demo.PayloadLaws.{Sends, build_payload-Sends}
use startup.Demo.ReplyLaws.{parse_response_lem}
use startup.Demo.Page.{
  run_all, Event, pressed, timer_fired, answered, opened, handle, run_itself, take_one, is_served,
}
use startup.Demo.SessionLaws.{Counts, run_all-Counts}

abbrev browser : Browser
browser = record {
  to_lower = ascii_lower;
  parse_url = λ s. none;
  parse_json = λ s. none;
  stringify = λ j. codes "{}";
  number_text = λ n. codes "7";
  number = λ j. 7;
  is_truthy_number = λ n. true;
  is_finite = λ n. true;
  is_below_one = λ n. false;
}

abbrev question : DemoSchemaField
question = record { name = codes "question"; type = string; required = true; placeholder = none }

abbrev limit : DemoSchemaField
limit = record { name = codes "limit"; type = number; required = false; placeholder = none }

abbrev values : Members
values =
    member (codes "question") (str (codes "Why?")) (member (codes "limit") (str (codes "7")) end)

validate_dynamic_fields_iff_example :
    (validate_dynamic_fields browser (question ∷ limit ∷ []) values ≡ none) ↔ (
      AllOk browser (question ∷ limit ∷ []) values
      × (has_listing_url_and_image_inputs (question ∷ limit ∷ []) ≡ true
          → has_source browser values ≡ true))
validate_dynamic_fields_iff_example =
    validate_dynamic_fields_iff browser (question ∷ limit ∷ []) values

abbrev form : Form browser
form = record {
  input_type = some InputType.text;
  text_value = [];
  json_value = [];
  url_value = [];
  file_value = none;
  image_value = none;
  dynamic_value = values;
  dynamic_fields = question ∷ limit ∷ [];
}

build_payload-Sends_example :
    (payload : Members) × (build_payload browser form ≡ some (obj payload))
    × Sends browser values payload (question ∷ limit ∷ [])
unfolding validate_dynamic_fields has_listing_url_and_image_inputs has_image_field has_url_field
    first_fault field_fault is_filled has_text is_bad_number text_of to_text coalesce lookup_member
    text_eq trim codes is_truthy
build_payload-Sends_example = build_payload-Sends browser form question (limit ∷ []) refl refl

abbrev page : Response
page = record {
  status = 504;
  content_type = some (codes "text/html");
  request_id = none;
  body = codes "<h1>Bad Gateway</h1>";
}

parse_response_lem_example :
    (data_ : Json) × (parse_response browser page ≡ some data_)
    × (extract_error_message browser data_ 504 ≡ gateway_message 504)
unfolding includes starts_with codes ascii_lower looks_like_gateway_page
parse_response_lem_example = parse_response_lem browser page refl refl refl refl

abbrev demo : Demo
demo = record {
  env = record {
    api_url = none;
    app_url = none;
    converter_url = none;
    clerk_publishable_key = none;
    demo_api_key = none;
    node_env = none;
    next_phase = none;
  };
  tool_slug = codes "digest";
  demo_endpoint = none;
}

abbrev faults : Faults
faults = record { syntax_error = codes "Unexpected token" }

abbrev session : Session
session = record {
  result = none;
  error = none;
  is_running = false;
  calls_used = 9;
  stored = some 9;
}

abbrev fine : Response
fine = record { status = 200; content_type = none; request_id = none; body = codes "hello" }

-- The button is pressed at nine, and the timer fires while that call is under way.
abbrev events : List (Event browser demo faults)
events =
    pressed form (codes "r1")
    ∷ timer_fired form (codes "r2")
    ∷ answered (answer fine 20)
    ∷ answered (answer fine 20)
    ∷ pressed form (codes "r3")
    ∷ []

run_all-Counts_example :
    Counts browser demo faults 9 (run_all browser demo faults (opened session) events)
unfolding read_session_count
run_all-Counts_example = run_all-Counts browser demo faults session events refl (omega arith)

abbrev empty_text : Form browser
empty_text = record {
  input_type = some InputType.text;
  text_value = codes "hello";
  json_value = [];
  url_value = [];
  file_value = none;
  image_value = none;
  dynamic_value = end;
  dynamic_fields = [];
}

-- Both calls were made below the limit, and both are served.
eleven_served :
    (run_all browser demo faults (opened session) (
      pressed empty_text []
      ∷ timer_fired empty_text []
      ∷ answered (answer fine 20)
      ∷ answered (answer fine 20)
      ∷ [])).session.calls_used
    ≡ 11
unfolding run_all handle press run_itself take_one begin_demo is_session_limited build_payload
    started take_answer finish counted increment_session_count read_session_count is_served
    parse_response includes starts_with codes normalize_gateway_error_page thrown
eleven_served = refl

abbrev empty_json : Form browser
empty_json = record {
  input_type = some InputType.json;
  text_value = [];
  json_value = codes " ";
  url_value = [];
  file_value = none;
  image_value = none;
  dynamic_value = end;
  dynamic_fields = [];
}
