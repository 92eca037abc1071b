-- ===== src/Gateway/Tests.antt =====
-- The verifier at concrete inputs.
use startup.Common.{
  ℕ, ◌≡◌, refl, true, false, some, List, [], ◌∷◌, codes, truthy, text_eq, trim, join, starts_with,
  arith, is_digit, is_lower,
}
use startup.Gateway.{Platform, pos, Request}
use startup.Gateway.Message.{
  Fields, decode_base64_url, is_base64url, strip_padding, is_key_id, has_control, signature_version,
  build_canonical_message,
}
use startup.Gateway.MessageLaws.{build_canonical_message_injective}
use startup.Gateway.Verifier.{
  Options, is_configured, names_all, check_present, check_signature, timestamp_of, fields_of,
  is_signed, distance, admit, remove_expired_replay_entries, expires_at, verify_request,
}
use startup.Gateway.Safety.{is_accepted, IsGenuine, accepted-IsGenuine}
use startup.Gateway.Replay.{verify_all, replay-refused}

-- Every signature is good, and a text is the base64url of itself.
abbrev platform : Platform
platform = record {
  safe_integer = λ s. some (pos 1000);
  integer_text = λ n. codes "1000";
  to_upper = λ s. s;
  base64url = λ s. s;
  verify = λ message signature. true;
}

abbrev options : Options
options = record {
  public_key = some (codes "abcdefghijklmnopqrstuvwxyz012345");
  key_id = codes "k1";
  expected_tool_slug = codes "home";
  max_age_seconds = 300;
  allow_unsigned = false;
  max_replay_entries = 10;
}

abbrev request : Request
request = record {
  method = codes "POST";
  original_url = codes "/analyze";
  version = some (codes "ed25519-v1");
  key_id = some (codes "k1");
  timestamp = some (codes "1000");
  signature = some (codes "abcdefghijklmnopqrstuvwxyz012345abcdefghijklmnopqrstuvwxyz012345");
  request_id = some (codes "r1");
  tool_slug = some (codes "home");
}

abbrev fields : Fields
fields = fields_of platform options request (codes "r1") (pos 1000)

is_configured_test : is_configured platform options ≡ true
unfolding is_configured truthy is_digit is_lower codes is_key_id decode_base64_url trim is_base64url
    strip_padding
is_configured_test = refl

is_accepted_test : is_accepted (verify_request platform options request 1010 []).0 ≡ true
unfolding verify_request is_configured truthy is_digit is_lower codes is_key_id decode_base64_url
    trim is_base64url strip_padding names_all check_present check_signature timestamp_of is_signed
    distance admit text_eq signature_version build_canonical_message has_control starts_with join
    remove_expired_replay_entries expires_at
is_accepted_test = refl

accepted-IsGenuine_example : IsGenuine platform options request 1010
accepted-IsGenuine_example =
    accepted-IsGenuine platform options request 1010 [] is_configured_test is_accepted_test

-- Another request comes in between.
abbrev calls : List (Request × ℕ)
calls = (record request { request_id = some (codes "r2") }, 1020) ∷ []

replay-refused_example :
    is_accepted
      (verify_request platform options request 1100
        (verify_all platform options calls (verify_request platform options request 1010 []).1)).0
    ≡ false
unfolding truthy codes
replay-refused_example =
    replay-refused platform options request request 1010 1100 (codes "r1") [] calls
      is_configured_test refl refl is_accepted_test (omega arith, tt) (omega arith) (omega arith)

abbrev message : List ℕ
message = codes "ed25519-v1\nk1\n1000\nr1\nhome\nPOST\n/analyze"

message_test : build_canonical_message platform fields ≡ some message
unfolding build_canonical_message is_key_id is_digit is_lower has_control starts_with join
    signature_version codes
message_test = refl

build_canonical_message_injective_example :
    (codes "k1" ≡ codes "k1")
    × (codes "1000" ≡ codes "1000")
    × (codes "r1" ≡ codes "r1")
    × (codes "home" ≡ codes "home")
    × (codes "POST" ≡ codes "POST")
    × (codes "/analyze" ≡ codes "/analyze")
build_canonical_message_injective_example =
    build_canonical_message_injective platform fields fields message message_test message_test
