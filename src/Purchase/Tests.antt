-- ===== src/Purchase/Tests.antt =====
-- A purchase at a concrete answer.
use startup.Common.{◌⊎◌, ℕ, ◌≤◌, refl, none, some, codes}
use startup.Json.{str, obj, member, end}
use startup.Env.{Url}
use startup.Api.Errors.{whole}
use startup.Api.Transport.{Platform, Fetched, response}
use startup.Api.Request.{Entropy}
use startup.Api.Retry.{fetches}
use startup.Access.Verify.{token}
use startup.Purchase.{idle, Button, purchase_tool}
use startup.Purchase.Laws.{Waits, Ends, purchase_tool-Ends}

abbrev checkout : Url
checkout = record {
  href = codes "https://checkout.stripe.com/pay";
  protocol = codes "https:";
  hostname = codes "checkout.stripe.com";
}

abbrev platform : Platform
platform = record {
  env = record {
    api_url = none;
    app_url = none;
    converter_url = none;
    clerk_publishable_key = none;
    demo_api_key = none;
    node_env = none;
    next_phase = none;
  };
  parse_url = λ s. some checkout;
  parse_json = λ s. some (obj (member (codes "checkout_url") (str checkout.href) end));
  number_text = λ n. codes "7";
  stringify = λ j. codes "{}";
}

abbrev network : ℕ → Fetched
network n =
    response (record { status = 200; content_type = none; request_id = none; body = codes "x" })
      whole

abbrev entropy : Entropy
entropy = record { uuid = none; now = codes "lx2"; random = codes "0.8f3k" }

abbrev button : Button
button = record { status = idle; message = none; location = none }

purchase_tool-Ends_example :
    (Ends platform.parse_url
        (purchase_tool platform network entropy (codes "t1") (token (some (codes "jwt"))) button).0
      ⊎ Waits network
          (purchase_tool platform network entropy
            (codes "t1")
            (token (some (codes "jwt")))
            button).0)
    × (fetches
          (purchase_tool platform network entropy
            (codes "t1")
            (token (some (codes "jwt")))
            button).1
        ≤ 1)
purchase_tool-Ends_example =
    purchase_tool-Ends platform network entropy (codes "t1") (token (some (codes "jwt"))) button
      refl
