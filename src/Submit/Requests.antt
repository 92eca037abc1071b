-- ===== src/Submit/Requests.antt =====
-- `submitForReview` of the page: what it captures, the requests that it makes one behind the other,
-- and how it ends.
use startup.Common.{
  ℕ, Bool, true, false, not, Option, none, some, List, [], ◌∷◌, ◌++◌, if◌then◌else◌, ◌or_else◌,
  take, Text, codes, is_blank, trim, join, replace_char, truthy,
}
use startup.Json.{Json, null, bool, num, str, arr, obj, nil, cons, end, member, Members}
use startup.Marketplace.{Tool, category_name}
use startup.Submission.{PricingModel, buy, royalty, SubmissionRecord}
use startup.Submission.Adapter.{Formats, tool_to_submission_record}
use startup.Submit.Flow.{Account, awaited_token}
use startup.Submit.{done, owned, preview, Listing, State, Doubles, is_valid_price_amount}

-- The values of the render in which the button was pressed.
pub record Captured : Type 0 where
  pub listing : Listing
  pub url : Text
  pub pricing_model : PricingModel
  pub amount : Text

-- An awaited call: its value, or the message of what it throws, if that is an `Error`.
pub data Call (A : Type 0) : Type 0 where
  ok : A → Call A
  threw : Option Text → Call A

pub data Request : Type 0 where
  put_tool : (id : Text) (body : Json) → Request
  post_upload : (id url : Text) → Request
  post_configure : (id : Text) (body : Json) → Request

-- What the server answers to the three requests.
pub record Server : Type 0 where
  pub put : Call (Unit {0})
  pub upload : Call (Unit {0})
  pub configure : Call Tool

pub data Review : Type 0 where
  queued : SubmissionRecord → Review
  previewed : Review
  failed : Text → Review

-- The two guards, and the state while the requests are under way.
unfoldable pub begin_submit : Doubles → State → State × Option Captured
begin_submit d s = elim s.listing [
  | none ↦ (s, none)
  | some l ↦ if not (is_valid_price_amount d s.amount s.pricing_model) then (s, none) else (
    record s { submit_error = []; is_submitting = true },
    some (record { listing = l; url = s.url; pricing_model = s.pricing_model; amount = s.amount }),
  )
]

-- `trimmed || "unspecified"`
or_unspecified : Text → Text
or_unspecified s = if is_blank s then codes "unspecified" else s

abbrev paragraph : Text
paragraph = 10 ∷ 10 ∷ []

unfoldable pub documentation_of : Listing → Text
unfolding or_unspecified
documentation_of l = join paragraph (
    (codes "# " ++ trim l.name)
    ∷ trim l.description
    ∷ (codes "**Category:** " ++ replace_char b'_' 32 (category_name l.category))
    ∷ (codes "**Language:** " ++ or_unspecified (trim l.language))
    ∷ (codes "**License:** " ++ or_unspecified (trim l.license))
    ∷ (codes "**Tech stack:** " ++ or_unspecified (join (codes ", ") l.stack))
    ∷ (codes "## Input" ++ (10 ∷ trim l.inputs))
    ∷ (codes "## Output" ++ (10 ∷ trim l.outputs ++ (10 ∷ [])))
    ∷ [])

one_field : Members → Json
one_field field = obj (member (codes "fields") (arr (cons (obj field) nil)) end)

unfoldable pub input_schema_of : Listing → Json
unfolding one_field
input_schema_of l = one_field (
    member (codes "name") (str (codes "input")) (
      member (codes "type") (str (codes "string")) (
        member (codes "description") (str (trim l.inputs))
          (member (codes "required") (bool false) end))))

unfoldable pub output_schema_of : Listing → Json
unfolding one_field
output_schema_of l = one_field (
    member (codes "name") (str (codes "result")) (
      member (codes "type") (str (codes "object"))
        (member (codes "description") (str (trim l.outputs)) end)))

-- The price, in the field of the model that was chosen; the other field is null.
unfoldable pub price_fields : Doubles → Captured → Members
price_fields d c = elim c.pricing_model [
  | buy ↦ member (codes "ownership_type") (str (codes "full_sale")) (
      member (codes "one_time_price") (str (d.to_fixed 2 (d.number c.amount)))
        (member (codes "price_per_request") null end))
  | royalty ↦ member (codes "ownership_type") (str (codes "royalty")) (
      member (codes "price_per_request") (str (d.to_fixed 6 (d.number c.amount)))
        (member (codes "one_time_price") null end))
]

unfoldable pub tool_body : Doubles → Captured → Json
tool_body d c =
    let l = c.listing in
    obj (
      member (codes "name") (str (trim l.name)) (
        member (codes "tagline") (str (take 200 (trim l.description))) (
          member (codes "description") (str (trim l.description)) (
            member (codes "category") (str (category_name l.category)) (
              member (codes "input_schema") (input_schema_of l) (
                member (codes "output_schema") (output_schema_of l) (
                  member (codes "documentation") (str (documentation_of l))
                    (price_fields d c))))))))

-- The bits of the double 8080.
abbrev port_8080 : ℕ
port_8080 = 0x40bf900000000000

unfoldable pub configure_body : Listing → Json
configure_body l = obj (
    member (codes "input_schema") (input_schema_of l) (
      member (codes "output_schema") (output_schema_of l) (
        member (codes "environment_variables") (arr nil)
          (member (codes "entry_command") null (member (codes "port") (num port_8080) end)))))

-- The message of the catch block.
unfoldable pub caught : Option Text → Review
caught message = failed (message or_else codes "Could not submit this listing for review.")

module _ (js : Formats) (d : Doubles) (server : Server) (c : Captured) where
  after_configure : Call Tool → Review
  after_configure (ok tool) = queued (tool_to_submission_record js tool none)
  after_configure (threw e) = caught e

  after_upload : Text → Call (Unit {0}) → Review × List Request
  after_upload id (ok _) =
      (after_configure server.configure, post_configure id (configure_body c.listing) ∷ [])
  after_upload id (threw e) = (caught e, [])

  after_put : Text → Call (Unit {0}) → Review × List Request
  after_put id (ok _) =
      let (review, later) = after_upload id server.upload in
      (review, post_upload id (trim c.url) ∷ later)
  after_put id (threw e) = (caught e, [])

  -- The three requests, each behind the success of the one before.
  unfoldable pub submit_owned : Text → Review × List Request
  unfolding after_put after_upload after_configure
  submit_owned id =
      let (review, later) = after_put id server.put in (review, put_tool id (tool_body d c) ∷ later)

  -- The ID and the token, if both are there.
  abbrev pub both : Option Text → Option Text → Option Text
  both none token = none
  both (some id) none = none
  both (some id) (some token) = some id

  -- What follows the token.
  unfoldable pub submit_with : Bool → Option Text → Review × List Request
  submit_with is_signed_in given =
      if is_signed_in
      then (elim (both (truthy c.listing.id) (truthy given)) [
        | none ↦
            (caught (some (codes "Sign in again before submitting this listing for review.")), [])
        | some id ↦ submit_owned id
      ])
      else (previewed, [])

  -- How it ends, and the requests. The token is awaited outside the `try`: if `getToken` is rejected,
  -- the function ends with `none`, nothing is sent, and the page stays as it was while submitting.
  unfoldable pub run_submit : Account → Option Review × List Request
  run_submit account = elim (awaited_token account) [
    | none ↦ (none, [])
    | some given ↦
        let (review, sent) = submit_with account.is_signed_in given in (some review, sent)
  ]

unfoldable pub end_submit : Review → State → State
end_submit (queued r) s = record s {
  submission_record = some r;
  completion_mode = owned;
  phase = done;
  is_submitting = false;
}
end_submit previewed s = record s {
  submission_record = none;
  completion_mode = preview;
  phase = done;
  is_submitting = false;
}
end_submit (failed message) s = record s { submit_error = message; is_submitting = false }
