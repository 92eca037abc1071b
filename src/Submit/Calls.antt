-- ===== src/Submit/Calls.antt =====
-- When a submission counts as queued.
use startup.Common.{
  Bool, false, ◌≡◌, refl, true, Option, none, some, List, [], ◌∷◌, arith, Option-cases, inl, inr,
  Text, trim, truthy,
}
use startup.Submission.{SubmissionRecord}
use startup.Submission.Adapter.{Formats, tool_to_submission_record}
use startup.Marketplace.{Tool}
use startup.Submit.{Doubles}
use startup.Submit.Flow.{Account, awaited_token}
use startup.Submit.Requests.{
  Captured, Review, submit_with, Call, ok, threw, Request, put_tool, post_upload, post_configure,
  Server, queued, tool_body, configure_body, caught, submit_owned, both, run_submit,
}

module _ (js : Formats) (d : Doubles) (server : Server) (c : Captured) where
  -- The three requests for a tool, in their order.
  abbrev pub all_requests : Text → List Request
  all_requests id =
      put_tool id (tool_body d c)
      ∷ post_upload id (trim c.url)
      ∷ post_configure id (configure_body c.listing)
      ∷ []

  -- What was sent and with what success, if a tool was queued.
  pub record WasQueued (r : SubmissionRecord) (sent : List Request) : Type 0 where
    pub id : Text
    pub tool : Tool
    pub listed : truthy c.listing.id ≡ some id
    pub put : server.put ≡ ok tt
    pub upload : server.upload ≡ ok tt
    pub configure : server.configure ≡ ok tool
    pub requests : sent ≡ all_requests id
    pub shown : r ≡ tool_to_submission_record js tool none

  sent_by_case :
      (id : Text) (put upload : Call (Unit {0})) (configure : Call Tool)
      → server.put ≡ put
      → server.upload ≡ upload
      → server.configure ≡ configure
      → (r : SubmissionRecord) → truthy c.listing.id ≡ some id
      → (submit_owned js d server c id).0 ≡ queued r
      → WasQueued r (submit_owned js d server c id).1
  unfolding submit_owned caught
  sent_by_case id (ok _) (ok _) (ok tool) p u g r listed h = record {
    id = id;
    tool = tool;
    listed = listed;
    put = p;
    upload = u;
    configure = g;
    requests = ground arith;
    shown = ground arith;
  }
  sent_by_case id (ok _) (ok _) (threw e) p u g r listed h = absurd (ground arith)
  sent_by_case id (ok _) (threw e) configure p u g r listed h = absurd (ground arith)
  sent_by_case id (threw e) upload configure p u g r listed h = absurd (ground arith)

  both-id : (a b : Option Text) (id : Text) → both js d server c a b ≡ some id → a ≡ some id
  both-id none b id h = cc
  both-id (some a) none id h = cc
  both-id (some a) (some b) id h = h

  submit_with-queued :
      (is_signed_in : Bool) (given : Option Text) (r : SubmissionRecord)
      → (submit_with js d server c is_signed_in given).0 ≡ queued r
      → (is_signed_in ≡ true) × WasQueued r (submit_with js d server c is_signed_in given).1
  unfolding submit_with caught
  submit_with-queued false given r h = cc h
  submit_with-queued true given r h =
      elim (Option-cases (both js d server c (truthy c.listing.id) (truthy given))) [
        | inl e ↦ absurd (ground arith)
        | inr (id, e) ↦
            let listed : truthy c.listing.id ≡ some id =
              both-id (truthy c.listing.id) (truthy given) id e in
            (
              refl,
              rw (e, submit_with)
                  (sent_by_case id server.put server.upload server.configure refl refl refl r listed
                    (rw (e, submit_with) at h)),
            )
      ]

  some_inj : (a b : Review) → some a ≡ some b → a ≡ b
  some_inj a b h = cc h

  -- A submission is queued only if the account is signed in, the listing has an ID, and the server
  -- has accepted three requests for that ID in this order: the tool's data, the repository's URL, and
  -- the configuration. The record that is shown is that of the tool in the last answer.
  pub run_submit-queued :
      (account : Account) (r : SubmissionRecord)
      → (run_submit js d server c account).0 ≡ some (queued r)
      → (account.is_signed_in ≡ true) × WasQueued r (run_submit js d server c account).1
  unfolding run_submit
  run_submit-queued account r h = elim (Option-cases (awaited_token account)) [
    | inl e ↦ absurd (ground arith)
    | inr (given, e) ↦
        rw (e, run_submit)
          (submit_with-queued account.is_signed_in given r (some_inj _ _ (rw (e, run_submit) at h)))
  ]
