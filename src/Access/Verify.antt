-- ===== src/Access/Verify.antt =====
-- `verifyAdmin`, what it does to the gate, and the steps of the page. The synchronisation of the
-- account is that of lib/auth-sync.ts.
use startup.Common.{
  ℕ, ◌+◌, Bool, false, Option, none, some, List, [], ◌∷◌, ◌++◌, ◌==◌, if◌then◌else◌, ◌or_else◌,
  Text, codes, text_eq, truthy,
}
use startup.Json.{Json, get, as_text}
use startup.Api.Transport.{
  Platform, Fetched, Effect, Outcome, value, no_content, api_error, syntax_error, read_error,
  waiting,
}
use startup.Api.Request.{Entropy}
use startup.Account.{AppUser, sync_current_user}
use startup.Access.{
  ready, forbidden, error, CurrentAccount, Gate, first_gate, user_to_verify, begin_effect,
}

-- How `account.getToken()` ends: with a token, or with the message of what it throws.
pub data TokenReply : Type 0 where
  token : Option Text → TokenReply
  no_token : Option Text → TokenReply

-- `unanswered`: the request waits for ever, and the function does not end.
pub data Verified : Type 0 where
  admin : Text → Verified
  not_admin unanswered : Verified
  broke : Option Text → Verified

-- The messages of two errors that are thrown: that of a missing token, which each page words for
-- itself, and that of a body that is no JSON.
pub record Messages : Type 0 where
  pub missing_token : Text
  pub syntax_error : Text

-- `synced?.role === "admin"`
unfoldable pub has_admin_role : Json → Bool
has_admin_role body = elim (get (codes "role") body) [
  | none ↦ false
  | some role ↦ elim (as_text role) [ none ↦ false | some name ↦ text_eq name (codes "admin") ]
]

module _ (messages : Messages) where
  unfoldable pub judge : Text → Option Outcome → Verified
  judge t none = broke none
  judge t (some (value body)) = if has_admin_role body then admin t else not_admin
  judge t (some no_content) = not_admin
  judge t (some (api_error e)) = broke (some e.message)
  judge t (some syntax_error) = broke (some messages.syntax_error)
  judge t (some (read_error message)) = broke (some message)
  judge t (some waiting) = unanswered

  -- `null` of `syncCurrentUser` has no role. Every request ends with an outcome.
  unfoldable pub judge_sync : Text → Option (Option Outcome × List Effect) → Verified
  judge_sync t none = not_admin
  judge_sync t (some (outcome, effects)) = judge t outcome

  module _ (js : Platform) where
    unfoldable pub verify_admin : AppUser → TokenReply → (ℕ → Fetched) → Entropy → Verified
    verify_admin user (no_token message) network entropy = broke message
    verify_admin user (token given) network entropy = elim (truthy given) [
      | none ↦ broke (some messages.missing_token)
      | some t ↦ judge_sync t (sync_current_user js network entropy user (some t))
    ]

-- What an active effect makes of it; one that waits for ever makes nothing.
unfoldable pub end_effect : Verified → Gate → Gate
end_effect (admin t) g = record g { admin_token = some t; access = ready }
end_effect unanswered g = g
end_effect not_admin g = record g { admin_token = none; access = forbidden }
end_effect (broke message) g = record g {
  admin_token = none;
  access_error = some (message or_else codes "Could not verify admin access.");
  access = error;
}

-- The page: the account of its last effect, the number of that effect, and the gate.
pub record Page : Type 0 where
  pub account : CurrentAccount
  pub effect : ℕ
  pub gate : Gate

-- The account changes, and the effect runs again.
unfoldable pub change_account : CurrentAccount → Page → Page
change_account account p = record {
  account = account;
  effect = p.effect + 1;
  gate = begin_effect account p.gate;
}

-- What the verification that an effect began gets on its way: its number, the reply of `getToken`, the
-- answers of the network, and the random parts of its request.
pub record Answer : Type 0 where
  pub effect : ℕ
  pub reply : TokenReply
  pub network : ℕ → Fetched
  pub entropy : Entropy

module _ (messages : Messages) (js : Platform) where
  unfoldable pub verdict_of : Answer → AppUser → Verified
  verdict_of a user = verify_admin messages js user a.reply a.network a.entropy

  -- The verification comes to its end.
  unfoldable pub settle_effect : Answer → Page → Page
  settle_effect a p =
      if a.effect == p.effect
      then (elim (user_to_verify p.account) [
        | none ↦ p
        | some user ↦ record p { gate = end_effect (verdict_of a user) p.gate }
      ])
      else p

  -- What may happen next, in any order: the account changes, or the verification of any effect ends,
  -- at any time. A step has the list of the answers that come with it.
  pub data Step (p : Page) : List Answer → Page → Type 0 where
    changed : (account : CurrentAccount) → Step p [] (change_account account p)
    settled : (a : Answer) → Step p (a ∷ []) (settle_effect a p)

  -- The pages that can be reached, each with the answers that have come, the last one first.
  pub data Reach : List Answer → Page → Type 0 where
    opened :
        (account : CurrentAccount)
        → Reach []
            (record { account = account; effect = 0; gate = begin_effect account first_gate })
    later :
        {answers added : List Answer} {p q : Page}
        → Reach answers p
        → Step p added q
        → Reach (added ++ answers) q
