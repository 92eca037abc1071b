-- ===== src/Dashboard/Load.antt =====
-- The state of the page, and the effect that loads the two summaries. An effect has a number, and its
-- answers count as long as it is the last one. Beside the `useState` variables, the state holds what
-- the last effect knows of the account, its number, and the numbers of the effects that made requests.
use startup.Common.{
  has_request, false, ℕ, ◌+◌, Bool, not, Option, none, some, List, [], ◌∷◌, ◌==◌, if◌then◌else◌,
  is_some,
}
use startup.Dashboard.{DashboardSummaryResponse, SellerDashboardResponse, RangeKey, thirty_days}

pub data DashboardMode : Type 0 where
  buyer seller : DashboardMode

pub data DashboardLoadStatus : Type 0 where
  idle loading ready guest error : DashboardLoadStatus

pub record RemoteStatuses : Type 0 where
  pub buyer : DashboardLoadStatus
  pub seller : DashboardLoadStatus

pub record State : Type 0 where
  pub range : RangeKey
  pub mode : DashboardMode
  pub account_summary : Option DashboardSummaryResponse
  pub seller_summary : Option SellerDashboardResponse
  pub remote_statuses : RemoteStatuses
  pub is_loaded : Bool
  pub is_signed_in : Bool
  pub effect : ℕ
  pub requests : List ℕ

abbrev pub both : DashboardLoadStatus → RemoteStatuses
both status = record { buyer = status; seller = status }

unfoldable pub initial : State
initial = record {
  range = thirty_days;
  mode = buyer;
  account_summary = none;
  seller_summary = none;
  remote_statuses = both idle;
  is_loaded = false;
  is_signed_in = false;
  effect = 0;
  requests = [];
}

-- The effect, up to its first `await`.
unfoldable pub begin_load : (is_loaded is_signed_in : Bool) → State → State
begin_load is_loaded is_signed_in s =
    let next = record s {
      is_loaded = is_loaded;
      is_signed_in = is_signed_in;
      effect = s.effect + 1;
    } in
    if not is_loaded
    then next
    else if not is_signed_in
    then record next { remote_statuses = both guest; account_summary = none; seller_summary = none }
    else record next { remote_statuses = both loading; requests = next.effect ∷ s.requests }

-- How it ends: the token or the synchronisation of the account throws, or both requests are settled,
-- each with its summary, if it is fulfilled.
pub data Settled : Type 0 where
  failed : Settled
  settled : Option DashboardSummaryResponse → Option SellerDashboardResponse → Settled

abbrev pub ready_if : Bool → DashboardLoadStatus
ready_if fulfilled = if fulfilled then ready else error

take_settled : Settled → State → State
take_settled failed s = record s {
  account_summary = none;
  seller_summary = none;
  remote_statuses = both error;
}
take_settled (settled account_summary seller_summary) s = record s {
  account_summary = account_summary;
  seller_summary = seller_summary;
  remote_statuses = record {
    buyer = ready_if (is_some account_summary);
    seller = ready_if (is_some seller_summary);
  };
}

unfoldable pub end_load : ℕ → Settled → State → State
unfolding take_settled
end_load n reply s = if n == s.effect then take_settled reply s else s

-- The answers to the requests of an effect: there are none to an effect that made no request.
unfoldable pub answer_requests : ℕ → Settled → State → State
answer_requests n reply s = if has_request n s.requests then end_load n reply s else s

-- What the list of the API keys reports: the number of the active ones.
unfoldable pub count_keys : ℕ → State → State
count_keys count s = elim s.account_summary [
  | none ↦ s
  | some summary ↦ record s { account_summary = some (record summary { active_api_keys = count }) }
]

-- The account changes, or the visitor retries; a load ends; the keys are counted; a choice is made.
pub data Event : Type 0 where
  account_changed : (is_loaded is_signed_in : Bool) → Event
  load_ended : ℕ → Settled → Event
  keys_counted : ℕ → Event
  mode_chosen : DashboardMode → Event
  range_chosen : RangeKey → Event

unfoldable pub handle : Event → State → State
handle (account_changed is_loaded is_signed_in) s = begin_load is_loaded is_signed_in s
handle (load_ended n reply) s = answer_requests n reply s
handle (keys_counted count) s = count_keys count s
handle (mode_chosen mode) s = record s { mode = mode }
handle (range_chosen range) s = record s { range = range }

unfoldable pub run : State → List Event → State
run s [] = s
run s (e ∷ es) = run (handle e s) es
