-- ===== src/Dashboard/LoadLaws.antt =====
-- What the status of a mode says of its summary.
use startup.Common.{
  sym, ◌∙◌, ℕ, ◌==◌, ◌&&◌, not, refl, inl, inr, Option-cases, Bool-cases, has_request, AreUpTo,
  AreUpTo-below, has_request-above, ◌≡◌, Bool, true, false, none, some, is_some, List, [], ◌∷◌,
  arith,
}
use startup.Dashboard.Load.{
  DashboardLoadStatus, ready, guest, error, State, initial, begin_load, both, Settled,
  answer_requests, failed, settled, end_load, Event, account_changed, load_ended, keys_counted,
  count_keys, mode_chosen, range_chosen, handle, run,
}

-- A ready mode has its summary; a mode that has failed, or that nobody is signed in for, has none.
abbrev pub Fits : DashboardLoadStatus → Bool → Type 0
Fits ready there = there ≡ true
Fits guest there = there ≡ false
Fits error there = there ≡ false
Fits _ there = Unit

-- The page is shown to an account that is known not to be signed in.
abbrev pub is_signed_out : State → Bool
is_signed_out s = s.is_loaded && not s.is_signed_in

-- It has no summary and shows both modes as those of a guest.
abbrev pub IsForGuest : State → Type 0
IsForGuest s =
    (s.account_summary ≡ none) × (s.seller_summary ≡ none) × (s.remote_statuses ≡ both guest)

pub record IsHonest (s : State) : Type 0 where
  pub buyer : Fits s.remote_statuses.buyer (is_some s.account_summary)
  pub seller : Fits s.remote_statuses.seller (is_some s.seller_summary)
  pub for_guest : is_signed_out s ≡ true → IsForGuest s
  pub silent : is_signed_out s ≡ true → has_request s.effect s.requests ≡ false
  pub up_to : AreUpTo s.effect s.requests

begin_load-IsHonest : (a b : Bool) (s : State) → IsHonest s → IsHonest (begin_load a b s)
unfolding begin_load
begin_load-IsHonest a b s v =
    let buyer = v.buyer in
    let seller = v.seller in
    let later = AreUpTo-below s.effect s.requests v.up_to in
    let none_yet = has_request-above s.effect s.requests v.up_to in
    record {
      buyer = ground arith;
      seller = ground arith;
      for_guest = λ e. ground arith;
      silent = λ e. ground arith;
      up_to = ground arith;
    }

-- What a reply leaves of the account, the effect and the requests.
abbrev Keeps : State → State → Type 0
Keeps s t =
    (t.is_loaded ≡ s.is_loaded)
    × (t.is_signed_in ≡ s.is_signed_in)
    × (t.effect ≡ s.effect)
    × (t.requests ≡ s.requests)

end_load-Fits :
    (n : ℕ) (reply : Settled) (s : State)
    → IsHonest s
    → Fits (end_load n reply s).remote_statuses.buyer (is_some (end_load n reply s).account_summary)
      × Fits
          (end_load n reply s).remote_statuses.seller
          (is_some (end_load n reply s).seller_summary)
      × Keeps s (end_load n reply s)
unfolding end_load
end_load-Fits n failed s v = let buyer = v.buyer in let seller = v.seller in ground arith
end_load-Fits n (settled none none) s v =
    let buyer = v.buyer in let seller = v.seller in ground arith
end_load-Fits n (settled none (some y)) s v =
    let buyer = v.buyer in let seller = v.seller in ground arith
end_load-Fits n (settled (some x) none) s v =
    let buyer = v.buyer in let seller = v.seller in ground arith
end_load-Fits n (settled (some x) (some y)) s v =
    let buyer = v.buyer in let seller = v.seller in ground arith

-- A reply to an effect that is not the last one changes nothing.
end_load-late :
    (n : ℕ) (reply : Settled) (s : State) → (n == s.effect) ≡ false → end_load n reply s ≡ s
unfolding end_load
end_load-late n reply s h = rw h refl

answer_requests-IsHonest :
    (n : ℕ) (reply : Settled) (s : State) → IsHonest s → IsHonest (answer_requests n reply s)
unfolding answer_requests
answer_requests-IsHonest n reply s v = elim (Bool-cases (has_request n s.requests)) [
  | inr e ↦ rw (e, answer_requests) v
  | inl e ↦ elim (Bool-cases (n == s.effect)) [
    | inr late ↦ rw (e, answer_requests) (rw (end_load-late n reply s late) v)
    | inl last ↦
        let (buyer, seller, kept) = end_load-Fits n reply s v in
        let (loaded, signed, effect, requests) = kept in
        let up_to = v.up_to in
        let same : is_signed_out (end_load n reply s) ≡ is_signed_out s =
          rw loaded (rw signed refl) in
        let loud : is_signed_out s ≡ true → ⊥ = λ q. (let silent = v.silent q in ground arith) in
        rw (e, answer_requests)
          (record {
            buyer = buyer;
            seller = seller;
            for_guest = λ q. absurd (loud (sym same ∙ q));
            silent = λ q. absurd (loud (sym same ∙ q));
            up_to = rw effect (rw requests up_to);
          })
  ]
]

count_keys-IsHonest : (count : ℕ) (s : State) → IsHonest s → IsHonest (count_keys count s)
unfolding count_keys
count_keys-IsHonest count s v = elim (Option-cases s.account_summary) [
  | inl e ↦ rw (e, count_keys) v
  | inr (summary, e) ↦
      let buyer = v.buyer in
      rw (e, count_keys)
        (record {
          buyer = ground arith;
          seller = v.seller;
          for_guest = λ q. (let guest_now = v.for_guest q in ground arith);
          silent = v.silent;
          up_to = v.up_to;
        })
]

handle-IsHonest : (e : Event) (s : State) → IsHonest s → IsHonest (handle e s)
unfolding handle
handle-IsHonest (account_changed a b) s v = begin_load-IsHonest a b s v
handle-IsHonest (load_ended n reply) s v = answer_requests-IsHonest n reply s v
handle-IsHonest (keys_counted count) s v = count_keys-IsHonest count s v
handle-IsHonest (mode_chosen mode) s v = record {
  buyer = v.buyer;
  seller = v.seller;
  for_guest = v.for_guest;
  silent = v.silent;
  up_to = v.up_to;
}
handle-IsHonest (range_chosen range) s v = record {
  buyer = v.buyer;
  seller = v.seller;
  for_guest = v.for_guest;
  silent = v.silent;
  up_to = v.up_to;
}

run_from-IsHonest : (s : State) (events : List Event) → IsHonest s → IsHonest (run s events)
unfolding run
run_from-IsHonest s [] h = h
run_from-IsHonest s (e ∷ es) h = run_from-IsHonest (handle e s) es (handle-IsHonest e s h)

-- After any events in any order, for the buyer and for the seller: a status `ready` comes with the
-- summary that it speaks of, and a status `guest` or `error` with none; and if the account is known
-- not to be signed in, there is no summary and both statuses are `guest`, whatever answers to
-- requests for an earlier account still come.
pub run-IsHonest : (events : List Event) → IsHonest (run initial events)
unfolding initial
run-IsHonest events = run_from-IsHonest initial events (record {
  buyer = tt;
  seller = tt;
  for_guest = λ h. ground arith;
  silent = λ h. refl;
  up_to = tt;
})
