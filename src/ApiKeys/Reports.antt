-- ===== src/ApiKeys/Reports.antt =====
-- The count that the dashboard shows of the keys.
use startup.Common.{◌≡◌, refl, List, [], ◌∷◌, arith, All}
use startup.ApiKeys.{Manager, first_manager, active_count, set_and_report, got, threw}
use startup.ApiKeys.Handlers.{
  begin_load, end_load, begin_create, end_create, begin_revoke, end_revoke, copy_secret, Event,
  account_changed, load_ended, name_typed, create_began, create_ended, revoke_asked, revoke_began,
  revoke_ended, secret_copied, secret_dismissed, handle, run,
}

-- An event that is not the failure of a load.
abbrev pub LoadsWell : Event → Type 0
LoadsWell (load_ended n (threw message)) = ⊥
LoadsWell _ = Unit

abbrev pub Reports : Manager → Type 0
Reports s = s.reported ≡ active_count s.keys

handle-Reports : (e : Event) (s : Manager) → LoadsWell e → Reports s → Reports (handle e s)
unfolding handle begin_load end_load begin_create end_create begin_revoke end_revoke copy_secret
    set_and_report active_count
handle-Reports (load_ended n (threw message)) s w h = absurd w
handle-Reports (load_ended n (got keys)) s w h = ground arith
handle-Reports (account_changed a b) s w h = ground arith
handle-Reports (name_typed v) s w h = h
handle-Reports create_began s w h = ground arith
handle-Reports (create_ended captured now (got created)) s w h = refl
handle-Reports (create_ended captured now (threw message)) s w h = h
handle-Reports (revoke_asked id) s w h = h
handle-Reports (revoke_began id) s w h = ground arith
handle-Reports (revoke_ended id captured (got u)) s w h = refl
handle-Reports (revoke_ended id captured (threw message)) s w h = h
handle-Reports (secret_copied b) s w h = ground arith
handle-Reports secret_dismissed s w h = h

run_from-Reports :
    (s : Manager) (events : List Event) → All LoadsWell events → Reports s → Reports (run s events)
unfolding run
run_from-Reports s [] w h = h
run_from-Reports s (e ∷ es) (w, ws) h = run_from-Reports (handle e s) es ws (handle-Reports e s w h)

-- As long as no load of the keys fails, the count that was reported last is that of the active keys
-- that are shown, after any events in any order, also where requests overlap.
pub run-Reports :
    (events : List Event)
    → All LoadsWell events
    → (run first_manager events).reported ≡ active_count (run first_manager events).keys
unfolding first_manager active_count
run-Reports events w = run_from-Reports first_manager events w refl
