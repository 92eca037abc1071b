-- ===== src/ErrorDisplay/Laws.antt =====
-- What an error display gives away in production.
use startup.Common.{Option, none, some, ◌≡◌, ◌⊎◌, refl, true, inl, inr, leb, ◌==◌, Text, ◌||◌}
use startup.Env.{Variables, in_production}
use startup.Api.Errors.{ApiError}
use startup.ErrorDisplay.{
  Thrown, as_api_error, api, Fallbacks, get_digest, is_server_error, api_display, other_display,
  to_public_error_display, get_dev_details,
}

-- Two errors that differ at most in what production hides: an answer of the API hides its name and its
-- details, and with the status of a server error its message; another error all but its digest.
abbrev pub LooksLike :
    Option (Text × ApiError) → Option (Text × ApiError) → Thrown → Thrown → Type 0
LooksLike (some (n, e)) (some (m, f)) a b =
    (e.status ≡ f.status)
    × (e.code ≡ f.code)
    × (e.request_id ≡ f.request_id)
    × ((is_server_error e ≡ true) ⊎ (e.message ≡ f.message))
LooksLike none none a b = get_digest a ≡ get_digest b
LooksLike _ _ a b = ⊥

other-display :
    (env : Variables) (options : Fallbacks) (a b : Thrown)
    → in_production env ≡ true
    → get_digest a ≡ get_digest b
    → other_display env options a ≡ other_display env options b
unfolding other_display get_dev_details
other-display env options a b p h = rw p (rw h refl)

api-display :
    (env : Variables) (options : Fallbacks) (n m : Text) (e f : ApiError)
    → in_production env ≡ true
    → LooksLike (some (n, e)) (some (m, f)) (api n e) (api m f)
    → api_display env options n e ≡ api_display env options m f
unfolding api_display get_dev_details is_server_error
api-display env options n m e f p (status, code, id, inl server) =
    let server_too : (leb 500 f.status || f.status == 0) ≡ true = rw (← status) server in
    rw p (rw server (rw server_too (rw status (rw code (rw id refl)))))
api-display env options n m e f p (status, code, id, inr message) =
    rw p (rw status (rw code (rw id (rw message refl))))

displayed :
    (env : Variables) (options : Fallbacks) (a b : Thrown) (x y : Option (Text × ApiError))
    → as_api_error a ≡ x
    → as_api_error b ≡ y
    → in_production env ≡ true
    → LooksLike x y a b
    → to_public_error_display env a options ≡ to_public_error_display env b options
unfolding to_public_error_display
displayed env options a b (some (n, e)) (some (m, f)) u v p h =
    rw (u, to_public_error_display)
      (rw (v, to_public_error_display) (api-display env options n m e f p h))
displayed env options a b none none u v p h =
    rw (u, to_public_error_display)
      (rw (v, to_public_error_display) (other-display env options a b p h))
displayed env options a b (some x) none u v p h = absurd h
displayed env options a b none (some y) u v p h = absurd h

-- In production, two errors that look alike are displayed alike. Two answers of the API look alike if
-- they agree in status, code and request ID, and either have the status of a server error or agree in
-- their messages: no name, no detail and no message of a server error changes what is displayed; that
-- of a client error may. Two other errors look alike if they have the same digest: no message of an
-- exception and no thrown text changes what is displayed.
pub to_public_error_display_lem :
    (env : Variables) (options : Fallbacks) (a b : Thrown)
    → in_production env ≡ true
    → LooksLike (as_api_error a) (as_api_error b) a b
    → to_public_error_display env a options ≡ to_public_error_display env b options
to_public_error_display_lem env options a b =
    displayed env options a b (as_api_error a) (as_api_error b) refl refl
