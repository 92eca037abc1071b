-- ===== src/Access/Safety.antt =====
-- Nobody gets behind the gate but an admin.
use startup.Common.{
  ℕ, ◌≡◌, ◌⊎◌, refl, true, Option, none, some, List, arith, Bool-cases, Option-cases, inl, inr, ap,
  ◌∙◌, [], ◌∷◌, ◌++◌, ◌==◌, Text, codes, text_eq, text_eq_iff, truthy,
}
use mathlib.Core.Path.{subst}
use mathlib.Core.List.{Memᴰ}
use mathlib.Core.Option.{some-injective}
use startup.Json.{Json, str, null, bool, num, arr, obj, get, as_text}
use startup.Api.Transport.{
  Platform, Fetched, Effect, Outcome, value, no_content, api_error, syntax_error, read_error,
  waiting,
}
use startup.Api.Request.{Entropy}
use startup.Account.{AppUser, sync_current_user}
use startup.Access.{CurrentAccount, Gate, first_gate, user_to_verify, begin_effect, shown_with}
use startup.Access.Verify.{
  TokenReply, token, no_token, Answer, verdict_of, Verified, admin, not_admin, unanswered, broke,
  Messages, has_admin_role, judge, judge_sync, verify_admin, end_effect, Page, change_account,
  settle_effect, Step, changed, settled, Reach, opened, later,
}

as_text-str : (j : Json) (s : Text) → as_text j ≡ some s → j ≡ str s
unfolding as_text
as_text-str (str t) s h = ground arith
as_text-str null s h = cc
as_text-str (bool b) s h = cc
as_text-str (num n) s h = cc
as_text-str (arr items) s h = cc
as_text-str (obj members) s h = cc

has_admin_role-get :
    (body : Json)
    → has_admin_role body ≡ true
    → get (codes "role") body ≡ some (str (codes "admin"))
unfolding has_admin_role
has_admin_role-get body h = elim (Option-cases (get (codes "role") body)) [
  | inl e ↦ cc (rw (e, has_admin_role) at h)
  | inr (role, e) ↦ elim (Option-cases (as_text role)) [
    | inl f ↦ cc (rw (f, has_admin_role) at (rw (e, has_admin_role) at h))
    | inr (name, f) ↦
        let q : text_eq name (codes "admin") ≡ true =
          rw (f, has_admin_role) at (rw (e, has_admin_role) at h) in
        e ∙ ap some (as_text-str role name f ∙ ap str ((text_eq_iff name (codes "admin")).0 q))
  ]
]

module _ (messages : Messages) (js : Platform) where
  -- The answers have shown that the account of the page is an admin's: `getToken` gave the token to the
  -- last effect, and the API called the user of the page an admin, asked with that token.
  pub record IsAdmin (account : CurrentAccount) (effect : ℕ) (t : Text) (a : Answer) : Type 0 where
    pub current : a.effect ≡ effect
    pub replied : a.reply ≡ token (some t)
    pub user : AppUser
    pub body : Json
    pub effects : List Effect
    pub loaded : account.is_loaded ≡ true
    pub configured : account.is_auth_configured ≡ true
    pub signed_in : account.is_signed_in ≡ true
    pub is_user : account.user ≡ some user
    pub synced :
        sync_current_user js a.network a.entropy user (some t) ≡ some (some (value body), effects)
    pub role : get (codes "role") body ≡ some (str (codes "admin"))

  truthy-some : (o : Option Text) (t : Text) → truthy o ≡ some t → o ≡ some t
  unfolding truthy
  truthy-some none t h = cc
  truthy-some (some []) t h = cc
  truthy-some (some (c ∷ s)) t h = h

  judge-admin :
      (t u : Text) (outcome : Option Outcome)
      → judge messages t outcome ≡ admin u
      → (body : Json) × (outcome ≡ some (value body)) × (has_admin_role body ≡ true) × (t ≡ u)
  unfolding judge
  judge-admin t u none h = cc
  judge-admin t u (some (value body)) h = elim (Bool-cases (has_admin_role body)) [
    | inl e ↦ (body, refl, e, ground arith)
    | inr e ↦ cc (rw e at h)
  ]
  judge-admin t u (some no_content) h = cc
  judge-admin t u (some syntax_error) h = cc
  judge-admin t u (some (read_error message)) h = cc
  judge-admin t u (some waiting) h = cc
  judge-admin t u (some (api_error e)) h = cc

  judge_sync-admin :
      (t u : Text) (synced : Option (Option Outcome × List Effect))
      → judge_sync messages t synced ≡ admin u
      → (body : Json) × (effects : List Effect) × (synced ≡ some (some (value body), effects))
        × (has_admin_role body ≡ true)
        × (t ≡ u)
  unfolding judge_sync
  judge_sync-admin t u none h = cc
  judge_sync-admin t u (some (outcome, effects)) h =
      let (body, e, role, same) = judge-admin t u outcome h in
      (body, effects, ap (λ o. some (o, effects)) e, role, same)

  reply-admin :
      (user : AppUser) (reply : TokenReply) (network : ℕ → Fetched) (entropy : Entropy) (t : Text)
      → verify_admin messages js user reply network entropy ≡ admin t
      → (body : Json) × (effects : List Effect) × (reply ≡ token (some t))
        × (sync_current_user js network entropy user (some t) ≡ some (some (value body), effects))
        × (has_admin_role body ≡ true)
  unfolding verify_admin
  reply-admin user (no_token message) network entropy t h = cc
  reply-admin user (token given) network entropy t h = elim (Option-cases (truthy given)) [
    | inl f ↦ cc (rw (f, verify_admin) at h)
    | inr (u, f) ↦
        let (body, effects, synced, role, is_t) =
          judge_sync-admin u t _ (rw (f, verify_admin) at h) in
        (
          body,
          effects,
          ap token (truthy-some given u f ∙ ap some is_t),
          subst
              (λ (x : Text).
                sync_current_user js network entropy user (some x)
                ≡ some (some (value body), effects))
              is_t synced,
          role,
        )
  ]

  verify_admin-admin :
      (p : Page) (user : AppUser) (a : Answer) (t : Text)
      → a.effect ≡ p.effect
      → user_to_verify p.account ≡ some user
      → verdict_of messages js a user ≡ admin t
      → IsAdmin p.account p.effect t a
  unfolding verdict_of user_to_verify
  verify_admin-admin p user a t same e h =
      let (body, effects, replied, synced, role) =
        reply-admin user a.reply a.network a.entropy t h in
      record {
        current = same;
        replied = replied;
        user = user;
        body = body;
        effects = effects;
        loaded = ground arith;
        configured = ground arith;
        signed_in = ground arith;
        is_user = ground arith;
        synced = synced;
        role = has_admin_role-get body role;
      }

  -- The page behind the gate is shown with a token of an admin only.
  abbrev pub IsGuarded : List Answer → Page → Type 0
  IsGuarded answers p =
      (t : Text)
      → shown_with p.gate ≡ some t
      → (a : Answer) × Memᴰ a answers × IsAdmin p.account p.effect t a

  begin_effect-hidden :
      (account : CurrentAccount) (g : Gate) → shown_with (begin_effect account g) ≡ none
  unfolding begin_effect shown_with
  begin_effect-hidden account g = ground arith

  truthy-given : (u t : Text) → truthy (some u) ≡ some t → u ≡ t
  unfolding truthy
  truthy-given [] t h = cc
  truthy-given (c ∷ s) t h = some-injective _ _ h

  end_effect-shown :
      (verdict : Verified) (g : Gate) (t : Text)
      → shown_with (end_effect verdict g) ≡ some t
      → (verdict ≡ admin t) ⊎ (shown_with g ≡ some t)
  unfolding end_effect shown_with
  end_effect-shown (admin u) g t h = inl (ap admin (truthy-given u t h))
  end_effect-shown not_admin g t h = cc
  end_effect-shown unanswered g t h = inr h
  end_effect-shown (broke message) g t h = cc

  weaken :
      (a : Answer) (answers : List Answer) (p : Page)
      → IsGuarded answers p
      → IsGuarded (a ∷ answers) p
  weaken a answers p safe t h =
      let (b, there, is_admin) = safe t h in (b, Memᴰ.tail there, is_admin)

  settle_effect-IsGuarded :
      (a : Answer) (answers : List Answer) (p : Page)
      → IsGuarded answers p
      → IsGuarded (a ∷ answers) (settle_effect messages js a p)
  unfolding settle_effect
  settle_effect-IsGuarded a answers p safe t = elim (Bool-cases (a.effect == p.effect)) [
    | inr stale ↦ rw (stale, settle_effect) (weaken a answers p safe t)
    | inl active ↦ elim (Option-cases (user_to_verify p.account)) [
      | inl e ↦ rw (active, settle_effect) (rw (e, settle_effect) (weaken a answers p safe t))
      | inr (user, e) ↦
          rw (active, settle_effect)
            (rw (e, settle_effect)
              (λ h. elim (end_effect-shown _ p.gate t h) [
                | inr before ↦ weaken a answers p safe t before
                | inl verdict ↦
                    (a, Memᴰ.head refl, verify_admin-admin p user a t (ground arith) e verdict)
              ]))
    ]
  ]

  Step-IsGuarded :
      {answers added : List Answer} {p q : Page}
      → Step messages js p added q
      → IsGuarded answers p
      → IsGuarded (added ++ answers) q
  unfolding change_account
  Step-IsGuarded {p = p} (changed account) safe =
      λ t h. cc (rw (begin_effect-hidden account p.gate) at h)
  Step-IsGuarded {answers = answers} {p = p} (settled a) safe =
      settle_effect-IsGuarded a answers p safe

  Reach-IsGuarded :
      (answers : List Answer) (p : Page) → Reach messages js answers p → IsGuarded answers p
  Reach-IsGuarded answers p (opened account) =
      λ t h. cc (rw (begin_effect-hidden account first_gate) at h)
  Reach-IsGuarded answers p (later r st) = Step-IsGuarded st (Reach-IsGuarded _ _ r)

  -- Whatever accounts come and go, and in whatever order the verifications end, also those of earlier
  -- accounts: if an admin page is shown with a token, then one of the answers that have come belongs
  -- to the last effect, gave it that token, and to the synchronisation of the page's present user with
  -- that token the API answered with the role of an admin; and the account is loaded, configured and
  -- signed in.
  pub shown-IsAdmin :
      (answers : List Answer) (p : Page) (t : Text)
      → Reach messages js answers p
      → shown_with p.gate ≡ some t
      → (a : Answer) × Memᴰ a answers × IsAdmin p.account p.effect t a
  shown-IsAdmin answers p t r = Reach-IsGuarded answers p r t
