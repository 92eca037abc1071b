-- ===== src/Account/Laws.antt =====
-- When an account is synchronised, and with what.
use startup.Common.{
  ℕ, ◌≡◌, ◌⊎◌, refl, true, Option, none, some, is_some, [], ◌∷◌, ◌++◌, ◌==◌, Option-cases,
  Bool-cases, inl, inr, Text, codes, truthy, split, split_from, text_eq,
}
use startup.Json.{Json, str, get, lookup_member, end}
use startup.Api.Transport.{Platform, Fetched}
use startup.Api.Request.{Entropy, post_json}
use startup.Api.Limits.{EndsWithin, writes-EndsWithin}
use startup.Account.{
  AppUser, text_member, first_of, primary_email, display_name, auth_sync_body,
  build_auth_sync_payload, sync_options, sync_current_user,
}

split_from-first : (sep : ℕ) (cur s : Text) → is_some (first_of (split_from sep cur s)) ≡ true
unfolding split_from
split_from-first sep cur [] = refl
split_from-first sep cur (c ∷ s) = elim (Bool-cases (c == sep)) [
  | inl e ↦ rw e refl
  | inr e ↦ rw e (split_from-first sep (cur ++ c ∷ []) s)
]

display_name-some :
    (full username : Option Text) (email : Text) → is_some (display_name full username email) ≡ true
unfolding display_name split
display_name-some (some name) username email = refl
display_name-some none (some name) email = refl
display_name-some none none email = split_from-first b'@' [] email

-- A body that names the user.
abbrev pub Names : Text → Json → Type 0
Names email body =
    (get (codes "email") body ≡ some (str email))
    × (is_some (get (codes "display_name") body) ≡ true)

member_display :
    (username name avatar : Option Text)
    → is_some name ≡ true
    → is_some (
        lookup_member (codes "display_name") (
          text_member (codes "username") username (
            text_member (codes "display_name") name (text_member (codes "avatar_url") avatar end))))
      ≡ true
unfolding text_member lookup_member text_eq codes
member_display none none avatar h = cc
member_display (some u) none avatar h = cc
member_display none (some n) avatar h = refl
member_display (some u) (some n) avatar h = refl

auth_sync_body-Names : (user : AppUser) (email : Text) → Names email (auth_sync_body user email)
unfolding auth_sync_body get lookup_member text_eq codes
auth_sync_body-Names user email = (
  refl,
  member_display user.username (display_name user.full_name user.username email) user.image_url
      (display_name-some user.full_name user.username email),
)

module _ (js : Platform) (network : ℕ → Fetched) (entropy : Entropy) where
  -- What was sent for a user, and how it ended: one request at most, with the first address.
  pub record WasSynced (user : AppUser) (token : Option Text) : Type 0 where
    pub secret : Text
    pub email : Text
    pub body : Json
    pub token_given : truthy token ≡ some secret
    pub email_given : primary_email user ≡ some email
    pub named : Names email body
    pub sent :
        sync_current_user js network entropy user token
        ≡ some (post_json js network entropy (codes "/auth/sync") body (sync_options secret))
    pub ended :
        EndsWithin network 1 0
          (post_json js network entropy (codes "/auth/sync") body (sync_options secret))

  -- An account without a token or without a first e-mail address is not synchronised, and nothing is
  -- sent for it. Any other is, by a POST with that address and a display name, which calls the network
  -- once at most and ends, unless the body of the answer never ends.
  pub sync_current_user_lem :
      (user : AppUser) (token : Option Text)
      → (((truthy token ≡ none) ⊎ (primary_email user ≡ none))
          × (sync_current_user js network entropy user token ≡ none))
        ⊎ WasSynced user token
  unfolding sync_current_user build_auth_sync_payload
  sync_current_user_lem user token = elim (Option-cases (truthy token)) [
    | inl e ↦ inl (inl e, rw (e, sync_current_user) refl)
    | inr (t, e) ↦ elim (Option-cases (primary_email user)) [
      | inl f ↦ inl (inr f, rw (e, sync_current_user) (rw (f, build_auth_sync_payload) refl))
      | inr (email, f) ↦ inr (record {
        secret = t;
        email = email;
        body = auth_sync_body user email;
        token_given = e;
        email_given = f;
        named = auth_sync_body-Names user email;
        sent = rw (e, sync_current_user) (rw (f, build_auth_sync_payload) refl);
        ended =
            (writes-EndsWithin js network entropy (codes "/auth/sync") (auth_sync_body user email)
              [] (sync_options t)).0;
      })
    ]
  ]
