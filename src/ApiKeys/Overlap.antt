-- ===== src/ApiKeys/Overlap.antt =====
-- A revocation and a creation that overlap.
use startup.Common.{
  ◌≡◌, ◌⊎◌, text_eq_refl, ◌∙◌, refl, Bool, true, false, some, List, [], ◌∷◌, map, arith, any, All,
  Text, text_eq,
}
use startup.ApiKeys.{ApiKeyListItem, ApiKeyCreateResponse, Manager, set_and_report, deactivate, got}
use startup.ApiKeys.Handlers.{new_item, end_create, begin_revoke, end_revoke}

-- Some key has the ID.
abbrev pub has_key : Text → List ApiKeyListItem → Bool
has_key id keys = any (λ key. text_eq key.id id) keys

deactivate-id : (id : Text) (key : ApiKeyListItem) → (deactivate id key).id ≡ key.id
unfolding deactivate
deactivate-id id key = ground arith

has_key-deactivate :
    (id key_id : Text) (keys : List ApiKeyListItem)
    → has_key id (map (deactivate key_id) keys) ≡ has_key id keys
has_key-deactivate id key_id [] = refl
has_key-deactivate id key_id (key ∷ keys) =
    rw (deactivate-id key_id key) (rw (has_key-deactivate id key_id keys) refl)

-- No key with the ID is active.
abbrev pub IsRevoked : Text → ApiKeyListItem → Type 0
IsRevoked id key = (text_eq key.id id ≡ false) ⊎ (key.is_active ≡ false)

deactivate-IsRevoked :
    (id : Text) (keys : List ApiKeyListItem) → All (IsRevoked id) (map (deactivate id) keys)
unfolding deactivate
deactivate-IsRevoked id [] = tt
deactivate-IsRevoked id (key ∷ keys) = (ground arith, deactivate-IsRevoked id keys)

captured-keys :
    (key_id : Text) (s : Manager) (captured : List ApiKeyListItem)
    → (begin_revoke key_id s).1 ≡ some captured
    → captured ≡ s.keys
unfolding begin_revoke
captured-keys key_id s captured h = ground arith

-- A revocation that succeeds leaves no active key with its ID. But it goes back to the keys of the
-- moment in which it began: a key that was created meanwhile is shown when it is created, and is no
-- longer in the list when the revocation ends.
pub end_revoke-overlap :
    (key_id now : Text) (s t : Manager) (captured others : List ApiKeyListItem)
    (created : ApiKeyCreateResponse)
    → (begin_revoke key_id s).1 ≡ some captured
    → has_key created.id s.keys ≡ false
    → (has_key created.id (end_create others now (got created) t).keys ≡ true)
      × (has_key created.id
            (end_revoke key_id captured (got tt) (end_create others now (got created) t)).keys
          ≡ false)
      × All
          (IsRevoked key_id)
          (end_revoke key_id captured (got tt) (end_create others now (got created) t)).keys
unfolding end_create end_revoke set_and_report new_item
end_revoke-overlap key_id now s t captured others created began absent = (
  rw (text_eq_refl created.id) refl,
  has_key-deactivate created.id key_id captured ∙ rw (captured-keys key_id s captured began) absent,
  deactivate-IsRevoked key_id captured,
)
