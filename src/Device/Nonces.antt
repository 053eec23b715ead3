-- ===== src/Device/Nonces.antt =====
-- The table device_request_nonces of api/device_identity.py.
use hackaton_open_ai.Prelude.{
  ℕ, ◌≤◌, ◌<◌, ◌≡◌, String, Bool, true, false, ◌&&◌, List, [], ◌∷◌, keep, any, ltb, ◌==◌, string_eq,
  if◌then◌else◌, arith, ==_refl,
}

pub record NonceRow : Type 0 where
  pub credential_id : String
  pub nonce : String
  pub expires_at : ℕ

abbrev pub same_nonce : String → String → NonceRow → Bool
same_nonce credential nonce r = (r.credential_id == credential) && (r.nonce == nonce)

-- `consume`: the expired rows go, and a row that is there already breaks the primary key.
unfoldable pub consume : String → String → ℕ → ℕ → List NonceRow → Bool × List NonceRow
consume credential nonce expires now rows =
    let kept = keep (λ r. ltb now r.expires_at) rows in
    if any (same_nonce credential nonce) kept
    then (false, kept)
    else (true, record { credential_id = credential; nonce = nonce; expires_at = expires } ∷ kept)

-- The table has the nonce, until a moment.
abbrev pub holds : String → String → ℕ → List NonceRow → Bool
holds credential nonce until rows =
    any (λ r. same_nonce credential nonce r && ltb until r.expires_at) rows

module _ (credential nonce : String) where
  held-keep :
      (t now : ℕ) (rows : List NonceRow)
      → now ≤ t
      → holds credential nonce t rows ≡ true
      → holds credential nonce t (keep (λ r. ltb now r.expires_at) rows) ≡ true
  held-keep t now [] below h = h
  held-keep t now (r ∷ rows) below h = ground (arith, held-keep t now rows below)

  -- Consuming any nonce, before the moment, leaves it there.
  pub holds-consume :
      (c n : String) (t expires now : ℕ) (rows : List NonceRow)
      → now ≤ t
      → holds credential nonce t rows ≡ true
      → holds credential nonce t (consume c n expires now rows).1 ≡ true
  unfolding consume
  holds-consume c n t expires now rows below h = ground (arith, held-keep t now rows below h)

  held_any :
      (t : ℕ) (rows : List NonceRow)
      → holds credential nonce t rows ≡ true
      → any (same_nonce credential nonce) rows ≡ true
  held_any t [] h = h
  held_any t (r ∷ rows) h = ground (arith, held_any t rows)

  -- Before the moment, it is not fresh.
  pub consume-stale :
      (t expires now : ℕ) (rows : List NonceRow)
      → now ≤ t
      → holds credential nonce t rows ≡ true
      → (consume credential nonce expires now rows).0 ≡ false
  unfolding consume
  consume-stale t expires now rows below h =
      ground
        (arith, held_any t (keep (λ r. ltb now r.expires_at) rows) (held-keep t now rows below h))

  -- A nonce that was fresh is held until it expires.
  pub consume-holds :
      (t expires now : ℕ) (rows : List NonceRow)
      → t < expires
      → (consume credential nonce expires now rows).0 ≡ true
      → holds credential nonce t (consume credential nonce expires now rows).1 ≡ true
  unfolding consume
  consume-holds t expires now rows below h = ground (arith, ==_refl credential, ==_refl nonce)
