-- ===== src/Audit/Symbolic.antt =====
-- A keyed hash without collisions, for the examples: a digest is the term that was hashed.
use native.Mathlib.Decide.{ℕ_discrete}
use hackaton_open_ai.Prelude.{
  ℕ, ◌≡◌, ◌↔◌, String, Bool, true, false, Equality, ==_cases, string_eq, inl, inr, refl,
}
use hackaton_open_ai.Audit.{AuditInput, Payload, record_payload, checkpoint_payload}

pub data Digest : Type 0 where
  zero_digest : Digest
  mac_record : String → ℕ → String → ℕ → AuditInput → String → Digest → Digest
  mac_checkpoint : String → ℕ → Digest → String → ℕ → Digest

abbrev pub sign : String → Payload Digest → Digest
sign k (record_payload u) =
    mac_record k u.sequence u.event_id u.occurred_at u.event u.key_id u.previous_hash
sign k (checkpoint_payload c) = mac_checkpoint k c.sequence c.event_hash c.key_id c.created_at

String-discrete : Discrete String
String-discrete s t = elim (==_cases s t) [ inl (e, p) ↦ yes p | inr (e, n) ↦ no n ]

Digest-discrete : Discrete Digest
Digest-discrete = hlevel (ℕ_discrete, String-discrete)

pub digest_beq : Digest → Digest → Bool
digest_beq a b = elim (Digest-discrete a b) [ yes p ↦ true | no n ↦ false ]

pub digest_beq_iff : (a b : Digest) → (digest_beq a b ≡ true) ↔ (a ≡ b)
unfolding digest_beq
digest_beq_iff a b = go (Digest-discrete a b)
  where
    go :
        (d : Dec (a ≡ b))
        → ((elim d as (λ x. Bool) [ yes p ↦ true | no n ↦ false ]) ≡ true) ↔ (a ≡ b)
    go (yes p) = (λ h. p, λ h. refl)
    go (no n) = (λ h. cc, λ h. absurd (n h))

instance abbrev pub digest_eq : Equality Digest
digest_eq = record { equal = digest_beq; equal_iff = digest_beq_iff }

pub sign-injective : (k l : String) (u v : Payload Digest) → sign k u ≡ sign l v → u ≡ v
sign-injective k l (record_payload u) (record_payload v) h = cc
sign-injective k l (record_payload u) (checkpoint_payload v) h = cc
sign-injective k l (checkpoint_payload u) (record_payload v) h = cc
sign-injective k l (checkpoint_payload u) (checkpoint_payload v) h = cc
