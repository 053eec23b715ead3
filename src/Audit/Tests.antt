-- ===== src/Audit/Tests.antt =====
-- A trail of two records, its checkpoint, and an instance of each theorem.
use hackaton_open_ai.Prelude.{
  ◌≡◌, ◌↔◌, refl, String, true, none, some, List, [], ◌∷◌, ◌++◌, ok, if◌then◌else◌, ◌==◌, string_eq,
}
use hackaton_open_ai.Gate.{development}
use hackaton_open_ai.Audit.Keyring.{AuditKeyring, get, current_secret}
use hackaton_open_ai.Audit.{
  AuditRecord, AuditInput, AuditCheckpoint, account, incident, incident_decided, success, append,
  build, checkpoint, verify, verify_checkpoint,
}
use hackaton_open_ai.Audit.Symbolic.{
  Digest, zero_digest, sign, digest_eq, sign-injective, digest_beq, digest_beq_iff, mac_checkpoint,
}
use hackaton_open_ai.Audit.Chain.{Chain, append-Chain, verify-valid_iff, check_records_complete}
use hackaton_open_ai.Audit.Tamper.{checkpoint_pins}

abbrev secret : String
secret = "0123456789abcdef0123456789abcdef"

abbrev ring : AuditKeyring
ring = record {
  current_key_id = "key-1";
  keys = λ k. if k == "key-1" then some secret else none;
  environment = development;
}

abbrev event : AuditInput
event = record {
  family_id = "family";
  actor_type = account;
  actor_id = "parent";
  action = incident_decided;
  target_type = incident;
  target_id = "inc-1";
  result = success;
  correlation_id = "request-1";
}

abbrev first : AuditRecord Digest
first = build sign zero_digest secret (record {
  sequence = 1;
  event_id = "audit-1";
  occurred_at = 10;
  event = event;
  key_id = "key-1";
  previous_hash = zero_digest;
})

abbrev trail : List (AuditRecord Digest)
trail = first ∷ []

trail-Chain : Chain sign ring 1 zero_digest trail
unfolding get
trail-Chain = (refl, refl, (secret, refl, refl), tt)

verify-valid_iff_example :
    (verify sign zero_digest ring trail none
      ≡ record { valid = true; checked_records = 1; reason = none })
    ↔ Chain sign ring 1 zero_digest trail
verify-valid_iff_example = verify-valid_iff sign ring zero_digest trail

abbrev second : AuditRecord Digest
second = build sign zero_digest secret (record {
  sequence = 2;
  event_id = "audit-2";
  occurred_at = 20;
  event = event;
  key_id = "key-1";
  previous_hash = first.event_hash;
})

appended : append sign zero_digest ring 20 "audit-2" event trail ≡ ok (first ∷ second ∷ [])
unfolding append current_secret get
appended = refl

append-Chain_example :
    Chain sign ring 1 zero_digest (first ∷ second ∷ [])
    × ((r : AuditRecord Digest) × (first ∷ second ∷ [] ≡ trail ++ r ∷ []) × (r.event ≡ event))
append-Chain_example =
    append-Chain sign ring zero_digest 20 "audit-2" event trail (first ∷ second ∷ []) trail-Chain
      appended

abbrev seal : AuditCheckpoint Digest
seal = record {
  fields = record {
    sequence = 1;
    event_hash = first.event_hash;
    key_id = "key-1";
    created_at = 15;
  };
  checkpoint_hash = mac_checkpoint secret 1 first.event_hash "key-1" 15;
}

sealed : checkpoint sign zero_digest ring 15 trail ≡ some seal
unfolding checkpoint current_secret get
sealed = refl

digest_beq_refl : (a : Digest) → digest_beq a a ≡ true
digest_beq_refl a = (digest_beq_iff a a).1 refl

sealed_trail_valid : (verify sign zero_digest ring (first ∷ second ∷ []) (some seal)).valid ≡ true
unfolding verify verify_checkpoint get
sealed_trail_valid =
    rw
      (
        check_records_complete sign ring zero_digest 1 zero_digest (first ∷ second ∷ [])
            append-Chain_example.0,
        verify,
      )
      (simp digest_beq_refl)

checkpoint_pins_example : (rest : List (AuditRecord Digest)) × (first ∷ second ∷ [] ≡ trail ++ rest)
checkpoint_pins_example =
    checkpoint_pins sign zero_digest sign-injective ring ring 15 trail (first ∷ second ∷ []) seal
      trail-Chain sealed sealed_trail_valid
