-- ===== src/Audit/Keyring.antt =====
-- `AuditKeyring` of api/data_security/audit.py. A secret is text, its length in bytes.
use Prim.Native.String
use hackaton_open_ai.Prelude.{
  String, ◌&&◌, ◌||◌, Option, none, some, ◌==◌, string_eq, ltb, if◌then◌else◌, Result, ok, err, ◌≡◌,
  arith, eq_iff,
}
use hackaton_open_ai.Gate.{Environment, is_managed}

-- `_keys` is a dict.
pub record AuditKeyring : Type 0 where
  pub current_key_id : String
  pub keys : String → Option String
  pub environment : Environment

pub data KeyError : Type 0 where
  key_required secret_too_short development_default current_key_unavailable : KeyError

unfoldable pub get : AuditKeyring → String → Option String
get ring key_id = ring.keys key_id

-- The property `current_secret`; `none` is its `RuntimeError`.
unfoldable pub current_secret : AuditKeyring → Option String
unfolding get
current_secret ring = get ring ring.current_key_id

unfoldable pub validate_key : Environment → String → Option String → Result KeyError (Unit {0})
validate_key environment key_id none = err key_required
validate_key environment key_id (some secret) =
    if key_id == ""
    then err key_required
    else if ltb (String.len secret) 32
    then err secret_too_short
    else if is_managed environment && ((secret == "development-only") || (secret == "test-only"))
    then err development_default
    else ok tt

abbrev pub store_key : String → String → (String → Option String) → String → Option String
store_key key_id secret keys k = if k == key_id then some secret else keys k

unfoldable pub rotate : String → String → AuditKeyring → Result KeyError AuditKeyring
unfolding validate_key
rotate key_id secret ring = elim (validate_key ring.environment key_id (some secret)) [
  | err e ↦ err e
  | ok _ ↦ ok (record ring { keys = store_key key_id secret ring.keys; current_key_id = key_id })
]

-- A rotation to an id that was not in use changes no secret that was there.
rotate_fresh :
    (key_id secret : String) (ring : AuditKeyring) {next : AuditKeyring} (k s : String)
    → get ring key_id ≡ none
    → rotate key_id secret ring ≡ ok next
    → get ring k ≡ some s
    → get next k ≡ some s
unfolding rotate get
rotate_fresh key_id secret ring k s fresh h at = ground (arith, eq_iff k key_id)
