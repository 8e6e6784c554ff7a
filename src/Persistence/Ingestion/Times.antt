-- ===== src/Persistence/Ingestion/Times.antt =====
-- src/persistence/ingestion/lifecycle.py: timestamps and the small validators. Reading and writing ISO
-- 8601 is `datetime`'s; it is a parameter, with what its documentation says of a UTC datetime.
use signalproject.Prelude.{
  ℕ, ◌≤◌, Bool, false, ◌&&◌, ◌||◌, ◌≡◌, Option, none, some, ◌++◌, String, leb, ltb, nat_eq, length,
  Result, ok, err, raise_if, if◌then◌else◌, not, Fault, value_error, field_error,
}
use signalproject.Prelude.Text.{Text, codes, is_empty, ends_with, drop_last, all_chars}
use signalproject.Prelude.Float.{ℤ, pos, negsuc}

-- A `datetime`: microseconds since the year 1, in UTC if it has an offset (`utcoffset()` in microseconds).
pub data Stamp : Type 0 where
  naive : ℕ → Stamp
  aware : (utcoffset : ℤ) (instant : ℕ) → Stamp

-- `datetime.max` in microseconds: 9999-12-31T23:59:59.999999
abbrev pub max_instant : ℕ
max_instant = 315_537_897_599_999_999

pub record Calendar : Type 0 where
  -- `datetime.fromisoformat`; none is its ValueError
  pub fromisoformat : Text → Option Stamp
  -- `isoformat()` of the UTC datetime at an instant
  pub isoformat : ℕ → Text

-- What the documentation says of `isoformat()` of a UTC datetime: `fromisoformat` inverts it, and it
-- ends in the offset, +00:00.
pub record IsCalendar (c : Calendar) : Type 0 where
  pub inverse : (t : ℕ) → t ≤ max_instant → c.fromisoformat (c.isoformat t) ≡ some (aware (pos 0) t)
  pub offset_last : (t : ℕ) → ends_with b'Z' (c.isoformat t) ≡ false
  pub written : (t : ℕ) → is_empty (c.isoformat t) ≡ false

abbrev pub is_zero : ℤ → Bool
is_zero (pos n) = nat_eq n 0
is_zero (negsuc n) = false

-- `f"{value[:-1]}+00:00" if value.endswith("Z") else value`
abbrev pub normalized : Text → Text
normalized value = if ends_with b'Z' value then drop_last value ++ codes "+00:00" else value

abbrev pub utc_instant : String → Option Stamp → Result Fault ℕ
utc_instant field none = err (field_error field "must be an ISO-8601 timestamp")
utc_instant field (some (naive t)) = err (field_error field "must be timezone-aware")
utc_instant field (some (aware utcoffset t)) =
    if is_zero utcoffset then ok t else err (field_error field "must use UTC")

module _ (c : Calendar) where
  -- _parse_utc
  unfoldable pub parse_utc : Text → (field : String) → Result Fault ℕ
  parse_utc value field =
      if is_empty value
      then err (field_error field "is required")
      else utc_instant field (c.fromisoformat (normalized value))

  -- _validate_optional_timestamp
  abbrev pub validate_optional_timestamp : Option Text → (field : String) → Result Fault (Unit {0})
  validate_optional_timestamp none field = ok tt
  validate_optional_timestamp (some value) field = passed (parse_utc value field)
    where
      passed : Result Fault ℕ → Result Fault (Unit {0})
      passed (ok t) = ok tt
      passed (err e) = err e

  -- What `isoformat` writes, `_parse_utc` reads.
  pub parse_utc-isoformat :
      IsCalendar c
      → (t : ℕ) (field : String) → t ≤ max_instant
      → parse_utc (c.isoformat t) field ≡ ok t
  unfolding parse_utc
  parse_utc-isoformat h t field fits = rw (h.written t, h.offset_last t, h.inverse t fits)

-- _require_positive_integer; a negative integer raises as 0 does.
unfoldable pub require_positive_integer : ℕ → (field : String) → Result Fault (Unit {0})
require_positive_integer n field = raise_if (ltb n 1) (field_error field "must be positive")

-- _validate_id
unfoldable pub validate_id : Text → (field : String) → Result Fault (Unit {0})
validate_id value field = raise_if (is_empty value) (field_error field "is required")

abbrev is_alphanumeric : ℕ → Bool
is_alphanumeric c =
    (leb b'A' c && leb c b'Z') || ((leb b'a' c && leb c b'z') || (leb b'0' c && leb c b'9'))

abbrev is_version_char : ℕ → Bool
is_version_char c = is_alphanumeric c || (nat_eq c b'.' || (nat_eq c b'_' || nat_eq c b'-'))

abbrev is_worker_char : ℕ → Bool
is_worker_char c = is_version_char c || nat_eq c b':'

abbrev is_token_char : ℕ → Bool
is_token_char c = is_alphanumeric c || (nat_eq c b'_' || nat_eq c b'-')

-- `_POLICY_VERSION_PATTERN.fullmatch`: [A-Za-z0-9._-]{1,64}
unfoldable pub is_policy_version : Text → Bool
is_policy_version v = leb 1 (length v) && (leb (length v) 64 && all_chars is_version_char v)

-- `_WORKER_ID_PATTERN.fullmatch`: [A-Za-z0-9._:-]{1,128}
unfoldable pub is_worker_id : Text → Bool
is_worker_id v = leb 1 (length v) && (leb (length v) 128 && all_chars is_worker_char v)

-- `_TOKEN_PATTERN.fullmatch`: [A-Za-z0-9_-]{43,}
unfoldable pub is_token : Text → Bool
is_token v = leb 43 (length v) && all_chars is_token_char v

unfoldable pub validate_worker_id : Text → Result Fault (Unit {0})
validate_worker_id v =
    raise_if (not (is_worker_id v)) (value_error "worker_id has an invalid format")

unfoldable pub validate_claim_token : Text → Result Fault (Unit {0})
validate_claim_token v =
    raise_if (not (is_token v)) (value_error "claim_token must be an opaque URL-safe 256-bit token")
