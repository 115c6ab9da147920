-- ===== src/Host/Status.antt =====
-- The file of the host-status helper in src/lib/host-metrics.ts: `parseHostStatus` checks it strictly and
-- rebuilds it.
use voidstation_app.Prelude.{
  Bool, List, Option, String, [], all, any, codes, drop, false, if◌then◌else◌, is_digit, is_some,
  leb, length, none, not, some, take, true, ℕ, ◌&&◌, ◌+◌, ◌==◌, ◌=b◌, ◌^◌, ◌||◌, ◌∷◌,
}
use voidstation_app.Values.{
  Members, Value, as_array, as_object, finite, has_exactly, member_of, null, number, object_or_none,
}
use voidstation_app.Host.Text.{after_prefix, some_of}
use voidstation_app.Host.Results.{
  HostSample, Measurement, available, check, unavailable, ◌>>=◌, ◌>>◌,
}
use voidstation_app.Host.Counters.{Dates}
use voidstation_app.Host.Drives.{
  HostStatus, Updates, boolean_of, drives_of, is_package_name, nullable_count, text_that,
}

abbrev pub update_counts : Members → Option Updates
update_counts updates = do
  check (has_exactly updates ("total" ∷ "security" ∷ []))
  total ← nullable_count 1000000 (member_of "total" updates)
  security ← nullable_count 1000000 (member_of "security" updates)
  t ← total
  s ← security
  check (leb s t)
  some (record { total = t; security = s })

abbrev pub updates_of : Option Value → Option (Option Updates)
updates_of (some null) = some none
updates_of v = object_or_none v >>= λ updates. update_counts updates >>= λ u. some (some u)

abbrev pub package_names : List Value → Option (List (List ℕ))
package_names [] = some []
package_names (v ∷ vs) = do
  name ← text_that is_package_name (some v)
  names ← package_names vs
  some (name ∷ names)

-- new Set(rebootPackages).size === rebootPackages.length
unfoldable pub all_different : List (List ℕ) → Bool
all_different [] = true
all_different (t ∷ ts) = not (any (λ u. u =b t) ts) && all_different ts

abbrev pub packages_of : Option Value → Option (List (List ℕ))
packages_of v = do
  vs ← as_array v
  check (leb (length vs) 20)
  names ← package_names vs
  check (all_different names)
  some names

-- \d{n}
abbrev pub digits_exactly : ℕ → List ℕ → Option (List ℕ)
digits_exactly n t = check (length (take n t) == n && all is_digit (take n t)) >> some (drop n t)

-- (?:\.\d{1,6})?
abbrev pub after_fraction : List ℕ → Option (List ℕ)
after_fraction [] = some []
after_fraction (c ∷ t) =
    if c == b'.'
    then (some_of is_digit t >>= λ run. check (leb (length run.0) 6) >> some run.1)
    else some (c ∷ t)

-- (?:Z|[+-]\d{2}:\d{2})$
abbrev pub is_zone : List ℕ → Option (Unit {0})
is_zone [] = none
is_zone (c ∷ t) = if c == b'Z' then check (leb (length t) 0) else do
  check (c == b'+' || c == b'-')
  minutes ← digits_exactly 2 t
  rest ← after_prefix (codes ":") minutes
  end ← digits_exactly 2 rest
  check (leb (length end) 0)

-- `isoTimestamp`
unfoldable pub is_iso_timestamp : List ℕ → Bool
is_iso_timestamp t = is_some (do
  a ← digits_exactly 4 t
  b ← after_prefix (codes "-") a
  c ← digits_exactly 2 b
  d ← after_prefix (codes "-") c
  e ← digits_exactly 2 d
  f ← after_prefix (codes "T") e
  g ← digits_exactly 2 f
  h ← after_prefix (codes ":") g
  i ← digits_exactly 2 h
  j ← after_prefix (codes ":") i
  k ← digits_exactly 2 j
  l ← after_fraction k
  is_zone l)

abbrev pub status_keys : List String
status_keys =
    "version" ∷ "checkedAt" ∷ "rebootRequired" ∷ "rebootPackages" ∷ "updates" ∷ "drives" ∷ []

-- data.version === 1
abbrev pub is_version_one : Option Value → Bool
is_version_one (some (number (finite negative digits scale))) = not negative && digits == 10 ^ scale
is_version_one _ = false

pub record CheckedStatus : Type 0 where
  pub status : HostStatus
  pub checked_at : ℕ

abbrev pub status_of : Dates → Members → Option CheckedStatus
status_of dates file = do
  check (has_exactly file status_keys && is_version_one (member_of "version" file))
  checked ← text_that is_iso_timestamp (member_of "checkedAt" file)
  time ← dates.parse checked
  required ← boolean_of (member_of "rebootRequired" file)
  packages ← packages_of (member_of "rebootPackages" file)
  updates ← updates_of (member_of "updates" file)
  drives ← drives_of (member_of "drives" file)
  some (record {
    status = record {
      reboot_required = required;
      reboot_packages = packages;
      updates = updates;
      drives = drives;
    };
    checked_at = time;
  })

-- `JSON.parse` is a parameter: none where it throws.
unfoldable pub parse_host_status : Dates → (List ℕ → Option Value) → List ℕ → Option CheckedStatus
parse_host_status dates parse_json content = do
  check (leb (length content) 65536)
  v ← parse_json content
  file ← as_object v
  status_of dates file

abbrev pub max_age_ms : ℕ
max_age_ms = 10800000

abbrev pub max_future_ms : ℕ
max_future_ms = 300000

abbrev pub checked_status : Dates → (List ℕ → Option Value) → HostSample → Option CheckedStatus
checked_status dates parse_json sample = do
  found ← parse_host_status dates parse_json sample.text
  read_at ← dates.parse sample.observed_at
  check (
      leb read_at (found.checked_at + max_age_ms) && leb found.checked_at (read_at + max_future_ms))
  some found

abbrev pub as_measured : Dates → Option CheckedStatus → Measurement HostStatus
as_measured dates none = unavailable
as_measured dates (some found) = available found.status (dates.iso_string found.checked_at)

unfoldable pub measure_host_status :
    Dates → (List ℕ → Option Value) → Option HostSample → Measurement HostStatus
measure_host_status dates parse_json none = unavailable
measure_host_status dates parse_json (some sample) =
    as_measured dates (checked_status dates parse_json sample)
