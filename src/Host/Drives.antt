-- ===== src/Host/Drives.antt =====
-- The checks that `parseHostStatus` of src/lib/host-metrics.ts is made of, and the health of the drives.
use voidstation_app.Prelude.{
  Bool, List, Option, String, [], all, any, false, if◌then◌else◌, leb, length, ltb, none, not, some,
  ℕ, ◌&&◌, ◌*◌, ◌==◌, ◌^◌, ◌||◌, ◌∷◌,
}
use voidstation_app.Values.{
  Members, Number, Value, as_array, as_object, as_text, boolean, finite, has_exactly, infinite,
  max_safe_integer, member_of, natural?, null, number,
}
use voidstation_app.Host.Results.{check, ◌>>=◌, ◌>>◌}
use voidstation_app.Downloads.Text.{text_length}

pub record DriveHealth : Type 0 where
  pub device : List ℕ
  pub model : Option (List ℕ)
  pub passed : Option Bool
  pub standby : Bool
  pub temperature_celsius : Option Number
  pub power_on_hours : Option ℕ
  pub reallocated_sectors : Option ℕ
  pub pending_sectors : Option ℕ
  pub media_errors : Option ℕ
  pub percentage_used : Option ℕ

pub record Updates : Type 0 where
  pub total : ℕ
  pub security : ℕ

pub record HostStatus : Type 0 where
  pub reboot_required : Bool
  pub reboot_packages : List (List ℕ)
  pub updates : Option Updates
  pub drives : Option (List DriveHealth)

abbrev pub is_upper : ℕ → Bool
is_upper c = leb b'A' c && leb c b'Z'

abbrev pub is_lower : ℕ → Bool
is_lower c = leb b'a' c && leb c b'z'

unfoldable pub is_alphanumeric : ℕ → Bool
is_alphanumeric c = is_upper c || is_lower c || (leb 48 c && leb c 57)

-- [A-Za-z0-9+.:~_-]
unfoldable pub is_package_char : ℕ → Bool
is_package_char c =
    is_alphanumeric c || c == b'+' || c == b'.' || c == b':' || c == b'~' || c == b'_' || c == b'-'

-- [A-Za-z0-9_.:,/-]
unfoldable pub is_device_char : ℕ → Bool
is_device_char c =
    is_alphanumeric c || c == b'_' || c == b'.' || c == b':' || c == b',' || c == b'/' || c == b'-'

abbrev pub is_name : (ℕ → Bool) → ℕ → List ℕ → Bool
is_name test longest [] = false
is_name test longest (c ∷ t) = is_alphanumeric c && leb (length t) longest && all test t

-- `packageName` and `deviceName`
unfoldable pub is_package_name : List ℕ → Bool
is_package_name t = is_name is_package_char 127 t

unfoldable pub is_device_name : List ℕ → Bool
is_device_name t = is_name is_device_char 63 t

-- [\u0000-\u001f\u007f]
abbrev pub is_control : ℕ → Bool
is_control c = ltb c 0x20 || c == 0x7F

unfoldable pub is_model : List ℕ → Bool
is_model t = leb 1 (text_length t) && leb (text_length t) 128 && not (any is_control t)

-- `nullableCount`: what is null is `some none`.
abbrev pub count_at_most : ℕ → Option ℕ → Option (Option ℕ)
count_at_most most none = none
count_at_most most (some n) = if leb n most then some (some n) else none

abbrev pub nullable_count : ℕ → Option Value → Option (Option ℕ)
nullable_count most (some null) = some none
nullable_count most (some (number n)) = count_at_most most (natural? n)
nullable_count most _ = none

abbrev pub text_that : (List ℕ → Bool) → Option Value → Option (List ℕ)
text_that test v = as_text v >>= λ t. check (test t) >> some t

abbrev pub nullable_text : (List ℕ → Bool) → Option Value → Option (Option (List ℕ))
nullable_text test (some null) = some none
nullable_text test v = text_that test v >>= λ t. some (some t)

abbrev pub boolean_of : Option Value → Option Bool
boolean_of (some (boolean b)) = some b
boolean_of _ = none

abbrev pub nullable_boolean : Option Value → Option (Option Bool)
nullable_boolean (some null) = some none
nullable_boolean v = boolean_of v >>= λ b. some (some b)

-- Finite, at least -40 and at most 200
unfoldable pub is_temperature : Number → Bool
is_temperature (finite negative digits scale) =
    if negative then leb digits (40 * 10 ^ scale) else leb digits (200 * 10 ^ scale)
is_temperature (infinite negative) = false

abbrev pub temperature : Option Value → Option (Option Number)
temperature (some null) = some none
temperature (some (number n)) = check (is_temperature n) >> some (some n)
temperature _ = none

abbrev pub drive_keys : List String
drive_keys =
    "device" ∷ "model" ∷ "passed" ∷ "standby" ∷ "temperatureCelsius" ∷ "powerOnHours"
    ∷ "reallocatedSectors" ∷ "pendingSectors" ∷ "mediaErrors" ∷ "percentageUsed" ∷ []

abbrev pub drive_of : Members → Option DriveHealth
drive_of drive = do
  check (has_exactly drive drive_keys)
  device ← text_that is_device_name (member_of "device" drive)
  model ← nullable_text is_model (member_of "model" drive)
  passed ← nullable_boolean (member_of "passed" drive)
  standby ← boolean_of (member_of "standby" drive)
  celsius ← temperature (member_of "temperatureCelsius" drive)
  hours ← nullable_count max_safe_integer (member_of "powerOnHours" drive)
  reallocated ← nullable_count max_safe_integer (member_of "reallocatedSectors" drive)
  pending ← nullable_count max_safe_integer (member_of "pendingSectors" drive)
  errors ← nullable_count max_safe_integer (member_of "mediaErrors" drive)
  used ← nullable_count 255 (member_of "percentageUsed" drive)
  some (record {
    device = device;
    model = model;
    passed = passed;
    standby = standby;
    temperature_celsius = celsius;
    power_on_hours = hours;
    reallocated_sectors = reallocated;
    pending_sectors = pending;
    media_errors = errors;
    percentage_used = used;
  })

unfoldable pub parse_drive : Value → Option DriveHealth
parse_drive v = as_object v >>= drive_of

abbrev pub parse_drives : List Value → Option (List DriveHealth)
parse_drives [] = some []
parse_drives (v ∷ vs) = do drive ← parse_drive v; drives ← parse_drives vs; some (drive ∷ drives)

abbrev pub drives_of : Option Value → Option (Option (List DriveHealth))
drives_of (some null) = some none
drives_of v = do
  vs ← as_array v
  check (leb (length vs) 32)
  drives ← parse_drives vs
  some (some drives)
