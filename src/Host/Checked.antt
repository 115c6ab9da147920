-- ===== src/Host/Checked.antt =====
-- What `measureHostStatus` of src/lib/host-metrics.ts lets through, said without its tests.
use voidstation_app.Prelude.{
  All, Bool, List, Option, ◌&&◌, ◌≡◌, ◌≤◌, ◌^◌, ℕ, arith, length, none, some, true, false, and_iff,
  ◌+◌, All-weaken,
}
use voidstation_app.Values.{
  Members, Value, array, as_object, as_text, boolean, finite, has_exactly, infinite, member_of,
  null, number, object, text,
}
use voidstation_app.Host.Results.{Ensures, Ensures-of, HostSample, bind-Ensures, check-Ensures}
use voidstation_app.Host.Counters.{Dates}
use voidstation_app.Host.Drives.{DriveHealth, HostStatus, boolean_of, drives_of, text_that}
use voidstation_app.Host.Names.{
  AreDifferent, IsDeviceChar, IsModel, IsName, IsPackageChar, IsTemperature,
  all_different-AreDifferent, is_device_name-IsName, is_model-IsModel, is_package_name-IsName,
  is_temperature-IsTemperature,
}
use voidstation_app.Host.Status.{
  CheckedStatus, is_iso_timestamp, is_version_one, packages_of, status_keys, status_of, updates_of,
}
use voidstation_app.Host.SoundDrives.{IsCount, IsDrive, IsStatus, OrNull}

pub record IsCheckedDrive (drive : DriveHealth) : Type 0 where
  pub device_name : IsName IsDeviceChar 63 drive.device
  pub model_name : OrNull IsModel drive.model
  pub celsius : OrNull IsTemperature drive.temperature_celsius
  pub hours : IsCount 9007199254740991 drive.power_on_hours
  pub reallocated : IsCount 9007199254740991 drive.reallocated_sectors
  pub pending : IsCount 9007199254740991 drive.pending_sectors
  pub errors : IsCount 9007199254740991 drive.media_errors
  pub used : IsCount 255 drive.percentage_used

-- The values of a status are in their ranges, and no package is named twice.
pub record IsCheckedStatus (status : HostStatus) : Type 0 where
  pub few_packages : length status.reboot_packages ≤ 20
  pub package_names : All (IsName IsPackageChar 127) status.reboot_packages
  pub different : AreDifferent status.reboot_packages
  pub few_updates : OrNull (λ u. (u.security ≤ u.total) × (u.total ≤ 1000000)) status.updates
  pub few_drives : OrNull (λ drives. (length drives ≤ 32) × All IsCheckedDrive drives) status.drives

OrNull-weaken {ℓ} :
    {A : Type ℓ} (P Q : A → Type 0) (o : Option A) → ((x : A) → P x → Q x) → OrNull P o → OrNull Q o
OrNull-weaken P Q none f h = tt
OrNull-weaken P Q (some x) f h = f x h

IsDrive-IsCheckedDrive : (drive : DriveHealth) → IsDrive drive → IsCheckedDrive drive
IsDrive-IsCheckedDrive drive h = record {
  device_name = is_device_name-IsName drive.device h.device_name;
  model_name = OrNull-weaken _ _ drive.model is_model-IsModel h.model_name;
  celsius = OrNull-weaken _ _ drive.temperature_celsius is_temperature-IsTemperature h.celsius;
  hours = h.hours;
  reallocated = h.reallocated;
  pending = h.pending;
  errors = h.errors;
  used = h.used;
}

pub IsStatus-IsCheckedStatus : (status : HostStatus) → IsStatus status → IsCheckedStatus status
IsStatus-IsCheckedStatus status h = record {
  few_packages = h.packages.0;
  package_names = All-weaken _ _ status.reboot_packages is_package_name-IsName h.packages.1;
  different = all_different-AreDifferent status.reboot_packages h.packages.2;
  few_updates = h.few_updates;
  few_drives =
      OrNull-weaken _ _ status.drives
        (λ drives (few, sound). (few, All-weaken _ _ drives IsDrive-IsCheckedDrive sound))
        h.few_drives;
}

-- The number 1
abbrev pub IsOne : Option Value → Type 0
IsOne (some (number (finite false digits scale))) = digits ≡ 10 ^ scale
IsOne _ = ⊥

-- The file says version 1, and when it was checked.
pub record IsDated (dates : Dates) (file : Members) (checked_at : ℕ) : Type 0 where
  pub version : IsOne (member_of "version" file)
  pub checked :
      (t : List ℕ) × (member_of "checkedAt" file ≡ some (text t))
      × (dates.parse t ≡ some checked_at)

-- The sample is the text of a file of version 1 with at most 65,536 characters that was checked at most
-- three hours before it was read, and at most five minutes after it by the clocks.
pub record IsCurrent (dates : Dates) (parse_json : List ℕ → Option Value) (sample : HostSample)
    (checked_at : ℕ) : Type 0 where
  pub bounded : length sample.text ≤ 65536
  pub file : Members
  pub parsed : parse_json sample.text ≡ some (object file)
  pub dated : IsDated dates file checked_at
  pub read_at : ℕ
  pub read : dates.parse sample.observed_at ≡ some read_at
  pub not_old : read_at ≤ checked_at + 10800000
  pub not_ahead : checked_at ≤ read_at + 300000

is_version_one-IsOne : (v : Option Value) → is_version_one v ≡ true → IsOne v
is_version_one-IsOne none h = cc
is_version_one-IsOne (some null) h = cc
is_version_one-IsOne (some (boolean b)) h = cc
is_version_one-IsOne (some (number (finite true digits scale))) h = cc
is_version_one-IsOne (some (number (finite false digits scale))) h = ground arith
is_version_one-IsOne (some (number (infinite negative))) h = cc
is_version_one-IsOne (some (text t)) h = cc
is_version_one-IsOne (some (array vs)) h = cc
is_version_one-IsOne (some (object ms)) h = cc

as_text-text : (v : Option Value) (t : List ℕ) → as_text v ≡ some t → v ≡ some (text t)
as_text-text none t h = cc
as_text-text (some null) t h = cc
as_text-text (some (boolean b)) t h = cc
as_text-text (some (number n)) t h = cc
as_text-text (some (text u)) t h = cc
as_text-text (some (array vs)) t h = cc
as_text-text (some (object ms)) t h = cc

pub as_object-object : (v : Value) (ms : Members) → as_object v ≡ some ms → v ≡ object ms
as_object-object null ms h = cc
as_object-object (boolean b) ms h = cc
as_object-object (number n) ms h = cc
as_object-object (text t) ms h = cc
as_object-object (array vs) ms h = cc
as_object-object (object ns) ms h = cc

text_that-is :
    (test : List ℕ → Bool) (v : Option Value) → Ensures (λ t. v ≡ some (text t)) (text_that test v)
text_that-is test v =
    bind-Ensures _ (as_text v) _ λ t e. check-Ensures _ (test t) _ λ h. as_text-text v t e

pub status_of-IsDated :
    (dates : Dates) (file : Members)
    → Ensures (λ found. IsDated dates file found.checked_at) (status_of dates file)
status_of-IsDated dates file =
    check-Ensures IsFound
      (has_exactly file status_keys && is_version_one (member_of "version" file)) _
      λ h.
        bind-Ensures IsFound (text_that is_iso_timestamp (member_of "checkedAt" file)) _
          λ checked a. bind-Ensures IsFound (dates.parse checked) _ λ time b.
            bind-Ensures IsFound (boolean_of (member_of "rebootRequired" file)) _ λ required c.
              bind-Ensures IsFound (packages_of (member_of "rebootPackages" file)) _ λ packages d.
                bind-Ensures IsFound (updates_of (member_of "updates" file)) _ λ updates e.
                  bind-Ensures IsFound (drives_of (member_of "drives" file)) _ λ drives f. record {
                    version = is_version_one-IsOne (member_of "version" file) ((and_iff _ _).0 h).1;
                    checked = (
                      checked,
                      Ensures-of _ _ checked
                          (text_that-is is_iso_timestamp (member_of "checkedAt" file)) a,
                      b,
                    );
                  }
  where
    IsFound : CheckedStatus → Type 0
    IsFound found = IsDated dates file found.checked_at
