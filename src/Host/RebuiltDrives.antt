-- ===== src/Host/RebuiltDrives.antt =====
-- The drives that the host-status helper writes are those that src/lib/host-metrics.ts reads.
use voidstation_app.Prelude.{
  All, Bool, List, Option, [], ap, arith, leb, length, le→leb, map, none, refl, some, subst, suc,
  sym, true, ℕ, ◌∙◌, ◌∷◌, ◌≡◌, ◌≤◌,
}
use voidstation_app.Values.{
  Members, Number, Value, array, boolean, max_safe_integer, member, natural?-whole, no_member, null,
  number, object, text, values_list, values_list-values_of, values_of, whole,
}
use voidstation_app.Host.Results.{check, ◌>>=◌, ◌>>◌}
use voidstation_app.Host.Drives.{
  DriveHealth, HostStatus, Updates, count_at_most, drive_of, drives_of, is_device_name, is_model,
  is_temperature, nullable_boolean, nullable_count, nullable_text, parse_drive, parse_drives,
  temperature, text_that,
}
use voidstation_app.Host.SoundDrives.{AreDrives, IsCount, IsDrive, OrNull}

pub bind-some {ℓ κ} :
    {A : Type ℓ} {B : Type κ} (m : Option A) (f : A → Option B) (a : A) (r : Option B)
    → m ≡ some a
    → f a ≡ r
    → (m >>= f) ≡ r
bind-some m f a r e h = subst (λ o. (o >>= f) ≡ r) (sym e) h

pub check-some {ℓ} :
    {B : Type ℓ} (b : Bool) (k r : Option B) → b ≡ true → k ≡ r → (check b >> k) ≡ r
check-some b k r e h = subst (λ c. (check c >> k) ≡ r) (sym e) h

-- The JSON of a status
abbrev pub count_value : Option ℕ → Value
count_value none = null
count_value (some n) = whole n

abbrev pub nullable_text_value : Option (List ℕ) → Value
nullable_text_value none = null
nullable_text_value (some t) = text t

abbrev pub nullable_boolean_value : Option Bool → Value
nullable_boolean_value none = null
nullable_boolean_value (some b) = boolean b

abbrev pub number_value : Option Number → Value
number_value none = null
number_value (some n) = number n

abbrev pub drive_members : DriveHealth → Members
drive_members drive = member "device" (text drive.device) (
    member "model" (nullable_text_value drive.model) (
      member "passed" (nullable_boolean_value drive.passed) (
        member "standby" (boolean drive.standby) (
          member "temperatureCelsius" (number_value drive.temperature_celsius) (
            member "powerOnHours" (count_value drive.power_on_hours) (
              member "reallocatedSectors" (count_value drive.reallocated_sectors) (
                member "pendingSectors" (count_value drive.pending_sectors) (
                  member "mediaErrors" (count_value drive.media_errors)
                    (member "percentageUsed" (count_value drive.percentage_used) no_member)))))))))

abbrev pub drive_value : DriveHealth → Value
drive_value drive = object (drive_members drive)

abbrev pub drives_value : Option (List DriveHealth) → Value
drives_value none = null
drives_value (some drives) = array (values_of (map drive_value drives))

abbrev pub updates_value : Option Updates → Value
updates_value none = null
updates_value (some updates) =
    object
      (member "total" (whole updates.total) (member "security" (whole updates.security) no_member))

abbrev pub name_value : List ℕ → Value
name_value t = text t

abbrev pub status_members : HostStatus → List ℕ → Members
status_members status checked = member "version" (whole 1) (
    member "checkedAt" (text checked) (
      member "rebootRequired" (boolean status.reboot_required) (
        member "rebootPackages" (array (values_of (map name_value status.reboot_packages))) (
          member "updates" (updates_value status.updates)
            (member "drives" (drives_value status.drives) no_member)))))

pub text_that-some :
    (test : List ℕ → Bool) (t : List ℕ) → test t ≡ true → text_that test (some (text t)) ≡ some t
text_that-some test t h = check-some (test t) (some t) (some t) h refl

nullable_text-some :
    (test : List ℕ → Bool) (t : Option (List ℕ))
    → OrNull (λ u. test u ≡ true) t
    → nullable_text test (some (nullable_text_value t)) ≡ some t
nullable_text-some test none h = refl
nullable_text-some test (some t) h =
    bind-some (text_that test (some (text t))) _ t (some (some t)) (text_that-some test t h) refl

nullable_boolean-some :
    (b : Option Bool) → nullable_boolean (some (nullable_boolean_value b)) ≡ some b
nullable_boolean-some none = refl
nullable_boolean-some (some b) = refl

temperature-some :
    (n : Option Number)
    → OrNull (λ m. is_temperature m ≡ true) n
    → temperature (some (number_value n)) ≡ some n
temperature-some none h = refl
temperature-some (some n) h = check-some (is_temperature n) (some (some n)) (some (some n)) h refl

count_at_most-some : (most n : ℕ) → n ≤ most → count_at_most most (some n) ≡ some (some n)
count_at_most-some most n h = rw (le→leb n most h) refl

pub nullable_count-some :
    (most : ℕ) (n : Option ℕ)
    → most ≤ max_safe_integer
    → IsCount most n
    → nullable_count most (some (count_value n)) ≡ some n
nullable_count-some most none l h = refl
nullable_count-some most (some n) l h =
    ap (count_at_most most) (natural?-whole n (omega (arith, l, h))) ∙ count_at_most-some most n h

drive_of-drive_members :
    (drive : DriveHealth) → IsDrive drive → drive_of (drive_members drive) ≡ some drive
drive_of-drive_members drive h =
    let safe : max_safe_integer ≤ max_safe_integer = omega arith in
    bind-some _ _ drive.device _ (text_that-some is_device_name drive.device h.device_name) (
      bind-some _ _ drive.model _ (nullable_text-some is_model drive.model h.model_name) (
        bind-some _ _ drive.passed _ (nullable_boolean-some drive.passed) (
          bind-some _ _ drive.temperature_celsius _
            (temperature-some drive.temperature_celsius h.celsius)
            (bind-some _ _ drive.power_on_hours _
              (nullable_count-some max_safe_integer drive.power_on_hours safe h.hours)
              (bind-some _ _ drive.reallocated_sectors _
                (nullable_count-some max_safe_integer drive.reallocated_sectors safe h.reallocated)
                (bind-some _ _ drive.pending_sectors _
                  (nullable_count-some max_safe_integer drive.pending_sectors safe h.pending)
                  (bind-some _ _ drive.media_errors _
                    (nullable_count-some max_safe_integer drive.media_errors safe h.errors)
                    (bind-some _ _ drive.percentage_used _
                      (nullable_count-some 255 drive.percentage_used (omega arith) h.used)
                      refl))))))))

parse_drives-some :
    (drives : List DriveHealth)
    → All IsDrive drives
    → parse_drives (map drive_value drives) ≡ some drives
unfolding parse_drive
parse_drives-some [] h = refl
parse_drives-some (drive ∷ drives) (h, hs) =
    bind-some (parse_drive (drive_value drive)) _ drive _ (drive_of-drive_members drive h) (
      bind-some (parse_drives (map drive_value drives)) _ drives _ (parse_drives-some drives hs)
        refl)

length-map-value {ℓ} : {A : Type ℓ} (f : A → Value) (xs : List A) → length (map f xs) ≡ length xs
length-map-value f [] = refl
length-map-value f (x ∷ xs) = ap suc (length-map-value f xs)

pub few-values {ℓ} :
    {A : Type ℓ} (f : A → Value) (xs : List A) (most : ℕ)
    → length xs ≤ most
    → leb (length (values_list (values_of (map f xs)))) most ≡ true
few-values f xs most h =
    le→leb _ most
      (omega (arith, h, length-map-value f xs, ap (length {0}) (values_list-values_of (map f xs))))

pub drives_of-some :
    (drives : Option (List DriveHealth))
    → OrNull AreDrives drives
    → drives_of (some (drives_value drives)) ≡ some drives
drives_of-some none h = refl
drives_of-some (some drives) (l, h) =
    check-some (leb (length (values_list (values_of (map drive_value drives)))) 32) _ _
      (few-values drive_value drives 32 l)
      (bind-some (parse_drives (values_list (values_of (map drive_value drives)))) _ drives _
        (ap parse_drives (values_list-values_of (map drive_value drives))
          ∙ parse_drives-some drives h)
        refl)
