-- ===== src/Host/SoundDrives.antt =====
-- What `parseDrive` of src/lib/host-metrics.ts lets through.
use voidstation_app.Prelude.{
  All, Bool, Bool-cases, List, Option, [], ap, arith, inl, inr, leb, leb→le, length, none, refl,
  some, suc, true, ℕ, ◌∷◌, ◌≡◌, ◌≤◌,
}
use voidstation_app.Values.{
  Members, Value, array, as_array, as_object, as_text, boolean, has_exactly, max_safe_integer,
  member_of, natural?, null, number, object, text,
}
use voidstation_app.Host.Results.{
  Ensures, Ensures-of, bind-Ensures, check, check-Ensures, ◌>>=◌, ◌>>◌,
}
use voidstation_app.Host.Status.{all_different}
use voidstation_app.Host.Drives.{
  DriveHealth, HostStatus, Updates, boolean_of, count_at_most, drive_keys, drive_of, drives_of,
  is_device_name, is_model, is_package_name, is_temperature, nullable_boolean, nullable_count,
  nullable_text, parse_drive, parse_drives, temperature, text_that,
}

-- It is null, or has the property.
abbrev pub OrNull {ℓ} : {A : Type ℓ} → (A → Type 0) → Option A → Type 0
OrNull P none = Unit
OrNull P (some a) = P a

abbrev pub IsCount : ℕ → Option ℕ → Type 0
IsCount most n = OrNull (λ m. m ≤ most) n

pub record IsDrive (drive : DriveHealth) : Type 0 where
  pub device_name : is_device_name drive.device ≡ true
  pub model_name : OrNull (λ t. is_model t ≡ true) drive.model
  pub celsius : OrNull (λ n. is_temperature n ≡ true) drive.temperature_celsius
  pub hours : IsCount max_safe_integer drive.power_on_hours
  pub reallocated : IsCount max_safe_integer drive.reallocated_sectors
  pub pending : IsCount max_safe_integer drive.pending_sectors
  pub errors : IsCount max_safe_integer drive.media_errors
  pub used : IsCount 255 drive.percentage_used

abbrev pub IsUpdates : Updates → Type 0
IsUpdates updates = (updates.security ≤ updates.total) × (updates.total ≤ 1000000)

abbrev pub ArePackages : List (List ℕ) → Type 0
ArePackages names =
    (length names ≤ 20) × All (λ t. is_package_name t ≡ true) names × (all_different names ≡ true)

abbrev pub AreDrives : List DriveHealth → Type 0
AreDrives drives = (length drives ≤ 32) × All IsDrive drives

pub record IsStatus (status : HostStatus) : Type 0 where
  pub packages : ArePackages status.reboot_packages
  pub few_updates : OrNull IsUpdates status.updates
  pub few_drives : OrNull AreDrives status.drives

pub text_that-holds :
    (test : List ℕ → Bool) (v : Option Value) → Ensures (λ t. test t ≡ true) (text_that test v)
text_that-holds test v = bind-Ensures _ (as_text v) _ λ t e. check-Ensures _ (test t) _ λ h. h

some_text-holds :
    (test : List ℕ → Bool) (v : Option Value)
    → Ensures (OrNull (λ t. test t ≡ true)) (text_that test v >>= λ t. some (some t))
some_text-holds test v =
    bind-Ensures _ (text_that test v) _
      λ t e. Ensures-of _ (text_that test v) t (text_that-holds test v) e

nullable_text-holds :
    (test : List ℕ → Bool) (v : Option Value)
    → Ensures (OrNull (λ t. test t ≡ true)) (nullable_text test v)
nullable_text-holds test none = tt
nullable_text-holds test (some null) = tt
nullable_text-holds test (some (boolean b)) = tt
nullable_text-holds test (some (number n)) = tt
nullable_text-holds test (some (text t)) = some_text-holds test (some (text t))
nullable_text-holds test (some (array vs)) = tt
nullable_text-holds test (some (object ms)) = tt

count_at_most-IsCount : (most : ℕ) (o : Option ℕ) → Ensures (IsCount most) (count_at_most most o)
count_at_most-IsCount most none = tt
count_at_most-IsCount most (some n) = elim (Bool-cases (leb n most)) [
  | inl e ↦ rw e (leb→le _ _ e)
  | inr e ↦ rw e tt
]

nullable_count-IsCount :
    (most : ℕ) (v : Option Value) → Ensures (IsCount most) (nullable_count most v)
nullable_count-IsCount most none = tt
nullable_count-IsCount most (some null) = tt
nullable_count-IsCount most (some (boolean b)) = tt
nullable_count-IsCount most (some (number n)) = count_at_most-IsCount most (natural? n)
nullable_count-IsCount most (some (text t)) = tt
nullable_count-IsCount most (some (array vs)) = tt
nullable_count-IsCount most (some (object ms)) = tt

pub found-IsCount :
    (most : ℕ) (v : Option Value) (n : Option ℕ) → nullable_count most v ≡ some n → IsCount most n
found-IsCount most v n e =
    Ensures-of (IsCount most) (nullable_count most v) n (nullable_count-IsCount most v) e

temperature-holds :
    (v : Option Value) → Ensures (OrNull (λ n. is_temperature n ≡ true)) (temperature v)
temperature-holds none = tt
temperature-holds (some null) = tt
temperature-holds (some (boolean b)) = tt
temperature-holds (some (number n)) = check-Ensures _ (is_temperature n) _ λ h. h
temperature-holds (some (text t)) = tt
temperature-holds (some (array vs)) = tt
temperature-holds (some (object ms)) = tt

drive_of-IsDrive : (drive : Members) → Ensures IsDrive (drive_of drive)
drive_of-IsDrive drive = check-Ensures IsDrive (has_exactly drive drive_keys) _ λ h.
    bind-Ensures IsDrive (text_that is_device_name (member_of "device" drive)) _ λ device a.
      bind-Ensures IsDrive (nullable_text is_model (member_of "model" drive)) _ λ model b.
        bind-Ensures IsDrive (nullable_boolean (member_of "passed" drive)) _ λ passed c.
          bind-Ensures IsDrive (boolean_of (member_of "standby" drive)) _ λ standby d.
            bind-Ensures IsDrive (temperature (member_of "temperatureCelsius" drive)) _ λ celsius e.
              bind-Ensures IsDrive
                (nullable_count max_safe_integer (member_of "powerOnHours" drive)) _
                λ hours f.
                  bind-Ensures IsDrive
                    (nullable_count max_safe_integer (member_of "reallocatedSectors" drive)) _
                    λ reallocated g.
                      bind-Ensures IsDrive
                        (nullable_count max_safe_integer (member_of "pendingSectors" drive)) _
                        λ pending i.
                          bind-Ensures IsDrive
                            (nullable_count max_safe_integer (member_of "mediaErrors" drive)) _
                            λ errors j.
                              bind-Ensures IsDrive
                                (nullable_count 255 (member_of "percentageUsed" drive)) _
                                λ used k. record {
                                  device_name =
                                      Ensures-of _ _ device
                                        (text_that-holds is_device_name (member_of "device" drive))
                                        a;
                                  model_name =
                                      Ensures-of _ _ model
                                        (nullable_text-holds is_model (member_of "model" drive)) b;
                                  celsius =
                                      Ensures-of _ _ celsius
                                        (temperature-holds (member_of "temperatureCelsius" drive))
                                        e;
                                  hours = found-IsCount _ _ hours f;
                                  reallocated = found-IsCount _ _ reallocated g;
                                  pending = found-IsCount _ _ pending i;
                                  errors = found-IsCount _ _ errors j;
                                  used = found-IsCount _ _ used k;
                                }

parse_drive-IsDrive : (v : Value) → Ensures IsDrive (parse_drive v)
unfolding parse_drive
parse_drive-IsDrive v = bind-Ensures IsDrive (as_object v) _ λ drive e. drive_of-IsDrive drive

-- As many drives as values, each of them checked
abbrev AsMany : List Value → List DriveHealth → Type 0
AsMany vs drives = (length drives ≡ length vs) × All IsDrive drives

parse_drives-AsMany : (vs : List Value) → Ensures (AsMany vs) (parse_drives vs)
parse_drives-AsMany [] = (refl, tt)
parse_drives-AsMany (v ∷ vs) = bind-Ensures (AsMany (v ∷ vs)) (parse_drive v) _ λ drive e.
    bind-Ensures (AsMany (v ∷ vs)) (parse_drives vs) _ λ drives f.
      let many = Ensures-of (AsMany vs) (parse_drives vs) drives (parse_drives-AsMany vs) f in
      (ap suc many.0, (Ensures-of IsDrive (parse_drive v) drive (parse_drive-IsDrive v) e, many.1))

listed_drives : Option Value → Option (Option (List DriveHealth))
listed_drives v = do
  vs ← as_array v
  check (leb (length vs) 32)
  drives ← parse_drives vs
  some (some drives)

listed_drives-AreDrives : (v : Option Value) → Ensures (OrNull AreDrives) (listed_drives v)
unfolding listed_drives
listed_drives-AreDrives v = bind-Ensures (OrNull AreDrives) (as_array v) _ λ vs e.
    check-Ensures (OrNull AreDrives) (leb (length vs) 32) _ λ h.
      bind-Ensures (OrNull AreDrives) (parse_drives vs) _ λ drives f.
        let many = Ensures-of (AsMany vs) (parse_drives vs) drives (parse_drives-AsMany vs) f in
        (omega (arith, leb→le _ _ h, many.0), many.1)

pub drives_of-AreDrives : (v : Option Value) → Ensures (OrNull AreDrives) (drives_of v)
unfolding listed_drives
drives_of-AreDrives none = tt
drives_of-AreDrives (some null) = tt
drives_of-AreDrives (some (boolean b)) = tt
drives_of-AreDrives (some (number n)) = tt
drives_of-AreDrives (some (text t)) = tt
drives_of-AreDrives (some (array vs)) = listed_drives-AreDrives (some (array vs))
drives_of-AreDrives (some (object ms)) = tt
