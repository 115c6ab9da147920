-- ===== src/Host/Examples.antt =====
-- Readings of /proc and a status file for src/lib/host-metrics.ts.
use voidstation_app.Prelude.{
  List, Option, [], arith, codes, false, is_digit, is_space, none, refl, some, trim, trim_start,
  true, ℕ, ◌=b◌, ◌∷◌, ◌≡◌,
}
use voidstation_app.Values.{Value, finite, object}
use voidstation_app.Host.Text.{
  after_prefix, digits_value, find_line, lines_from, parse_decimal, span, words_from,
}
use voidstation_app.Host.Results.{HostSample}
use voidstation_app.Host.Counters.{CpuCounters, Dates, parse_cpu, parse_stall, sum}
use voidstation_app.Host.Memory.{parse_ram}
use voidstation_app.Host.Status.{all_different, is_iso_timestamp, parse_host_status}
use voidstation_app.Host.Drives.{
  DriveHealth, HostStatus, is_alphanumeric, is_device_char, is_device_name, is_model,
  is_package_char, is_package_name, is_temperature,
}
use voidstation_app.Host.Metrics.{HostInput, collect_host_metrics}
use voidstation_app.Host.AllSound.{AreSound, collect_host_metrics-AreSound}
use voidstation_app.Host.Intervals.{
  AddUp, AllAdvance, last_of, measure_all, measure_all-AddUp, readings,
}
use voidstation_app.Host.Rebuilt.{parse_host_status-status_members}
use voidstation_app.Host.SoundDrives.{IsDrive, IsStatus}
use voidstation_app.Host.RebuiltDrives.{status_members}

abbrev sample_of : List ℕ → Option HostSample
sample_of t = some (record { text = t; observed_at = codes "2026-09-13T08:00:00.000Z" })

abbrev first_stat : List ℕ
first_stat = codes "cpu  10 0 10 80 0 0 0 0\ncpu0 10 0 10 80 0 0 0 0\n"

abbrev second_stat : List ℕ
second_stat = codes "cpu  30 0 10 100 0 0 0 0 5 5\r\ncpu0 30 0 10 100 0 0 0 0 5 5"

first_stat-counters : parse_cpu first_stat ≡ some (record { total = 100; idle = 80 })
unfolding parse_cpu lines_from words_from after_prefix sum digits_value is_digit is_space trim
    trim_start
first_stat-counters = refl

second_stat-counters : parse_cpu second_stat ≡ some (record { total = 140; idle = 100 })
unfolding parse_cpu lines_from words_from after_prefix sum digits_value is_digit is_space trim
    trim_start
second_stat-counters = refl

abbrev memory_text : List ℕ
memory_text = codes "MemTotal:       2048 kB\nMemFree: 1 kB\nMemAvailable:    512 kB\n"

memory_text-ram :
    parse_ram memory_text
    ≡ some (record { total = 2097152; available_ram = 524288; used = 1572864 })
unfolding parse_ram find_line after_prefix span digits_value is_digit is_space
memory_text-ram = refl

stall_text-stall :
    parse_stall (codes "some avg10=0.12 avg60=1.50 avg300=2.00 total=12345\nfull avg10=0.00")
    ≡ some (record {
      avg10 = record { digits = 12; scale = 2 };
      avg60 = record { digits = 150; scale = 2 };
    })
unfolding parse_stall find_line after_prefix span parse_decimal digits_value is_digit is_space
stall_text-stall = refl

abbrev one_date : Dates
one_date = record { parse = λ t. some 1000; iso_string = λ n. codes "2026-09-13T08:00:00.000Z" }

abbrev quiet : HostInput
quiet = record {
  cpu = sample_of second_stat;
  uptime = sample_of (codes "12.5 3.0\n");
  memory = sample_of memory_text;
  load = none;
  cpu_pressure = none;
  memory_pressure = none;
  io_pressure = none;
  host_status = sample_of (codes "{}");
  root_filesystem = none;
  data_filesystem = none;
}

abbrev first_counters : CpuCounters
first_counters = record { total = 100; idle = 80 }

-- A reading, a failure and two more readings
abbrev some_readings : List (Option HostSample)
some_readings =
    none ∷ sample_of second_stat ∷ sample_of (codes "cpu x") ∷ sample_of second_stat ∷ []

some_readings-AllAdvance : AllAdvance first_counters (readings some_readings)
unfolding parse_cpu lines_from words_from after_prefix sum digits_value is_digit is_space trim
    trim_start
some_readings-AllAdvance =
    ((omega arith, omega arith, omega arith), ((omega arith, omega arith, omega arith), tt))

measure_all-AddUp_example :
    AddUp first_counters
      (last_of first_counters (readings some_readings))
      (measure_all (some first_counters) some_readings)
measure_all-AddUp_example = measure_all-AddUp first_counters some_readings some_readings-AllAdvance

abbrev drive : DriveHealth
drive = record {
  device = codes "nvme0n1";
  model = some (codes "Disk 1");
  passed = some true;
  standby = false;
  temperature_celsius = some (finite false 415 1);
  power_on_hours = some 1200;
  reallocated_sectors = none;
  pending_sectors = none;
  media_errors = some 0;
  percentage_used = some 130;
}

abbrev host_status : HostStatus
host_status = record {
  reboot_required = true;
  reboot_packages = codes "linux-base" ∷ codes "libc6" ∷ [];
  updates = some (record { total = 12; security = 3 });
  drives = some (drive ∷ []);
}

drive-IsDrive : IsDrive drive
unfolding is_device_name is_device_char is_alphanumeric is_model is_temperature
drive-IsDrive = record {
  device_name = refl;
  model_name = refl;
  celsius = refl;
  hours = omega arith;
  reallocated = tt;
  pending = tt;
  errors = omega arith;
  used = omega arith;
}

host_status-IsStatus : IsStatus host_status
unfolding is_package_name is_package_char is_alphanumeric all_different ◌=b◌
host_status-IsStatus = record {
  packages = (omega arith, (refl, (refl, tt)), refl);
  few_updates = (omega arith, omega arith);
  few_drives = (omega arith, (drive-IsDrive, tt));
}

abbrev checked_text : List ℕ
checked_text = codes "2026-09-13T08:00:00.123456+02:00"

checked_text-is_iso_timestamp : is_iso_timestamp checked_text ≡ true
unfolding is_iso_timestamp is_digit after_prefix span
checked_text-is_iso_timestamp = refl

abbrev status_json : List ℕ → Option Value
status_json t = some (object (status_members host_status checked_text))

parse_host_status-status_members_example :
    parse_host_status one_date status_json (codes "{}")
    ≡ some (record { status = host_status; checked_at = 1000 })
parse_host_status-status_members_example =
    parse_host_status-status_members one_date status_json (codes "{}") host_status checked_text 1000
      host_status-IsStatus checked_text-is_iso_timestamp refl (omega arith) refl

collect_host_metrics-AreSound_example :
    AreSound one_date status_json quiet
      (collect_host_metrics one_date status_json (some first_counters) quiet).0
collect_host_metrics-AreSound_example =
    collect_host_metrics-AreSound one_date status_json (some first_counters) quiet
