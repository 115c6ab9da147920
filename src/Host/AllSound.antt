-- ===== src/Host/AllSound.antt =====
-- Every measurement of `collectHostMetrics` in src/lib/host-metrics.ts.
use voidstation_app.Prelude.{
  List, Option, leb, length, none, some, ℕ, ◌&&◌, ◌+◌, refl, ◌≡◌, and_iff, ap, leb→le, ◌∙◌, ◌≤◌,
}
use voidstation_app.Values.{Value, as_object, max_safe_integer, Members, object}
use voidstation_app.Host.Results.{
  Ensures, Ensures-of, HostSample, Measures, bind-Ensures, check-Ensures, derive-Measures,
  Measurement, available, unavailable,
}
use voidstation_app.Host.Counters.{CpuCounters, Dates}
use voidstation_app.Host.Memory.{parse_ram, parse_swap, parse_uptime}
use voidstation_app.Host.Status.{
  CheckedStatus, as_measured, checked_status, max_age_ms, max_future_ms, measure_host_status,
  parse_host_status, status_of,
}
use voidstation_app.Host.Metrics.{HostInput, HostMetrics, collect_host_metrics}
use voidstation_app.Host.Sound.{
  IsAtMost, IsDisk, IsLoad, IsPressure, IsRam, IsShare, IsSwap, measure_cpu-IsShare,
  measure_filesystem-IsDisk, measure_load-IsLoad, measure_pressure-IsPressure, parse_ram-IsRam,
  parse_swap-IsSwap, parse_uptime-IsAtMost, separated_data-IsDisk,
}
use voidstation_app.Host.SoundStatus.{status_of-IsStatus}
use voidstation_app.Host.SoundDrives.{IsStatus}
use voidstation_app.Host.Checked.{
  IsCheckedStatus, IsCurrent, IsDated, IsStatus-IsCheckedStatus, as_object-object,
  status_of-IsDated,
}
use voidstation_app.Host.Drives.{HostStatus}

-- What is available of a host status: its time and its values
abbrev pub IsAvailableFrom :
    Dates → (List ℕ → Option Value) → Option HostSample → Measurement HostStatus → Type 0
IsAvailableFrom dates parse_json none (available status at) = ⊥
IsAvailableFrom dates parse_json (some sample) (available status at) =
    IsCheckedStatus status
    × ((checked_at : ℕ) × (at ≡ dates.iso_string checked_at)
        × IsCurrent dates parse_json sample checked_at)
IsAvailableFrom dates parse_json source unavailable = Unit

-- What passes `parseHostStatus` and the two checks of its age
record IsFound (dates : Dates) (parse_json : List ℕ → Option Value) (sample : HostSample)
    (found : CheckedStatus) : Type 0 where
  status : IsCheckedStatus found.status
  current : IsCurrent dates parse_json sample found.checked_at

-- What passes `parseHostStatus`
record IsParsed (dates : Dates) (parse_json : List ℕ → Option Value) (content : List ℕ)
    (found : CheckedStatus) : Type 0 where
  bounded : length content ≤ 65536
  file : Members
  parsed : parse_json content ≡ some (object file)
  dated : IsDated dates file found.checked_at
  status : IsCheckedStatus found.status

parse_host_status-IsParsed :
    (dates : Dates) (parse_json : List ℕ → Option Value) (content : List ℕ)
    → Ensures (IsParsed dates parse_json content) (parse_host_status dates parse_json content)
unfolding parse_host_status
parse_host_status-IsParsed dates parse_json content =
    check-Ensures Found (leb (length content) 65536) _ λ h.
      bind-Ensures Found (parse_json content) _ λ v e. bind-Ensures Found (as_object v) _ λ file f.
        found_in (status_of dates file) (leb→le _ _ h) file
          (e ∙ ap some (as_object-object v file f)) (status_of-IsDated dates file)
          (status_of-IsStatus dates file)
  where
    Found : CheckedStatus → Type 0
    Found = IsParsed dates parse_json content

    found_in :
        (o : Option CheckedStatus)
        → length content ≤ 65536
        → (file : Members) → parse_json content ≡ some (object file)
        → Ensures (λ found. IsDated dates file found.checked_at) o
        → Ensures (λ found. IsStatus found.status) o
        → Ensures Found o
    found_in none b file e d s = tt
    found_in (some found) b file e d s = record {
      bounded = b;
      file = file;
      parsed = e;
      dated = d;
      status = IsStatus-IsCheckedStatus found.status s;
    }

checked_status-IsFound :
    (dates : Dates) (parse_json : List ℕ → Option Value) (sample : HostSample)
    → Ensures (IsFound dates parse_json sample) (checked_status dates parse_json sample)
checked_status-IsFound dates parse_json sample =
    bind-Ensures Found (parse_host_status dates parse_json sample.text) _ λ found e.
      bind-Ensures Found (dates.parse sample.observed_at) _ λ read_at f.
        check-Ensures Found
          (leb read_at (found.checked_at + max_age_ms)
            && leb found.checked_at (read_at + max_future_ms))
          (some found)
          λ h.
            let parsed =
              Ensures-of _ _ found (parse_host_status-IsParsed dates parse_json sample.text) e in
            let (old, ahead) = (and_iff _ _).0 h in
            record {
              status = parsed.status;
              current = record {
                bounded = parsed.bounded;
                file = parsed.file;
                parsed = parsed.parsed;
                dated = parsed.dated;
                read_at = read_at;
                read = f;
                not_old = leb→le _ _ old;
                not_ahead = leb→le _ _ ahead;
              };
            }
  where
    Found : CheckedStatus → Type 0
    Found = IsFound dates parse_json sample

as_measured-IsAvailableFrom :
    (dates : Dates) (parse_json : List ℕ → Option Value) (sample : HostSample)
    (o : Option CheckedStatus)
    → Ensures (IsFound dates parse_json sample) o
    → IsAvailableFrom dates parse_json (some sample) (as_measured dates o)
as_measured-IsAvailableFrom dates parse_json sample none h = tt
as_measured-IsAvailableFrom dates parse_json sample (some found) h =
    (h.status, (found.checked_at, refl, h.current))

measure_host_status-IsAvailableFrom :
    (dates : Dates) (parse_json : List ℕ → Option Value) (source : Option HostSample)
    → IsAvailableFrom dates parse_json source (measure_host_status dates parse_json source)
unfolding measure_host_status
measure_host_status-IsAvailableFrom dates parse_json none = tt
measure_host_status-IsAvailableFrom dates parse_json (some sample) =
    as_measured-IsAvailableFrom dates parse_json sample (checked_status dates parse_json sample)
      (checked_status-IsFound dates parse_json sample)

pub record AreSound (dates : Dates) (parse_json : List ℕ → Option Value) (input : HostInput)
    (metrics : HostMetrics) : Type 0 where
  pub cpu : Measures IsShare metrics.cpu
  pub uptime : Measures (IsAtMost max_safe_integer) metrics.uptime
  pub ram : Measures IsRam metrics.ram
  pub swap : Measures IsSwap metrics.swap
  pub load : Measures IsLoad metrics.load
  pub pressure : Measures IsPressure metrics.pressure
  pub root_filesystem : Measures IsDisk metrics.root_filesystem
  pub data_filesystem : Measures IsDisk metrics.data_filesystem
  pub host_status : IsAvailableFrom dates parse_json input.host_status metrics.host_status

-- Whatever the sources say, each measurement is unavailable or sound: a CPU share of at most 100 % of
-- an interval that is not empty, memory and disks whose parts add up to no more than the whole, load
-- and pressure in their ranges with at least one core, and a host status of version 1 with names,
-- counts and temperatures in their ranges, from a file of at most 65,536 characters that was checked
-- at most three hours before it was read and at most five minutes after it.
pub collect_host_metrics-AreSound :
    (dates : Dates) (parse_json : List ℕ → Option Value) (previous : Option CpuCounters)
    (input : HostInput)
    → AreSound dates parse_json input (collect_host_metrics dates parse_json previous input).0
unfolding collect_host_metrics
collect_host_metrics-AreSound dates parse_json previous input = record {
  cpu = measure_cpu-IsShare previous input.cpu;
  uptime = derive-Measures _ input.uptime parse_uptime parse_uptime-IsAtMost;
  ram = derive-Measures _ input.memory parse_ram parse_ram-IsRam;
  swap = derive-Measures _ input.memory parse_swap parse_swap-IsSwap;
  load = measure_load-IsLoad input.load input.cpu;
  pressure =
      measure_pressure-IsPressure dates input.cpu_pressure input.memory_pressure input.io_pressure;
  root_filesystem = measure_filesystem-IsDisk input.root_filesystem;
  data_filesystem = separated_data-IsDisk input.root_filesystem input.data_filesystem;
  host_status = measure_host_status-IsAvailableFrom dates parse_json input.host_status;
}
