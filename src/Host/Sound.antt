-- ===== src/Host/Sound.antt =====
-- The numbers that src/lib/host-metrics.ts makes of /proc and of statfs.
use voidstation_app.Prelude.{
  Bool, Bool-cases, List, Option, [], arith, codes, false, filter, if◌then◌else◌, inl, inr, leb,
  leb→le, length, ltb, none, some, true, ℕ, ◌&&◌, ◌*◌, ◌+◌, ◌<◌, ◌^◌, ◌∷◌, ◌≡◌, ◌≤◌, is_digit,
}
use voidstation_app.Values.{max_safe_integer, natural?}
use voidstation_app.Host.Text.{
  Decimal, bounded_decimal, decimal_of, find_line, fraction_of, is_at_most, lines_of, parse_decimal,
  span, words_of,
}
use voidstation_app.Host.Results.{
  Ensures, Ensures-of, HostSample, Measurement, Measures, bind-Ensures, check-Ensures,
  measured-Measures, unavailable,
}
use voidstation_app.Host.Counters.{
  CpuCounters, Dates, LoadAverage, Pressure, PressureStall, Share, count_cores, is_core_line,
  load_of, measure_counters, measure_cpu, measure_load, measure_pressure, parse_cpu, parse_load,
  parse_pressure, parse_stall, share_between, since, stall_texts,
}
use voidstation_app.Host.Memory.{
  DiskSpace, FilesystemSample, RamUsage, SwapUsage, bytes_of, disk_space, is_same_id, kilobytes_at,
  measure_filesystem, measured_id, parse_ram, parse_swap, parse_uptime, separated_data,
}

abbrev pub IsShare : Share → Type 0
IsShare share = (share.busy ≤ share.total) × (0 < share.total)

abbrev pub IsRam : RamUsage → Type 0
IsRam ram =
    (ram.used + ram.available_ram ≡ ram.total) × (0 < ram.total) × (ram.total ≤ max_safe_integer)

abbrev pub IsSwap : SwapUsage → Type 0
IsSwap swap = (swap.used ≤ swap.total) × (swap.total ≤ max_safe_integer)

abbrev pub IsDisk : DiskSpace → Type 0
IsDisk disk = (disk.used + disk.available_space ≤ disk.total) × (0 < disk.total)

abbrev pub IsAtMost : ℕ → Decimal → Type 0
IsAtMost most d = d.digits ≤ most * 10 ^ d.scale

abbrev pub IsLoad : LoadAverage → Type 0
IsLoad load =
    (1 ≤ load.cores)
    × IsAtMost max_safe_integer load.one
    × IsAtMost max_safe_integer load.five
    × IsAtMost max_safe_integer load.fifteen

abbrev pub IsStall : PressureStall → Type 0
IsStall stall = IsAtMost 100 stall.avg10 × IsAtMost 100 stall.avg60

abbrev pub IsPressure : Pressure → Type 0
IsPressure pressure = IsStall pressure.cpu × IsStall pressure.memory × IsStall pressure.io

share_between-IsShare :
    (previous current : CpuCounters) → Ensures IsShare (share_between previous current)
share_between-IsShare previous current = ground arith

since-IsShare :
    (previous : Option CpuCounters) (current : CpuCounters)
    → Ensures IsShare (since previous current)
since-IsShare none current = tt
since-IsShare (some previous) current = share_between-IsShare previous current

measure_counters-IsShare :
    (previous : Option CpuCounters) (at : List ℕ) (current : Option CpuCounters)
    → Measures IsShare (measure_counters previous at current).0
measure_counters-IsShare previous at none = tt
measure_counters-IsShare previous at (some current) =
    measured-Measures IsShare (since previous current) at (since-IsShare previous current)

pub measure_cpu-IsShare :
    (previous : Option CpuCounters) (sample : Option HostSample)
    → Measures IsShare (measure_cpu previous sample).0
unfolding measure_cpu
measure_cpu-IsShare previous none = tt
measure_cpu-IsShare previous (some sample) =
    measure_counters-IsShare previous sample.observed_at (parse_cpu sample.text)

bytes_of-safe : (name t : List ℕ) → Ensures (λ bytes. bytes ≤ max_safe_integer) (bytes_of name t)
bytes_of-safe name t =
    bind-Ensures _ (find_line (kilobytes_at name) true t) _
      λ kilobytes e. check-Ensures _ (leb (kilobytes * 1024) max_safe_integer) _ λ h. leb→le _ _ h

pub parse_ram-IsRam : (t : List ℕ) → Ensures IsRam (parse_ram t)
unfolding parse_ram
parse_ram-IsRam t = bind-Ensures IsRam (bytes_of (codes "MemTotal:") t) _ λ total e.
    bind-Ensures IsRam (bytes_of (codes "MemAvailable:") t) _ λ free f.
      let safe = Ensures-of _ (bytes_of (codes "MemTotal:") t) total (bytes_of-safe _ t) e in
      check-Ensures IsRam (ltb 0 total && leb free total) _ λ h. ground arith

pub parse_swap-IsSwap : (t : List ℕ) → Ensures IsSwap (parse_swap t)
unfolding parse_swap
parse_swap-IsSwap t = bind-Ensures IsSwap (bytes_of (codes "SwapTotal:") t) _ λ total e.
    bind-Ensures IsSwap (bytes_of (codes "SwapFree:") t) _ λ free f.
      let safe = Ensures-of _ (bytes_of (codes "SwapTotal:") t) total (bytes_of-safe _ t) e in
      check-Ensures IsSwap (leb free total) _ λ h. ground arith

disk_space-IsDisk : (sample : FilesystemSample) → Ensures IsDisk (disk_space sample)
disk_space-IsDisk sample = check-Ensures IsDisk (leb 1 (length sample.filesystem_id)) _ λ i.
    bind-Ensures IsDisk (natural? sample.total_bytes) _ λ total e.
      bind-Ensures IsDisk (natural? sample.free_bytes) _ λ free f.
        bind-Ensures IsDisk (natural? sample.available_bytes) _ λ room g.
          check-Ensures IsDisk (ltb 0 total && leb free total && leb room free) _ λ h. ground arith

pub measure_filesystem-IsDisk :
    (sample : Option FilesystemSample) → Measures IsDisk (measure_filesystem sample)
unfolding measure_filesystem
measure_filesystem-IsDisk none = tt
measure_filesystem-IsDisk (some sample) =
    measured-Measures IsDisk (disk_space sample) sample.observed_at (disk_space-IsDisk sample)

if-Measures {ℓ κ} :
    {A : Type ℓ} (P : A → Type κ) (b : Bool) (m : Measurement A)
    → Measures P m
    → Measures P (if b then unavailable else m)
if-Measures P true m h = tt
if-Measures P false m h = h

pub separated_data-IsDisk :
    (root data_sample : Option FilesystemSample) → Measures IsDisk (separated_data root data_sample)
unfolding separated_data
separated_data-IsDisk root data_sample =
    if-Measures IsDisk (is_same_id (measured_id root) (measured_id data_sample)) _
      (measure_filesystem-IsDisk data_sample)

bounded_decimal-IsAtMost :
    (o : Option Decimal) → Ensures (IsAtMost max_safe_integer) (bounded_decimal o)
bounded_decimal-IsAtMost none = tt
bounded_decimal-IsAtMost (some d) = elim (Bool-cases (is_at_most d max_safe_integer)) [
  | inl e ↦ rw e (leb→le _ _ e)
  | inr e ↦ rw e tt
]

if-Ensures {ℓ κ} :
    {A : Type ℓ} (P : A → Type κ) (b : Bool) (m : Option A)
    → Ensures P m
    → Ensures P (if b then m else none)
if-Ensures P true m h = h
if-Ensures P false m h = tt

pub parse_decimal-IsAtMost : (t : List ℕ) → Ensures (IsAtMost max_safe_integer) (parse_decimal t)
unfolding parse_decimal
parse_decimal-IsAtMost t =
    if-Ensures _ (leb 1 (length (span is_digit t).0)) _
      (bounded_decimal-IsAtMost (decimal_of (span is_digit t).0 (fraction_of (span is_digit t).1)))

pub parse_uptime-IsAtMost : (t : List ℕ) → Ensures (IsAtMost max_safe_integer) (parse_uptime t)
parse_uptime-IsAtMost t = of_words (words_of t)
  where
    of_words :
        (ws : List (List ℕ))
        → Ensures
            (IsAtMost max_safe_integer)
            (elim ws [ [] ↦ none | seconds ∷ words ↦ parse_decimal seconds ])
    of_words [] = tt
    of_words (w ∷ ws) = parse_decimal-IsAtMost w

load_of-IsLoad : (cores : ℕ) (ws : List (List ℕ)) → 1 ≤ cores → Ensures IsLoad (load_of cores ws)
load_of-IsLoad cores [] h = tt
load_of-IsLoad cores (a ∷ []) h = tt
load_of-IsLoad cores (a ∷ b ∷ []) h = tt
load_of-IsLoad cores (a ∷ b ∷ c ∷ ws) h = bind-Ensures IsLoad (parse_decimal a) _ λ x e.
    bind-Ensures IsLoad (parse_decimal b) _ λ y f. bind-Ensures IsLoad (parse_decimal c) _ λ z g. (
      h,
      Ensures-of _ (parse_decimal a) x (parse_decimal-IsAtMost a) e,
      Ensures-of _ (parse_decimal b) y (parse_decimal-IsAtMost b) f,
      Ensures-of _ (parse_decimal c) z (parse_decimal-IsAtMost c) g,
    )

parse_load-IsLoad : (stat load : List ℕ) → Ensures IsLoad (parse_load stat load)
parse_load-IsLoad stat load = bind-Ensures IsLoad (count_cores stat) _ λ cores e.
    load_of-IsLoad cores (words_of load) (
      Ensures-of (λ n. 1 ≤ n) (count_cores stat) cores
        (check-Ensures _ (leb 1 (length (filter is_core_line (lines_of stat)))) _ λ h. leb→le _ _ h)
        e)

pub measure_load-IsLoad : (load stat : Option HostSample) → Measures IsLoad (measure_load load stat)
unfolding measure_load
measure_load-IsLoad none stat = tt
measure_load-IsLoad (some load) none = tt
measure_load-IsLoad (some load) (some stat) =
    measured-Measures IsLoad (parse_load stat.text load.text) load.observed_at
      (parse_load-IsLoad stat.text load.text)

parse_stall-IsStall : (t : List ℕ) → Ensures IsStall (parse_stall t)
unfolding parse_stall
parse_stall-IsStall t = bind-Ensures IsStall (find_line stall_texts true t) _ λ found e.
    bind-Ensures IsStall (parse_decimal found.0) _ λ avg10 f.
      bind-Ensures IsStall (parse_decimal found.1) _ λ avg60 g.
        check-Ensures IsStall (is_at_most avg10 100 && is_at_most avg60 100) _ λ h. ground arith

parse_pressure-IsPressure :
    (cpu memory io : List ℕ) → Ensures IsPressure (parse_pressure cpu memory io)
parse_pressure-IsPressure cpu memory io = bind-Ensures IsPressure (parse_stall cpu) _ λ c e.
    bind-Ensures IsPressure (parse_stall memory) _ λ m f.
      bind-Ensures IsPressure (parse_stall io) _ λ i g. (
        Ensures-of _ (parse_stall cpu) c (parse_stall-IsStall cpu) e,
        Ensures-of _ (parse_stall memory) m (parse_stall-IsStall memory) f,
        Ensures-of _ (parse_stall io) i (parse_stall-IsStall io) g,
      )

pub measure_pressure-IsPressure :
    (dates : Dates) (cpu memory io : Option HostSample)
    → Measures IsPressure (measure_pressure dates cpu memory io)
unfolding measure_pressure
measure_pressure-IsPressure dates none memory io = tt
measure_pressure-IsPressure dates (some cpu) none io = tt
measure_pressure-IsPressure dates (some cpu) (some memory) none = tt
measure_pressure-IsPressure dates (some cpu) (some memory) (some io) =
    measured-Measures IsPressure (parse_pressure cpu.text memory.text io.text) _
      (parse_pressure-IsPressure cpu.text memory.text io.text)
