-- ===== src/Host/Counters.antt =====
-- The CPU counters, the load and the pressure of src/lib/host-metrics.ts.
use voidstation_app.Prelude.{
  Bool, List, Option, [], codes, drop, false, filter, find, get_elem?, if◌then◌else◌, is_space, leb,
  length, ltb, none, not, some, take, true, ℕ, ◌&&◌, ◌+◌, ◌-◌, ◌∷◌, is_digit,
}
use voidstation_app.Values.{max_safe_integer}
use voidstation_app.Host.Text.{
  Decimal, after_prefix, find_line, is_at_most, is_line_end, lines_of, parse_decimal, safe_number,
  some_of, words_of,
}
use voidstation_app.Host.Results.{
  HostSample, Measurement, check, measured, unavailable, ◌>>=◌, ◌>>◌,
}

pub record CpuCounters : Type 0 where
  pub total : ℕ
  pub idle : ℕ

-- /^cpu(?:\s|$)/
abbrev pub starts_blank : Option (List ℕ) → Bool
starts_blank none = false
starts_blank (some []) = true
starts_blank (some (c ∷ t)) = is_space c

abbrev pub is_cpu_line : List ℕ → Bool
is_cpu_line line = starts_blank (after_prefix (codes "cpu") line)

abbrev pub cpu_fields : Option (List ℕ) → List (List ℕ)
cpu_fields none = []
cpu_fields (some line) = drop 1 (words_of line)

abbrev pub numbers_in : List (List ℕ) → Option (List ℕ)
numbers_in [] = some []
numbers_in (field ∷ fields) = do n ← safe_number field; ns ← numbers_in fields; some (n ∷ ns)

unfoldable pub sum : List ℕ → ℕ
sum [] = 0
sum (n ∷ ns) = n + sum ns

abbrev pub nth_or_zero : List ℕ → ℕ → ℕ
nth_or_zero ns i = elim (get_elem? ns i) [ none ↦ 0 | some n ↦ n ]

abbrev pub counters_of : List ℕ → CpuCounters
counters_of ns = record { total = sum (take 8 ns); idle = nth_or_zero ns 3 + nth_or_zero ns 4 }

unfoldable pub parse_cpu : List ℕ → Option CpuCounters
parse_cpu content = do
  let fields = cpu_fields (find is_cpu_line (lines_of content))
  check (leb 4 (length fields))
  ns ← numbers_in fields
  let c = counters_of ns
  check (leb c.total max_safe_integer && leb c.idle max_safe_integer && leb c.idle c.total)
  some c

-- busy / total of an interval: the percentage, without the error of doubles
pub record Share : Type 0 where
  pub busy : ℕ
  pub total : ℕ

-- The differences are signed: none where a test on them fails.
abbrev pub share_between : CpuCounters → CpuCounters → Option Share
share_between previous current =
    let total_delta = current.total - previous.total in
    let idle_delta = current.idle - previous.idle in
    if ltb previous.total current.total
      && leb previous.idle current.idle
      && leb idle_delta total_delta
    then some (record { busy = total_delta - idle_delta; total = total_delta })
    else none

abbrev pub since : Option CpuCounters → CpuCounters → Option Share
since none current = none
since (some previous) current = share_between previous current

abbrev pub measure_counters :
    Option CpuCounters → List ℕ → Option CpuCounters → Measurement Share × Option CpuCounters
measure_counters previous observed_at none = (unavailable, previous)
measure_counters previous observed_at (some current) =
    (measured (since previous current) observed_at, some current)

-- `measureCpu`: the counters of the last reading that could be parsed are kept for the next.
unfoldable pub measure_cpu :
    Option CpuCounters → Option HostSample → Measurement Share × Option CpuCounters
measure_cpu previous none = (unavailable, previous)
measure_cpu previous (some sample) =
    measure_counters previous sample.observed_at (parse_cpu sample.text)

abbrev pub starts_space : List ℕ → Bool
starts_space [] = false
starts_space (c ∷ t) = is_space c

abbrev pub digits_then_space : Option (List ℕ) → Bool
digits_then_space none = false
digits_then_space (some t) = elim (some_of is_digit t) [
  | none ↦ false
  | some (run, rest) ↦ starts_space rest
]

-- /^cpu\d+\s/
abbrev pub is_core_line : List ℕ → Bool
is_core_line line = digits_then_space (after_prefix (codes "cpu") line)

abbrev pub count_cores : List ℕ → Option ℕ
count_cores content =
    let cores = length (filter is_core_line (lines_of content)) in check (leb 1 cores) >> some cores

pub record LoadAverage : Type 0 where
  pub one : Decimal
  pub five : Decimal
  pub fifteen : Decimal
  pub cores : ℕ

abbrev pub load_of : ℕ → List (List ℕ) → Option LoadAverage
load_of cores (one ∷ five ∷ fifteen ∷ fields) = do
  a ← parse_decimal one
  b ← parse_decimal five
  c ← parse_decimal fifteen
  some (record { one = a; five = b; fifteen = c; cores = cores })
load_of cores _ = none

abbrev pub parse_load : List ℕ → List ℕ → Option LoadAverage
parse_load stat load = count_cores stat >>= λ cores. load_of cores (words_of load)

unfoldable pub measure_load : Option HostSample → Option HostSample → Measurement LoadAverage
measure_load (some load) (some stat) = measured (parse_load stat.text load.text) load.observed_at
measure_load _ _ = unavailable

pub record PressureStall : Type 0 where
  pub avg10 : Decimal
  pub avg60 : Decimal

-- \S
abbrev pub is_black : ℕ → Bool
is_black c = not (is_space c)

-- total=\d+$
abbrev pub is_total_end : List ℕ → Option (Unit {0})
is_total_end t = do
  total ← after_prefix (codes " total=") t
  run ← some_of is_digit total
  check (is_line_end run.1)

-- The pattern of `parseStall`, at a line start: the texts of the two averages.
abbrev pub stall_texts : List ℕ → Option (List ℕ × List ℕ)
stall_texts t = do
  first ← after_prefix (codes "some avg10=") t
  avg10 ← some_of is_black first
  second ← after_prefix (codes " avg60=") avg10.1
  avg60 ← some_of is_black second
  third ← after_prefix (codes " avg300=") avg60.1
  avg300 ← some_of is_black third
  is_total_end avg300.1
  some (avg10.0, avg60.0)

unfoldable pub parse_stall : List ℕ → Option PressureStall
parse_stall content = do
  found ← find_line stall_texts true content
  avg10 ← parse_decimal found.0
  avg60 ← parse_decimal found.1
  check (is_at_most avg10 100 && is_at_most avg60 100)
  some (record { avg10 = avg10; avg60 = avg60 })

pub record Pressure : Type 0 where
  pub cpu : PressureStall
  pub memory : PressureStall
  pub io : PressureStall

-- JavaScript's Date.parse (in milliseconds after the earliest date, none for NaN) and toISOString
pub record Dates : Type 0 where
  pub parse : List ℕ → Option ℕ
  pub iso_string : ℕ → List ℕ

abbrev pub is_after : Option ℕ → Option ℕ → Bool
is_after (some candidate) (some latest) = ltb latest candidate
is_after _ _ = false

abbrev pub later : Dates → List ℕ → List ℕ → List ℕ
later dates latest candidate =
    if is_after (dates.parse candidate) (dates.parse latest) then candidate else latest

abbrev pub parse_pressure : List ℕ → List ℕ → List ℕ → Option Pressure
parse_pressure cpu memory io = do
  c ← parse_stall cpu
  m ← parse_stall memory
  i ← parse_stall io
  some (record { cpu = c; memory = m; io = i })

unfoldable pub measure_pressure :
    Dates → Option HostSample → Option HostSample → Option HostSample → Measurement Pressure
measure_pressure dates (some cpu) (some memory) (some io) =
    measured (parse_pressure cpu.text memory.text io.text)
      (later dates (later dates cpu.observed_at memory.observed_at) io.observed_at)
measure_pressure dates _ _ _ = unavailable
