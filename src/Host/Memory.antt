-- ===== src/Host/Memory.antt =====
-- RAM, swap, file systems and uptime of src/lib/host-metrics.ts.
use voidstation_app.Prelude.{
  Bool, List, Option, [], codes, false, if◌then◌else◌, is_space, leb, length, ltb, none, some, true,
  ℕ, ◌&&◌, ◌*◌, ◌-◌, ◌=b◌, ◌∷◌, is_digit,
}
use voidstation_app.Values.{Number, max_safe_integer, natural?}
use voidstation_app.Host.Text.{
  Decimal, after_prefix, digits_value, find_line, is_line_end, parse_decimal, some_of, words_of,
}
use voidstation_app.Host.Results.{Measurement, available, check, measured, unavailable, ◌>>=◌, ◌>>◌}

pub record RamUsage : Type 0 where
  pub total : ℕ
  pub available_ram : ℕ
  pub used : ℕ

pub record SwapUsage : Type 0 where
  pub total : ℕ
  pub used : ℕ

-- /^Name:\s+(\d+) kB$/, at a line start
abbrev pub kilobytes_at : List ℕ → List ℕ → Option ℕ
kilobytes_at name t = do
  rest ← after_prefix name t
  spaces ← some_of is_space rest
  run ← some_of is_digit spaces.1
  unit ← after_prefix (codes " kB") run.1
  check (is_line_end unit)
  some (digits_value 0 run.0)

-- The number of bytes, where it is a safe integer
abbrev pub bytes_of : List ℕ → List ℕ → Option ℕ
bytes_of name content = do
  kilobytes ← find_line (kilobytes_at name) true content
  let bytes = kilobytes * 1024
  check (leb bytes max_safe_integer)
  some bytes

unfoldable pub parse_ram : List ℕ → Option RamUsage
parse_ram content = do
  total ← bytes_of (codes "MemTotal:") content
  free ← bytes_of (codes "MemAvailable:") content
  check (ltb 0 total && leb free total)
  some (record { total = total; available_ram = free; used = total - free })

unfoldable pub parse_swap : List ℕ → Option SwapUsage
parse_swap content = do
  total ← bytes_of (codes "SwapTotal:") content
  free ← bytes_of (codes "SwapFree:") content
  check (leb free total)
  some (record { total = total; used = total - free })

abbrev pub parse_uptime : List ℕ → Option Decimal
parse_uptime content = elim (words_of content) [
  | [] ↦ none
  | seconds ∷ words ↦ parse_decimal seconds
]

-- The numbers come from statfs.
pub record FilesystemSample : Type 0 where
  pub filesystem_id : List ℕ
  pub total_bytes : Number
  pub free_bytes : Number
  pub available_bytes : Number
  pub observed_at : List ℕ

pub record DiskSpace : Type 0 where
  pub total : ℕ
  pub available_space : ℕ
  pub used : ℕ

-- `isByteCount` is `natural?`.
abbrev pub disk_space : FilesystemSample → Option DiskSpace
disk_space sample = do
  check (leb 1 (length sample.filesystem_id))
  total ← natural? sample.total_bytes
  free ← natural? sample.free_bytes
  room ← natural? sample.available_bytes
  check (ltb 0 total && leb free total && leb room free)
  some (record { total = total; available_space = room; used = total - free })

abbrev pub measured_disk : FilesystemSample → Measurement DiskSpace
measured_disk sample = measured (disk_space sample) sample.observed_at

unfoldable pub measure_filesystem : Option FilesystemSample → Measurement DiskSpace
measure_filesystem none = unavailable
measure_filesystem (some sample) = measured_disk sample

-- `filesystemId` of a measurement: it is there if the measurement is available.
abbrev pub id_if_available : Measurement DiskSpace → List ℕ → Option (List ℕ)
id_if_available (available space at) id = some id
id_if_available unavailable id = none

abbrev pub measured_id : Option FilesystemSample → Option (List ℕ)
measured_id none = none
measured_id (some sample) = id_if_available (measure_filesystem (some sample)) sample.filesystem_id

abbrev pub is_same_id : Option (List ℕ) → Option (List ℕ) → Bool
is_same_id (some a) (some b) = a =b b
is_same_id _ _ = false

-- A data file system that is the root one is not shown.
unfoldable pub separated_data :
    Option FilesystemSample → Option FilesystemSample → Measurement DiskSpace
separated_data root data_sample =
    if is_same_id (measured_id root) (measured_id data_sample)
    then unavailable
    else measure_filesystem data_sample
