-- ===== src/Host/Intervals.antt =====
-- The CPU shares that consecutive collections of src/lib/host-metrics.ts measure.
use voidstation_app.Prelude.{
  List, Option, [], arith, none, refl, some, ℕ, ◌+◌, ◌∷◌, ◌≡◌, ◌≤◌, Option-cases, inl, inr, subst,
  sym,
}
use voidstation_app.Host.Results.{HostSample, Measurement, available, measured, unavailable}
use voidstation_app.Host.Counters.{
  CpuCounters, Share, measure_cpu, parse_cpu, share_between, measure_counters,
}

-- Busy and total time over a sequence of readings, and the counters that are kept after it
pub record Sums : Type 0 where
  pub busy_sum : ℕ
  pub total_sum : ℕ
  pub kept : Option CpuCounters

abbrev pub busy_of : Measurement Share → ℕ
busy_of (available share at) = share.busy
busy_of unavailable = 0

abbrev pub total_of : Measurement Share → ℕ
total_of (available share at) = share.total
total_of unavailable = 0

-- The collections one after the other, with what they measure added up
abbrev pub measure_all : Option CpuCounters → List (Option HostSample) → Sums
measure_all previous [] = record { busy_sum = 0; total_sum = 0; kept = previous }
measure_all previous (sample ∷ samples) =
    let (cpu, kept) = measure_cpu previous sample in
    let rest = measure_all kept samples in
    record rest {
      busy_sum = busy_of cpu + rest.busy_sum;
      total_sum = total_of cpu + rest.total_sum;
    }

abbrev parsed_cpu : Option HostSample → Option CpuCounters
parsed_cpu none = none
parsed_cpu (some sample) = parse_cpu sample.text

-- The counters that could be parsed
abbrev pub readings : List (Option HostSample) → List CpuCounters
readings [] = []
readings (sample ∷ samples) = elim (parsed_cpu sample) [
  | none ↦ readings samples
  | some current ↦ current ∷ readings samples
]

-- From one reading to the next no counter goes back, and idle time is part of the total time.
abbrev Advances : CpuCounters → CpuCounters → Type 0
Advances c d = (c.total ≤ d.total) × (c.idle ≤ d.idle) × (d.idle + c.total ≤ c.idle + d.total)

abbrev pub AllAdvance : CpuCounters → List CpuCounters → Type 0
AllAdvance c [] = Unit
AllAdvance c (d ∷ ds) = Advances c d × AllAdvance d ds

abbrev pub last_of : CpuCounters → List CpuCounters → CpuCounters
last_of c [] = c
last_of c (d ∷ ds) = last_of d ds

-- The sums are the differences between the last counters and the first ones.
pub record AddUp (first last : CpuCounters) (sums : Sums) : Type 0 where
  pub all_time : sums.total_sum + first.total ≡ last.total
  pub all_busy : sums.busy_sum + first.total + last.idle ≡ last.total + first.idle
  pub kept_last : sums.kept ≡ some last

share_adds :
    (c d : CpuCounters) (at : List ℕ)
    → Advances c d
    → (total_of (measured (share_between c d) at) + c.total ≡ d.total)
      × (busy_of (measured (share_between c d) at) + c.total + d.idle ≡ d.total + c.idle)
share_adds c d at h = ground arith

measure_one-AddUp :
    (c d last : CpuCounters) (at : List ℕ) (rest : Sums)
    → Advances c d
    → AddUp d last rest
    → AddUp c last (record rest {
      busy_sum = busy_of (measured (share_between c d) at) + rest.busy_sum;
      total_sum = total_of (measured (share_between c d) at) + rest.total_sum;
    })
measure_one-AddUp c d last at rest h v =
    let adds = share_adds c d at h in
    record {
      all_time = omega (arith, adds.0, v.all_time);
      all_busy = omega (arith, adds.1, v.all_busy);
      kept_last = v.kept_last;
    }

AddUp-none :
    (c last : CpuCounters) (rest : Sums)
    → AddUp c last rest
    → AddUp c last (record rest { busy_sum = 0 + rest.busy_sum; total_sum = 0 + rest.total_sum })
AddUp-none c last rest v = record {
  all_time = omega (arith, v.all_time);
  all_busy = omega (arith, v.all_busy);
  kept_last = v.kept_last;
}

-- The claim after one more sample, by what its text gives
Continues : CpuCounters → List ℕ → List (Option HostSample) → Option CpuCounters → Type 0
Continues first at samples o =
    let next : List CpuCounters = elim o [
      | none ↦ readings samples
      | some current ↦ current ∷ readings samples
    ] in
    let (cpu, kept) = measure_counters (some first) at o in
    let rest = measure_all kept samples in
    AllAdvance first next
    → AddUp first (last_of first next) (record rest {
      busy_sum = busy_of cpu + rest.busy_sum;
      total_sum = total_of cpu + rest.total_sum;
    })

-- Over any number of collections, unreadable ones among them, the shares that are measured cover the
-- time from the first reading to the last without a gap or an overlap, and the last reading is kept,
-- if the counters never go back.
pub measure_all-AddUp :
    (first : CpuCounters) (samples : List (Option HostSample))
    → AllAdvance first (readings samples)
    → AddUp first (last_of first (readings samples)) (measure_all (some first) samples)
unfolding measure_cpu Continues
measure_all-AddUp first [] h = record {
  all_time = omega arith;
  all_busy = omega arith;
  kept_last = refl;
}
measure_all-AddUp first (none ∷ samples) h =
    AddUp-none first _ (measure_all (some first) samples) (measure_all-AddUp first samples h)
measure_all-AddUp first (some sample ∷ samples) h = elim (Option-cases (parse_cpu sample.text)) [
  | inl e ↦
      subst (Continues first sample.observed_at samples) (sym e)
        (λ k.
          AddUp-none first _ (measure_all (some first) samples) (measure_all-AddUp first samples k))
        h
  | inr (current, e) ↦
      subst (Continues first sample.observed_at samples) (sym e)
        (λ k.
          measure_one-AddUp first current _ sample.observed_at (measure_all (some current) samples)
            k.0 (measure_all-AddUp current samples k.1))
        h
]
