-- ===== src/Host/Metrics.antt =====
-- `collectHostMetrics` of src/lib/host-metrics.ts: one reading of all sources.
use voidstation_app.Prelude.{List, Option, ℕ}
use voidstation_app.Values.{Value}
use voidstation_app.Host.Text.{Decimal}
use voidstation_app.Host.Results.{HostSample, Measurement, derive}
use voidstation_app.Host.Counters.{
  CpuCounters, Dates, LoadAverage, Pressure, Share, measure_cpu, measure_load, measure_pressure,
}
use voidstation_app.Host.Memory.{
  DiskSpace, FilesystemSample, RamUsage, SwapUsage, measure_filesystem, parse_ram, parse_swap,
  parse_uptime, separated_data,
}
use voidstation_app.Host.Status.{measure_host_status}
use voidstation_app.Host.Drives.{HostStatus}

-- What the fixed sources give: none is a source that cannot be read.
pub record HostInput : Type 0 where
  pub cpu : Option HostSample
  pub uptime : Option HostSample
  pub memory : Option HostSample
  pub load : Option HostSample
  pub cpu_pressure : Option HostSample
  pub memory_pressure : Option HostSample
  pub io_pressure : Option HostSample
  pub host_status : Option HostSample
  pub root_filesystem : Option FilesystemSample
  pub data_filesystem : Option FilesystemSample

pub record HostMetrics : Type 0 where
  pub cpu : Measurement Share
  pub uptime : Measurement Decimal
  pub ram : Measurement RamUsage
  pub swap : Measurement SwapUsage
  pub load : Measurement LoadAverage
  pub pressure : Measurement Pressure
  pub root_filesystem : Measurement DiskSpace
  pub data_filesystem : Measurement DiskSpace
  pub host_status : Measurement HostStatus

-- The counters that the sources' next reading is compared with go in and come out.
unfoldable pub collect_host_metrics :
    Dates
    → (List ℕ → Option Value)
    → Option CpuCounters
    → HostInput
    → HostMetrics × Option CpuCounters
collect_host_metrics dates parse_json previous input =
    let cpu = measure_cpu previous input.cpu in
    (
      record {
        cpu = cpu.0;
        uptime = derive input.uptime parse_uptime;
        ram = derive input.memory parse_ram;
        swap = derive input.memory parse_swap;
        load = measure_load input.load input.cpu;
        pressure =
            measure_pressure dates input.cpu_pressure input.memory_pressure input.io_pressure;
        root_filesystem = measure_filesystem input.root_filesystem;
        data_filesystem = separated_data input.root_filesystem input.data_filesystem;
        host_status = measure_host_status dates parse_json input.host_status;
      },
      cpu.1,
    )
