-- ===== src/Downloads/Cache.antt =====
-- `downloadQueue` of worker/src/downloads.ts: the snapshot that polling callers share.
use voidstation_app.Prelude.{
  Bool, List, Option, [], false, if◌then◌else◌, ltb, none, some, true, ℕ, ◌+◌, ◌∷◌, ◌≡◌,
}
use voidstation_app.Downloads.Snapshot.{DownloadQueue}

abbrev pub cache_ms : ℕ
cache_ms = 10000

pub record Snapshot : Type 0 where
  pub value : DownloadQueue
  pub at : ℕ

-- A read of the services that began or ended, with the time
pub data Read : Type 0 where
  began ended : ℕ → Read

-- `cached`, whether `inflight` is set, and the reads so far, the latest first
pub record Polling : Type 0 where
  pub cached : Option Snapshot
  pub inflight : Bool
  pub reads : List Read

abbrev pub idle : Polling
idle = record { cached = none; inflight = false; reads = [] }

abbrev pub is_fresh : ℕ → Option Snapshot → Bool
is_fresh now none = false
is_fresh now (some snapshot) = ltb now (snapshot.at + cache_ms)

-- `inflight ??= collect()…`: the reading begins unless one is going on.
abbrev pub join : ℕ → Polling → Polling
join now s = if s.inflight then s else record s { inflight = true; reads = began now ∷ s.reads }

-- A call: the snapshot that answers it, or none if it waits for the reading.
unfoldable pub download_queue : ℕ → Polling → Option Snapshot × Polling
download_queue now s = if is_fresh now s.cached then (s.cached, s) else (none, join now s)

-- The reading is done. It never fails: `serviceConfigs` and `serviceQueue` catch what is thrown.
unfoldable pub collected : DownloadQueue → ℕ → Polling → Polling
collected value now s = record {
  cached = some (record { value = value; at = now });
  inflight = false;
  reads = ended now ∷ s.reads;
}

-- Callers come at any time by a clock that may also be set back; a reading ends if one is going on.
pub data Step (s : Polling) : Polling → Type 0 where
  call : (now : ℕ) → Step s (download_queue now s).1
  settle : (value : DownloadQueue) (now : ℕ) → s.inflight ≡ true → Step s (collected value now s)

pub data Reach : Polling → Type 0 where
  start : Reach idle
  next : {s t : Polling} → Reach s → Step s t → Reach t
