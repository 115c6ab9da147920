-- ===== src/Downloads/Paced.antt =====
-- How often `downloadQueue` of worker/src/downloads.ts reads the services.
use voidstation_app.Prelude.{
  Bool, Bool-cases, List, Option, [], arith, false, inl, inr, none, refl, some, subst, true, ℕ, ◌+◌,
  ◌∷◌, ◌≡◌, ◌≤◌,
}
use voidstation_app.Downloads.Cache.{
  Polling, Reach, Read, Snapshot, Step, began, cache_ms, call, collected, download_queue, ended,
  is_fresh, join, next, settle, start,
}

-- A reading begins at least ten seconds after the one before has ended, and ends before the next one
-- begins.
abbrev pub ArePaced : List Read → Type 0
ArePaced [] = Unit
ArePaced (began s ∷ []) = Unit
ArePaced (began s ∷ ended t ∷ reads) = (t + cache_ms ≤ s) × ArePaced (ended t ∷ reads)
ArePaced (began s ∷ began t ∷ reads) = ⊥
ArePaced (ended t ∷ []) = ⊥
ArePaced (ended t ∷ began s ∷ reads) = ArePaced (began s ∷ reads)
ArePaced (ended t ∷ ended s ∷ reads) = ⊥

-- How the reads fit to `inflight` and `cached`
abbrev Fits : Bool → Option Snapshot → List Read → Type 0
Fits true cached (began s ∷ reads) = Unit
Fits true cached _ = ⊥
Fits false none [] = Unit
Fits false (some snapshot) (ended t ∷ reads) = t ≡ snapshot.at
Fits false _ _ = ⊥

record IsPolling (s : Polling) : Type 0 where
  paced : ArePaced s.reads
  fits : Fits s.inflight s.cached s.reads

began-ArePaced :
    (now : ℕ) (cached : Option Snapshot) (reads : List Read)
    → is_fresh now cached ≡ false
    → ArePaced reads
    → Fits false cached reads
    → ArePaced (began now ∷ reads)
began-ArePaced now none [] h p f = tt
began-ArePaced now none (r ∷ reads) h p f = absurd f
began-ArePaced now (some snapshot) [] h p f = absurd f
began-ArePaced now (some snapshot) (ended t ∷ reads) h p f = (ground arith, p)
began-ArePaced now (some snapshot) (began t ∷ reads) h p f = absurd f

join-IsPolling :
    (now : ℕ) (inflight : Bool) (cached : Option Snapshot) (reads : List Read)
    → is_fresh now cached ≡ false
    → ArePaced reads
    → Fits inflight cached reads
    → IsPolling (join now (record { cached = cached; inflight = inflight; reads = reads }))
join-IsPolling now true cached reads h p f = record { paced = p; fits = f }
join-IsPolling now false cached reads h p f = record {
  paced = began-ArePaced now cached reads h p f;
  fits = tt;
}

call-IsPolling : (now : ℕ) (s : Polling) → IsPolling s → IsPolling (download_queue now s).1
unfolding download_queue
call-IsPolling now s v = elim (Bool-cases (is_fresh now s.cached)) [
  | inl e ↦ rw e v
  | inr e ↦ rw e (join-IsPolling now s.inflight s.cached s.reads e v.paced v.fits)
]

ended-ArePaced :
    (now : ℕ) (cached : Option Snapshot) (reads : List Read)
    → ArePaced reads
    → Fits true cached reads
    → ArePaced (ended now ∷ reads)
ended-ArePaced now cached [] p f = absurd f
ended-ArePaced now cached (began s ∷ reads) p f = p
ended-ArePaced now cached (ended t ∷ reads) p f = absurd f

Step-IsPolling : {s t : Polling} → Step s t → IsPolling s → IsPolling t
unfolding collected
Step-IsPolling {s} (call now) v = call-IsPolling now s v
Step-IsPolling {s} (settle value now h) v = record {
  paced =
      ended-ArePaced now s.cached s.reads v.paced (subst (λ b. Fits b s.cached s.reads) h v.fits);
  fits = refl;
}

Reach-IsPolling : {s : Polling} → Reach s → IsPolling s
Reach-IsPolling start = record { paced = tt; fits = tt }
Reach-IsPolling (next r step) = Step-IsPolling step (Reach-IsPolling r)

-- However many callers poll, and whatever the clock says, the services are read by one collection at
-- a time, and each begins at least ten seconds, by the clock, after the one before has ended.
pub Reach-ArePaced : (s : Polling) → Reach s → ArePaced s.reads
Reach-ArePaced s r = (Reach-IsPolling r).paced
