-- ===== src/Downloads/Urgency.antt =====
-- Which items `projectQueue` of worker/src/downloads.ts shows, and in which order.
use mathlib.Core.List.{Perm}
use voidstation_app.Prelude.{
  Bool, IsSortedBy, List, Option, [], ap, arith, drop, false, length, length-take-le, ltb, none,
  refl, some, sort_by, sort_by-IsSortedBy, sort_by-perm, subst, suc, sym, take, take-append-drop,
  true, zero, ℕ, ◌&&◌, ◌++◌, ◌==◌, ◌||◌, ◌∷◌, ◌≡◌, ◌≢◌, ◌≤◌, ◌⊎◌, All, inl, inr, leb→le, ℕ_discrete,
  ◌∙◌, All-weaken,
}
use voidstation_app.Downloads.Records.{
  MediaService, Platform, QueueRecord, failed, warning, DownloadStatus, completed, delayed,
  downloading, importing, paused, queued,
}
use voidstation_app.Downloads.Items.{DownloadItem}
use voidstation_app.Downloads.Queue.{
  comes_first, group_from, is_sooner, items_from, problem_rank, project_records, time_of,
}
use voidstation_app.Downloads.Order.{comes_first_total, comes_first_trans}

-- The completion is known if the other one is, and is not later.
abbrev pub IsNoLater : Platform → Option (List ℕ) → Option (List ℕ) → Type 0
IsNoLater p a none = Unit
IsNoLater p none (some t) = ⊥
IsNoLater p (some s) (some t) =
    (m n : ℕ) → p.parse_date s ≡ some m → p.parse_date t ≡ some n → m ≤ n

-- Both have failed, or both have a warning, or neither has either.
abbrev pub AreAlike : DownloadStatus → DownloadStatus → Type 0
AreAlike s t =
    ((s ≡ failed) × (t ≡ failed))
    ⊎ ((s ≡ warning) × (t ≡ warning))
    ⊎ ((s ≢ failed) × (s ≢ warning) × (t ≢ failed) × (t ≢ warning))

-- The first item may stand before the second.
pub record IsNoLessUrgent (p : Platform) (a b : DownloadItem) : Type 0 where
  pub failed_first : b.status ≡ failed → a.status ≡ failed
  pub warning_next : b.status ≡ warning → (a.status ≡ failed) ⊎ (a.status ≡ warning)
  pub sooner :
      AreAlike a.status b.status → IsNoLater p a.estimated_completion b.estimated_completion

rank_failed : (s : DownloadStatus) → problem_rank s ≡ 0 → s ≡ failed
rank_failed downloading h = cc
rank_failed queued h = cc
rank_failed paused h = cc
rank_failed delayed h = cc
rank_failed importing h = cc
rank_failed completed h = cc
rank_failed warning h = cc
rank_failed failed h = refl

rank_warning : (s : DownloadStatus) → problem_rank s ≡ 1 → s ≡ warning
rank_warning downloading h = cc
rank_warning queued h = cc
rank_warning paused h = cc
rank_warning delayed h = cc
rank_warning importing h = cc
rank_warning completed h = cc
rank_warning warning h = refl
rank_warning failed h = cc

rank_other : (s : DownloadStatus) → s ≢ failed → s ≢ warning → problem_rank s ≡ 2
rank_other downloading h k = refl
rank_other queued h k = refl
rank_other paused h k = refl
rank_other delayed h k = refl
rank_other importing h k = refl
rank_other completed h k = refl
rank_other warning h k = absurd (k refl)
rank_other failed h k = absurd (h refl)

rank_alike : (s t : DownloadStatus) → AreAlike s t → problem_rank s ≡ problem_rank t
rank_alike s t h = elim h [
  | inl (e, f) ↦ ap problem_rank (e ∙ sym f)
  | inr more ↦ elim more [
    | inl (e, f) ↦ ap problem_rank (e ∙ sym f)
    | inr (a, b, c, d) ↦ rank_other s a b ∙ sym (rank_other t c d)
  ]
]

is_sooner-IsNoLater :
    (p : Platform) (a b : Option (List ℕ)) → is_sooner p a b ≡ true → IsNoLater p a b
is_sooner-IsNoLater p a none h = tt
is_sooner-IsNoLater p none (some t) h = cc
is_sooner-IsNoLater p (some s) (some t) h = λ m n e f.
    omega (arith, leb→le (time_of p s) (time_of p t) h, time_of-some s m e, time_of-some t n f)
  where
    time_of-some : (u : List ℕ) (k : ℕ) → p.parse_date u ≡ some k → time_of p u ≡ k
    time_of-some u k e = rw (e, time_of) refl

first_rank : (m n : ℕ) (s : Bool) → (ltb m n || (m == n && s)) ≡ true → (m ≤ n) × (m ≡ n → s ≡ true)
first_rank m n true h = ground arith
first_rank m n false h = ground arith

comes_first-IsNoLessUrgent :
    (p : Platform) (a b : DownloadItem) → comes_first p a b ≡ true → IsNoLessUrgent p a b
unfolding comes_first
comes_first-IsNoLessUrgent p a b h =
    let (ordered, soon) = first_rank (problem_rank a.status) (problem_rank b.status) _ h in
    record {
      failed_first = λ e. rank_failed a.status (omega (arith, ordered, ap problem_rank e));
      warning_next = λ e. at_most_one a.status (omega (arith, ordered, ap problem_rank e));
      sooner = λ alike. is_sooner-IsNoLater p _ _ (soon (rank_alike a.status b.status alike));
    }
  where
    at_most_one : (s : DownloadStatus) → problem_rank s ≤ 1 → (s ≡ failed) ⊎ (s ≡ warning)
    at_most_one s l = elim (ℕ_discrete (problem_rank s) 0) [
      | yes e ↦ inl (rank_failed s e)
      | no n ↦ inr (rank_warning s (omega (arith, l, n)))
    ]

-- Every item may stand before all that follow it.
abbrev pub AreByUrgency : Platform → List DownloadItem → Type 0
AreByUrgency p [] = Unit
AreByUrgency p (item ∷ items) = All (IsNoLessUrgent p item) items × AreByUrgency p items

IsSortedBy-AreByUrgency :
    (p : Platform) (items : List DownloadItem)
    → IsSortedBy (comes_first p) items
    → AreByUrgency p items
IsSortedBy-AreByUrgency p [] h = tt
IsSortedBy-AreByUrgency p (i ∷ items) (h, hs) =
    (All-weaken _ _ items (comes_first-IsNoLessUrgent p i) h, IsSortedBy-AreByUrgency p items hs)

-- The items that are shown, with those that are not after them, are all items, in order.
pub record IsMostUrgent (p : Platform) (all_items shown hidden : List DownloadItem) : Type 0 where
  pub nothing_lost : Perm (shown ++ hidden) all_items
  pub in_order : AreByUrgency p (shown ++ hidden)
  pub at_most_fifty : length shown ≤ 50
  pub hidden_after_fifty : hidden ≢ [] → length shown ≡ 50

full-of_hidden : (n : ℕ) (items : List DownloadItem) → drop n items ≢ [] → length (take n items) ≡ n
full-of_hidden zero items h = refl
full-of_hidden (suc n) [] h = absurd (h refl)
full-of_hidden (suc n) (i ∷ items) h = ap suc (full-of_hidden n items h)

-- What a service shows are its most urgent items: failed ones, then those with a warning, then the
-- others, and in each class the one that completes first, items of unknown completion last. Only
-- items beyond the fiftieth are left out.
pub project_records-IsMostUrgent :
    (p : Platform) (service : MediaService) (rs : List QueueRecord) (total : ℕ)
    → (hidden : List DownloadItem) × IsMostUrgent p
        (items_from p service 0 [] (group_from service [] rs))
        (project_records p service rs total).items
        hidden
unfolding project_records
project_records-IsMostUrgent p service rs total =
    let items = items_from p service 0 [] (group_from service [] rs) in
    let sorted = sort_by (comes_first p) items in
    let whole = take-append-drop 50 sorted in
    (
      drop 50 sorted,
      record {
        nothing_lost = subst (λ l. Perm l items) (sym whole) (sort_by-perm (comes_first p) items);
        in_order = subst (AreByUrgency p) (sym whole) (
            IsSortedBy-AreByUrgency p sorted (
              sort_by-IsSortedBy (comes_first p) (comes_first_total p) (comes_first_trans p)
                items));
        at_most_fifty = length-take-le 50 sorted;
        hidden_after_fifty = full-of_hidden 50 sorted;
      },
    )
