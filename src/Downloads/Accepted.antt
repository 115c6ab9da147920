-- ===== src/Downloads/Accepted.antt =====
-- What worker/src/downloads.ts sends is what src/lib/downloads.ts accepts.
use voidstation_app.Downloads.Queue.{name_of}
use voidstation_app.Downloads.Snapshot.{item_value, tenths_or_null, text_or_null, whole_or_null}
use voidstation_app.Downloads.Plain.{IsPlainOrNone, is_plain-IsPlain}
use voidstation_app.Downloads.Numbers.{power_of_ten}
use voidstation_app.Prelude.{
  =b_refl, All, Bool, List, Option, [], false, length, max, none, refl, some, true, ℕ, ◌&&◌, ◌<◌,
  ◌=b◌, ◌∷◌, ◌≡◌, ◌≤◌,
}
use voidstation_app.Downloads.Records.{MediaService, Platform, QueueRecord, download_status}
use voidstation_app.Downloads.Items.{
  problem, DownloadItem, Records, all_records, estimated_completion, first_time, item_for, parsed,
  size_left_of, size_of, worst_status,
}
use voidstation_app.Downloads.Contract.{
  is_bytes, is_iso_time, is_item, is_item_id, is_percentage, is_plain, is_status, null_or,
  status_text, text_and,
}
use voidstation_app.Downloads.Titles.{HasSmallSeason, title_of-IsPlain}
use voidstation_app.Downloads.Ids.{IsOwnId}
use voidstation_app.Downloads.Sizes.{
  HasSafeSizes, or_else-holds, problem-IsPlainOrNone, progress-IsAtMostAll, size_left_of-IsSafe,
  size_of-IsSafe, status_text-is_status, tenths_or_null-is_percentage, whole_or_null-is_bytes,
}

-- A time of the years 0 to 9999. Times are counted from the earliest date, 8.64e15 ms before 1970.
abbrev pub HasFourDigitYear : ℕ → Type 0
HasFourDigitYear time = (8577832780800000 ≤ time) × (time < 8893402300800000)

-- What toISOString writes for such a time is a text of 24 characters, YYYY-MM-DDTHH:mm:ss.sssZ, that
-- Date.parse reads.
abbrev pub WritesFourDigits : Platform → Type 0
WritesFourDigits p = (time : ℕ) → HasFourDigitYear time → is_iso_time p (p.iso_string time) ≡ true

abbrev pub IsFourDigitOrNone : Option ℕ → Type 0
IsFourDigitOrNone none = Unit
IsFourDigitOrNone (some time) = HasFourDigitYear time

-- A record as Radarr and Sonarr send them: its completion has a year of four digits, if it is a date;
-- its season is below 100,000, and its download id does not begin with "item-".
pub record IsOrdinary (p : Platform) (r : QueueRecord) : Type 0 where
  pub four_digits : IsFourDigitOrNone (parsed p r.estimated_completion_time)
  pub small_season : HasSmallSeason r
  pub own_id : IsOwnId r.download_id

-- Its sizes are safe integers too, as those of a parsed record are.
pub record IsSound (p : Platform) (r : QueueRecord) : Type 0 where
  pub ordinary : IsOrdinary p r
  pub safe_sizes : HasSafeSizes r

abbrev IsTimeOrNone : Platform → Option ℕ → Type 0
IsTimeOrNone p none = Unit
IsTimeOrNone p (some time) = is_iso_time p (p.iso_string time) ≡ true

IsTimeOrNone-of :
    (p : Platform) (o : Option ℕ) → WritesFourDigits p → IsFourDigitOrNone o → IsTimeOrNone p o
IsTimeOrNone-of p none w h = tt
IsTimeOrNone-of p (some time) w h = w time h

first_time-IsTimeOrNone :
    (p : Platform) (rs : List QueueRecord)
    → WritesFourDigits p
    → All (IsSound p) rs
    → IsTimeOrNone p (first_time p rs)
first_time-IsTimeOrNone p [] w h = tt
first_time-IsTimeOrNone p (r ∷ rs) w (h, hs) =
    or_else-holds (IsTimeOrNone p) (parsed p r.estimated_completion_time) (first_time p rs)
      (IsTimeOrNone-of p (parsed p r.estimated_completion_time) w h.ordinary.four_digits)
      (first_time-IsTimeOrNone p rs w hs)

completion-is_iso_time :
    (p : Platform) (o : Option ℕ)
    → IsTimeOrNone p o
    → null_or
        (text_and (is_iso_time p))
        (some (text_or_null (elim o [ none ↦ none | some time ↦ some (p.iso_string time) ])))
      ≡ true
completion-is_iso_time p none h = refl
completion-is_iso_time p (some time) h = h

estimated_completion-is_iso_time :
    (p : Platform) (rs : List QueueRecord)
    → WritesFourDigits p
    → All (IsSound p) rs
    → null_or (text_and (is_iso_time p)) (some (text_or_null (estimated_completion p rs))) ≡ true
unfolding estimated_completion
estimated_completion-is_iso_time p rs w h =
    completion-is_iso_time p (first_time p rs) (first_time-IsTimeOrNone p rs w h)

plain_or_null :
    (max : ℕ) (t : Option (List ℕ))
    → IsPlainOrNone max t
    → null_or (text_and (λ u. is_plain u max)) (some (text_or_null t)) ≡ true
plain_or_null max none h = refl
plain_or_null max (some t) h = is_plain-IsPlain t max h

pub and_true : (a b : Bool) → a ≡ true → b ≡ true → (a && b) ≡ true
and_true true true h k = refl
and_true true false h k = k
and_true false b h k = h

All-ordinary : (p : Platform) (rs : List QueueRecord) → All (IsSound p) rs → All HasSmallSeason rs
All-ordinary p [] h = tt
All-ordinary p (r ∷ rs) (h, hs) = (h.ordinary.small_season, All-ordinary p rs hs)

All-safe : (p : Platform) (rs : List QueueRecord) → All (IsSound p) rs → All HasSafeSizes rs
All-safe p [] h = tt
All-safe p (r ∷ rs) (h, hs) = (h.safe_sizes, All-safe p rs hs)

abbrev pub IsAccepted : Platform → MediaService → DownloadItem → Type 0
IsAccepted p service item = is_item p service (item_value item) ≡ true

-- The checks of the fields, one by one
record HasGoodFields (p : Platform) (service : MediaService) (item : DownloadItem) : Type 0 where
  id : is_item_id service item.id ≡ true
  of_service : (name_of item.service =b name_of service) ≡ true
  title : is_plain item.title 300 ≡ true
  status : is_status (status_text item.status) ≡ true
  problem : null_or (text_and (λ u. is_plain u 200)) (some (text_or_null item.problem)) ≡ true
  size : null_or is_bytes (some (whole_or_null item.size)) ≡ true
  left : null_or is_bytes (some (whole_or_null item.size_left)) ≡ true
  progress : null_or is_percentage (some (tenths_or_null item.progress)) ≡ true
  completion :
      null_or (text_and (is_iso_time p)) (some (text_or_null item.estimated_completion)) ≡ true

HasGoodFields-IsAccepted :
    (p : Platform) (service : MediaService) (item : DownloadItem)
    → HasGoodFields p service item
    → IsAccepted p service item
unfolding is_item
HasGoodFields-IsAccepted p service item h =
    and_true _ _
      (and_true _ _
        (and_true _ _
          (and_true _ _
            (and_true _ _
              (and_true _ _
                (and_true _ _ (and_true _ _ (and_true _ _ refl h.id) h.of_service) h.title)
                h.status)
              h.problem)
            h.size)
          h.left)
        h.progress)
      h.completion

pub item_for-IsAccepted :
    (p : Platform) (service : MediaService) (records : Records) (id : List ℕ)
    → WritesFourDigits p
    → All (IsSound p) (all_records records)
    → length (all_records records) < power_of_ten 6
    → is_item_id service id ≡ true
    → IsAccepted p service (item_for p service records id)
unfolding item_for
item_for-IsAccepted p service records id w s l i =
    let rs = all_records records in
    let safe = All-safe p rs s in
    HasGoodFields-IsAccepted p service (item_for p service records id) (record {
      id = i;
      of_service = =b_refl (name_of service);
      title = is_plain-IsPlain _ 300 (title_of-IsPlain service records (All-ordinary p rs s) l);
      status =
          status_text-is_status (worst_status p (download_status p records.first) records.others);
      problem = plain_or_null 200 (problem rs) (problem-IsPlainOrNone rs);
      size = whole_or_null-is_bytes (size_of rs) (size_of-IsSafe rs safe);
      left = whole_or_null-is_bytes (size_left_of rs) (size_left_of-IsSafe rs safe);
      progress =
          tenths_or_null-is_percentage _ (progress-IsAtMostAll (size_of rs) (size_left_of rs));
      completion = estimated_completion-is_iso_time p rs w s;
    })
