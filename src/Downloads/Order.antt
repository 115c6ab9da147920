-- ===== src/Downloads/Order.antt =====
-- The comparison that `projectQueue` of worker/src/downloads.ts sorts by is an order.
use voidstation_app.Prelude.{
  Bool, List, Option, arith, false, ltb, none, refl, some, true, ℕ, ◌&&◌, ◌==◌, ◌||◌, ◌≡◌,
}
use voidstation_app.Downloads.Records.{Platform}
use voidstation_app.Downloads.Items.{DownloadItem}
use voidstation_app.Downloads.Queue.{comes_first, is_sooner, problem_rank}

is_sooner_total :
    (p : Platform) (a b : Option (List ℕ)) → is_sooner p a b ≡ false → is_sooner p b a ≡ true
is_sooner_total p a none h = cc
is_sooner_total p none (some t) h = refl
is_sooner_total p (some s) (some t) h = ground arith

is_sooner_trans :
    (p : Platform) (a b c : Option (List ℕ))
    → is_sooner p a b ≡ true
    → is_sooner p b c ≡ true
    → is_sooner p a c ≡ true
is_sooner_trans p a b none h k = refl
is_sooner_trans p a none (some t) h k = cc
is_sooner_trans p none (some s) (some t) h k = cc
is_sooner_trans p (some r) (some s) (some t) h k = ground arith

rank_total :
    (m n : ℕ) (s t : Bool)
    → (s ≡ false → t ≡ true)
    → (ltb m n || (m == n && s)) ≡ false
    → (ltb n m || (n == m && t)) ≡ true
rank_total m n true t f h = ground arith
rank_total m n false true f h = ground arith
rank_total m n false false f h = cc (f refl)

pub comes_first_total :
    (p : Platform) (a b : DownloadItem) → comes_first p a b ≡ false → comes_first p b a ≡ true
unfolding comes_first
comes_first_total p a b h =
    rank_total (problem_rank a.status) (problem_rank b.status) _ _
      (is_sooner_total p a.estimated_completion b.estimated_completion) h

rank_trans :
    (l m n : ℕ) (r s t : Bool)
    → (r ≡ true → s ≡ true → t ≡ true)
    → (ltb l m || (l == m && r)) ≡ true
    → (ltb m n || (m == n && s)) ≡ true
    → (ltb l n || (l == n && t)) ≡ true
rank_trans l m n true true t f h k = let e = f refl refl in ground arith
rank_trans l m n true false t f h k = ground arith
rank_trans l m n false s t f h k = ground arith

pub comes_first_trans :
    (p : Platform) (a b c : DownloadItem)
    → comes_first p a b ≡ true
    → comes_first p b c ≡ true
    → comes_first p a c ≡ true
unfolding comes_first
comes_first_trans p a b c h k =
    rank_trans (problem_rank a.status) (problem_rank b.status) (problem_rank c.status) _ _ _
      (is_sooner_trans p a.estimated_completion b.estimated_completion c.estimated_completion) h k
