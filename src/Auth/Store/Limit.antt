-- ===== src/Auth/Store/Limit.antt =====
-- What the session limit keeps: `createSession` in src/lib/auth-store.ts.
use voidstation_app.Prelude.{
  =b_refl, All, Bool, List, [], ap, arith, drop, filter, filter-append, length, length-append,
  length-filter-le, length-filter-sort_by, length-take-le, not, refl, sort_by, sym, take,
  take-append-drop, true, ℕ, ◌++◌, ◌-◌, ◌∙◌, ◌∷◌, ◌≡◌, ◌≤◌,
}
use voidstation_app.Auth.Tables.{
  SessionRow, beyond_limit, has_hash_in, issued_before, session_limit, within_limit,
}

-- Every row of a list has its hash among the hashes of the list.
has_hash_in_weaken :
    (rows : List SessionRow) (x y : SessionRow)
    → has_hash_in rows x ≡ true
    → has_hash_in (y ∷ rows) x ≡ true
has_hash_in_weaken rows x y h = ground arith

All-has_hash_in_weaken :
    (rows : List SessionRow) (y : SessionRow) (xs : List SessionRow)
    → All (λ r. has_hash_in rows r ≡ true) xs
    → All (λ r. has_hash_in (y ∷ rows) r ≡ true) xs
All-has_hash_in_weaken rows y [] h = tt
All-has_hash_in_weaken rows y (x ∷ xs) (p, h) =
    (has_hash_in_weaken rows x y p, All-has_hash_in_weaken rows y xs h)

All-has_hash_in : (rows : List SessionRow) → All (λ r. has_hash_in rows r ≡ true) rows
All-has_hash_in [] = tt
All-has_hash_in (x ∷ xs) =
    (ground (arith, =b_refl x.token_hash), All-has_hash_in_weaken xs x xs (All-has_hash_in xs))

filter-none {ℓ} :
    {A : Type ℓ} (p : A → Bool) (xs : List A)
    → All (λ x. p x ≡ true) xs
    → length (filter (λ x. not (p x)) xs) ≡ 0
filter-none p [] h = refl
filter-none p (x ∷ xs) (q, h) = rw q (filter-none p xs h)

-- Dropping the hashes past the first `k` of an order leaves at most `k` rows.
length-filter_past :
    (k : ℕ) (sorted : List SessionRow)
    → length (filter (λ row. not (has_hash_in (drop k sorted) row)) sorted) ≤ k
length-filter_past k sorted =
    let p : SessionRow → Bool = λ row. not (has_hash_in (drop k sorted) row) in
    let split : filter p (take k sorted ++ drop k sorted)
        ≡ filter p (take k sorted) ++ filter p (drop k sorted) =
      filter-append p (take k sorted) (drop k sorted) in
    let whole : length (filter p sorted)
        ≡ length (filter p (take k sorted) ++ filter p (drop k sorted)) =
      ap length (ap (filter p) (sym (take-append-drop k sorted)) ∙ split) in
    omega (
      arith,
      whole,
      length-append (filter p (take k sorted)) (filter p (drop k sorted)),
      filter-none (has_hash_in (drop k sorted)) (drop k sorted) (All-has_hash_in (drop k sorted)),
      length-filter-le p (take k sorted),
      length-take-le k sorted,
    )

pub length-within_limit : (rows : List SessionRow) → length (within_limit rows) ≤ session_limit - 1
length-within_limit rows = omega (
  arith,
  length-filter-sort_by issued_before (λ row. not (has_hash_in (beyond_limit rows) row)) rows,
  length-filter_past 31 (sort_by issued_before rows),
)
