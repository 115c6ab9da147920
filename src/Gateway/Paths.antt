-- ===== src/Gateway/Paths.antt =====
-- A path that src/lib/assistant-worker.ts joins is taken apart by worker/src/server.ts as it was.
use voidstation_app.Prelude.{
  Bool, List, [], all, append-nil, append_assoc, arith, false, length, not, refl, true, ℕ, ◌++◌,
  ◌==◌, ◌||◌, ◌∙◌, ◌∷◌, ◌≡◌,
}
use voidstation_app.Gateway.Routes.{is_hex, push_part, split_from}
use voidstation_app.Gateway.Forward.{is_at, matches}

abbrev pub HasNoSlash : List ℕ → Type 0
HasNoSlash segment = all (λ c. not (c == 47)) segment ≡ true

pub split_from-slash :
    (segment part path : List ℕ)
    → HasNoSlash segment
    → split_from part (segment ++ 47 ∷ path) ≡ push_part (part ++ segment) (split_from [] path)
unfolding split_from
split_from-slash [] part path h = rw (append-nil part) refl
split_from-slash (c ∷ segment) part path h =
    let is_other : (c == 47) ≡ false = ground arith in
    rw is_other (
      split_from-slash segment (part ++ c ∷ []) path (ground arith)
      ∙ rw (append_assoc part (c ∷ []) segment) refl)

pub split_from-end :
    (segment part : List ℕ)
    → HasNoSlash segment
    → split_from part segment ≡ push_part (part ++ segment) []
unfolding split_from
split_from-end [] part h = rw (append-nil part) refl
split_from-end (c ∷ segment) part h =
    let is_other : (c == 47) ≡ false = ground arith in
    rw is_other (
      split_from-end segment (part ++ c ∷ []) (ground arith)
      ∙ rw (append_assoc part (c ∷ []) segment) refl)

hex-is_other :
    (p : Bool) (c : ℕ) → is_at p c ≡ true → ((c == 47) ≡ false) × ((is_hex c || c == 45) ≡ true)
hex-is_other true c h = (ground arith, ground arith)
hex-is_other false c h = (ground arith, ground arith)

pub matches-lem :
    (pattern : List Bool) (id : List ℕ)
    → matches pattern id ≡ true
    → (length id ≡ length pattern) × HasNoSlash id × (all (λ c. is_hex c || c == 45) id ≡ true)
unfolding matches
matches-lem [] [] h = (refl, refl, refl)
matches-lem [] (c ∷ id) h = absurd (ground arith)
matches-lem (p ∷ pattern) [] h = absurd (ground arith)
matches-lem (p ∷ pattern) (c ∷ id) h =
    let (a, b) = hex-is_other p c (ground arith) in
    let (l, n, v) = matches-lem pattern id (ground arith) in
    (omega (arith, l), rw (a, n) refl, rw (b, v) refl)
