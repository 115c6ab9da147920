-- ===== src/Http/Body.antt =====
-- The loops that read a request or response body chunk by chunk and give up past a limit: in
-- src/app/api/auth/login/route.ts, src/lib/assistant-worker.ts, src/lib/downloads.ts and
-- worker/src/server.ts.
use voidstation_app.Prelude.{
  List, Option, [], append-nil, append_assoc, arith, if◌then◌else◌, leb, length, length-append,
  le→leb, ltb, none, refl, some, sym, ℕ, ◌++◌, ◌+◌, ◌<◌, ◌∙◌, ◌∷◌, ◌≡◌, ◌≤◌,
}

abbrev pub concat : List (List ℕ) → List ℕ
concat [] = []
concat (chunk ∷ chunks) = chunk ++ concat chunks

-- `while (true)`: `size` and `read` are the loop's variables; `none` means that it gave up.
unfoldable pub read_bounded : ℕ → ℕ → List (List ℕ) → List (List ℕ) → Option (List ℕ)
read_bounded limit size read [] = some (concat read)
read_bounded limit size read (value ∷ chunks) =
    let rest = read_bounded limit (size + length value) (read ++ value ∷ []) chunks in
    if ltb limit (size + length value) then none else rest

concat-append : (xs ys : List (List ℕ)) → concat (xs ++ ys) ≡ concat xs ++ concat ys
concat-append [] ys = refl
concat-append (x ∷ xs) ys = rw (concat-append xs ys) (sym (append_assoc x (concat xs) (concat ys)))

read_bounded-from :
    (limit size : ℕ) (read chunks : List (List ℕ))
    → size ≤ limit
    → read_bounded limit size read chunks ≡ (
        if leb (size + length (concat chunks)) limit
        then some (concat read ++ concat chunks)
        else none)
unfolding read_bounded
read_bounded-from limit size read [] h = rw append-nil (ground arith)
read_bounded-from limit size read (value ∷ chunks) h =
    let joined : concat (read ++ value ∷ []) ++ concat chunks
        ≡ concat read ++ (value ++ concat chunks) =
      simp (concat-append, append-nil, append_assoc) in
    ground (
      arith,
      read_bounded-from limit (size + length value) (read ++ value ∷ []) chunks,
      joined,
      length-append value (concat chunks),
    )

-- The loop returns the whole body if it has at most `limit` bytes, and gives up on any longer one,
-- wherever the chunks are cut.
pub read_bounded_whole :
    (limit : ℕ) (chunks : List (List ℕ))
    → read_bounded limit 0 [] chunks
      ≡ (if leb (length (concat chunks)) limit then some (concat chunks) else none)
read_bounded_whole limit chunks = read_bounded-from limit 0 [] chunks (omega arith) ∙ ground arith

pub read_bounded_fits :
    (limit : ℕ) (chunks : List (List ℕ))
    → length (concat chunks) ≤ limit
    → read_bounded limit 0 [] chunks ≡ some (concat chunks)
read_bounded_fits limit chunks h =
    read_bounded_whole limit chunks ∙ rw (le→leb (length (concat chunks)) limit h) refl

pub read_bounded_large :
    (limit : ℕ) (chunks : List (List ℕ))
    → limit < length (concat chunks)
    → read_bounded limit 0 [] chunks ≡ none
read_bounded_large limit chunks h = read_bounded_whole limit chunks ∙ ground arith
