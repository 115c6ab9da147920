-- ===== src/Http/Login/MediaType.antt =====
-- The content type that src/app/api/auth/login/route.ts asks for, said without cutting a text.
use Prim.Native.Char.{code}
use voidstation_app.Prelude.{
  Bool, Bool-cases, Option, String, eq_iff, false, true, refl, not, ◌&&◌, ◌==◌, ◌↔◌, ◌≡◌, inl, inr,
  arith, some, none, sym, ◌∙◌, ap,
}
use voidstation_app.Http.Login.{before_semicolon, has_type}

-- The text is the type, or goes on with a semicolon after it.
abbrev pub IsMediaType : String → String → Type 0
IsMediaType String.[] String.[] = Unit
IsMediaType String.[] (String.◌∷◌ d text) = code d ≡ b';'
IsMediaType (String.◌∷◌ c type) String.[] = ⊥
IsMediaType (String.◌∷◌ c type) (String.◌∷◌ d text) = (d ≡ c) × IsMediaType type text

abbrev pub HasMediaType : String → Option String → Type 0
HasMediaType type none = ⊥
HasMediaType type (some text) = IsMediaType type text

abbrev has_no_semicolon : String → Bool
has_no_semicolon String.[] = true
has_no_semicolon (String.◌∷◌ c type) = not (code c == b';') && has_no_semicolon type

before_semicolon_iff :
    (type text : String)
    → has_no_semicolon type ≡ true
    → (before_semicolon text ≡ type) ↔ IsMediaType type text
unfolding before_semicolon
before_semicolon_iff String.[] String.[] h = (λ e. tt, λ e. refl)
before_semicolon_iff String.[] (String.◌∷◌ d text) h = elim (Bool-cases (code d == b';')) [
  | inl k ↦ rw k (λ e. ground arith, λ e. refl)
  | inr k ↦ rw k (λ e. cc, λ e. ground arith)
]
before_semicolon_iff (String.◌∷◌ c type) String.[] h = (λ e. cc, λ e. absurd e)
before_semicolon_iff (String.◌∷◌ c type) (String.◌∷◌ d text) h =
    let (other, rest) = split (code c == b';') (has_no_semicolon type) h in
    let tail = before_semicolon_iff type text rest in
    elim (Bool-cases (code d == b';')) [
      | inl k ↦ rw k (λ e. cc, λ (same, m). absurd (differ same other k))
      | inr k ↦ rw k (
        λ e. (
          let same : d ≡ c = cc in same,
          tail.0 (let ends : before_semicolon text ≡ type = cc in ends),
        ),
        λ (same, m). let ends = tail.1 m in cc,
      )
    ]
  where
    split : (a b : Bool) → (not a && b) ≡ true → (a ≡ false) × (b ≡ true)
    split a b k = ground arith

    differ : d ≡ c → (code c == b';') ≡ false → (code d == b';') ≡ true → ⊥
    differ same other k = cc (sym k ∙ ap (λ x. code x == b';') same ∙ other)

-- `has_type` for the one type that the route accepts
pub has_form_type_iff :
    (content_type : Option String)
    → (has_type "application/x-www-form-urlencoded" content_type ≡ true)
      ↔ HasMediaType "application/x-www-form-urlencoded" content_type
unfolding has_type
has_form_type_iff none = (λ h. cc, λ h. absurd h)
has_form_type_iff (some text) =
    let cut = before_semicolon_iff "application/x-www-form-urlencoded" text refl in
    (λ h. cut.0 ((eq_iff _ _).0 h), λ h. (eq_iff _ _).1 (cut.1 h))
