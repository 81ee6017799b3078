-- ===== src/Cursor/Request.antt =====
-- src/data/cursor.rs: the cursor of a page request. The cursor's own parser is a parameter.
use allfeat_explorer.Common.{◌≡◌, ◌⊎◌, inl, inr, refl, Option, none, some, Bytes, Result, ok, err}
use allfeat_explorer.Domain.{PageRequest}
use allfeat_explorer.Errors.{DataError, bad_request}
use allfeat_explorer.Cursor.Defs.{CursorParseError, Parsed, parse_error_display}

-- `.map(Some).map_err(|e| DataError::BadRequest(e.to_string()))`
unfoldable pub as_cursor {ℓ} :
    {C : Type ℓ} → Result CursorParseError C → Result DataError (Option C)
as_cursor (ok c) = ok (some c)
as_cursor (err e) = err (bad_request (parse_error_display e))

unfoldable pub parse_cursor :
    {C : Type 0} → (Bytes → Parsed C) → PageRequest → Result DataError (Option C)
unfolding as_cursor
parse_cursor from_str req = elim req.cursor [ none ↦ ok none | some raw ↦ as_cursor (from_str raw) ]

pub Result-cases {ℓ ℓ'} :
    {E : Type ℓ} {A : Type ℓ'} (r : Result E A) → ((a : A) × (r ≡ ok a)) ⊎ ((e : E) × (r ≡ err e))
Result-cases (ok a) = inl (a, refl)
Result-cases (err e) = inr (e, refl)
