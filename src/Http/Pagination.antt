-- ===== src/Http/Pagination.antt =====
-- internal/httpapi/pagination.go: parseLimitOffset, with strconv.Atoi of the standard library.
use ispo_shedule_backend.Prelude.{
  ℕ, suc, ◌+◌, ◌*◌, ◌-◌, ℤ, pos, negsuc, max_int, String, Bool, true, false, not, ◌&&◌, ◌≡◌, refl,
  sym, subst, Option, none, some, ◌==◌, string_eq, nat_eq, leb, ltb_ℤ, ◌≤ℤ◌, is_positive,
  if◌then◌else◌, arith, Bool-cases, inl, inr,
}
use ispo_shedule_backend.Prelude.Text.{trim_space}
use ispo_shedule_backend.Prelude.Results.{Result, ok, err, ◌>>=◌, >>=-eq-ok, ok_inj}
use Prim.Native.Char.{code}

abbrev is_digit : ℕ → Bool
is_digit c = leb 48 c && leb c 57

-- the value of a text of decimal digits, after those that made `acc`
unfoldable parse_digits : String → ℕ → Option ℕ
parse_digits String.[] acc = some acc
parse_digits (String.◌∷◌ c s) acc =
    let rest = parse_digits s (acc * 10 + (code c - 48)) in if is_digit (code c) then rest else none

abbrev digits : String → Option ℕ
digits s = if s == "" then none else parse_digits s 0

abbrev in_range : Option ℕ → Option ℤ
in_range none = none
in_range (some n) = if leb n max_int then some (pos n) else none

abbrev negated : Option ℕ → Option ℤ
negated none = none
negated (some ℕ.zero) = some (pos 0)
negated (some (suc n)) = if leb n max_int then some (negsuc n) else none

-- strconv.Atoi: an optional sign and decimal digits, within 64 bits
unfoldable pub atoi : String → Option ℤ
unfolding parse_digits
atoi String.[] = none
atoi (String.◌∷◌ c s) =
    if code c == 43
    then in_range (digits s)
    else if code c == 45
    then negated (digits s)
    else in_range (digits (String.◌∷◌ c s))

pub record LimitOffset : Type 0 where
  pub limit : Option ℤ
  pub offset : Option ℤ

-- the field and the message of a 400
pub record BadQuery : Type 0 where
  pub field : String
  pub text : String

abbrev capped : ℤ → ℤ → ℤ
capped max_limit v = if is_positive max_limit && ltb_ℤ max_limit v then max_limit else v

unfoldable pub parsed_limit : ℤ → Option ℤ → Result BadQuery (Option ℤ)
parsed_limit max_limit none =
    err (record { field = "limit"; text = "limit must be a positive integer" })
parsed_limit max_limit (some v) =
    if not (is_positive v)
    then err (record { field = "limit"; text = "limit must be a positive integer" })
    else ok (some (capped max_limit v))

unfoldable pub parsed_offset : Option ℤ → Result BadQuery (Option ℤ)
parsed_offset none =
    err (record { field = "offset"; text = "offset must be a non-negative integer" })
parsed_offset (some v) =
    if ltb_ℤ v (pos 0)
    then err (record { field = "offset"; text = "offset must be a non-negative integer" })
    else ok (some v)

-- the last lines of parseLimitOffset
unfoldable pub completed : Option ℤ → Option ℤ → LimitOffset
completed none offset = record { limit = none; offset = none }
completed (some l) none = record { limit = some l; offset = some (pos 0) }
completed (some l) (some o) = record { limit = some l; offset = some o }

-- parseLimitOffset, on the values of the two query parameters
unfoldable pub parse_limit_offset : String → String → Option ℤ → ℤ → Result BadQuery LimitOffset
parse_limit_offset limit_query offset_query default_limit max_limit = do
  limit ←
      if trim_space limit_query == ""
      then ok default_limit
      else parsed_limit max_limit (atoi (trim_space limit_query))
  offset ←
      if trim_space offset_query == ""
      then ok none
      else parsed_offset (atoi (trim_space offset_query))
  ok (completed limit offset)

-- A limit that the query may ask for: positive, and within the cap if there is one.
abbrev pub IsLimit : ℤ → Option ℤ → Type 0
IsLimit max_limit none = Unit
IsLimit max_limit (some l) =
    (is_positive l ≡ true) × (is_positive max_limit ≡ true → l ≤ℤ max_limit)

-- An offset goes with a limit, and is not negative.
abbrev pub IsOffset : Option ℤ → Option ℤ → Type 0
IsOffset none offset = offset ≡ none
IsOffset (some l) none = ⊥
IsOffset (some l) (some o) = pos 0 ≤ℤ o

capped-IsLimit :
    (max_limit v : ℤ) → is_positive v ≡ true → IsLimit max_limit (some (capped max_limit v))
capped-IsLimit max_limit v h = (ground arith, ground arith)

parsed_limit-IsLimit :
    (max_limit : ℤ) (v out : Option ℤ)
    → parsed_limit max_limit v ≡ ok out
    → (w : ℤ) × (out ≡ some w) × IsLimit max_limit (some w)
unfolding parsed_limit
parsed_limit-IsLimit max_limit none out h = cc
parsed_limit-IsLimit max_limit (some v) out h = elim (Bool-cases (is_positive v)) [
  | inr bad ↦ absurd (ground (arith, bad))
  | inl good ↦ (capped max_limit v, ground (arith, good), capped-IsLimit max_limit v good)
]

-- What the second parameter may come to: no offset yet, or one that is not negative.
abbrev IsUnsigned : Option ℤ → Type 0
IsUnsigned none = Unit
IsUnsigned (some o) = pos 0 ≤ℤ o

parsed_offset-IsUnsigned : (v out : Option ℤ) → parsed_offset v ≡ ok out → IsUnsigned out
unfolding parsed_offset
parsed_offset-IsUnsigned none out h = cc
parsed_offset-IsUnsigned (some v) out h = elim (Bool-cases (ltb_ℤ v (pos 0))) [
  | inl bad ↦ absurd (ground (arith, bad))
  | inr good ↦ let e : some v ≡ out = ground (arith, good) in subst IsUnsigned e (ground arith)
]

chosen-IsLimit :
    (empty : Bool) (default_limit : Option ℤ) (max_limit : ℤ) (v out : Option ℤ)
    → IsLimit max_limit default_limit
    → (if empty then ok default_limit else parsed_limit max_limit v) ≡ ok out
    → IsLimit max_limit out
chosen-IsLimit true default_limit max_limit v out h e = subst (IsLimit max_limit) (ok_inj e) h
chosen-IsLimit false default_limit max_limit v out h e =
    let (w, p, good) = parsed_limit-IsLimit max_limit v out e in
    subst (IsLimit max_limit) (sym p) good

chosen-IsUnsigned :
    (empty : Bool) (v out : Option ℤ)
    → (if empty then ok none else parsed_offset v) ≡ ok out
    → IsUnsigned out
chosen-IsUnsigned true v out e = subst IsUnsigned (ok_inj e) tt
chosen-IsUnsigned false v out e = parsed_offset-IsUnsigned v out e

completed-IsOffset :
    (max_limit : ℤ) (limit offset : Option ℤ)
    → IsLimit max_limit limit
    → IsUnsigned offset
    → IsLimit max_limit (completed limit offset).limit
      × IsOffset (completed limit offset).limit (completed limit offset).offset
unfolding completed
completed-IsOffset max_limit none offset h o = (tt, refl)
completed-IsOffset max_limit (some l) none h o = (h, omega arith)
completed-IsOffset max_limit (some l) (some v) h o = (h, o)

-- Whatever the two parameters say, accepted ones give a positive limit within the cap and an
-- offset that is not negative, or neither of them, if the default limit is itself such a limit.
pub parse_limit_offset-IsOffset :
    (limit_query offset_query : String) (default_limit : Option ℤ) (max_limit : ℤ)
    (out : LimitOffset)
    → IsLimit max_limit default_limit
    → parse_limit_offset limit_query offset_query default_limit max_limit ≡ ok out
    → IsLimit max_limit out.limit × IsOffset out.limit out.offset
unfolding parse_limit_offset
parse_limit_offset-IsOffset limit_query offset_query default_limit max_limit out h e =
    let (limit, p, e₁) = >>=-eq-ok _ _ e in
    let (offset, q, e₂) = >>=-eq-ok _ _ e₁ in
    let done =
      completed-IsOffset max_limit limit offset
        (chosen-IsLimit (trim_space limit_query == "") default_limit max_limit _ limit h p)
        (chosen-IsUnsigned (trim_space offset_query == "") _ offset q) in
    subst (λ o. IsLimit max_limit o.limit × IsOffset o.limit o.offset) (ok_inj e₂) done
