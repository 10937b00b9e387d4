-- ===== src/Schedule/Constraints/Normalize.antt =====
-- internal/schedule/repository_calendar_constraints.go: normalizeCalendarDayConstraint, and what it
-- promises of a row that it accepts.
use ispo_shedule_backend.Prelude.{
  String, false, ◌≡◌, ◌≢◌, ◌⊎◌, refl, subst, [], ◌∷◌, ◌==◌, string_eq, nat_eq, if◌then◌else◌,
  contains, arith, eq_iff,
}
use ispo_shedule_backend.Prelude.Text.{trim_space, to_lower, trim_space-trim_space}
use ispo_shedule_backend.Prelude.Results.{
  Result, ok, err, ◌>>=◌, ◌>>◌, reject_if, >>=-eq-ok, >>-eq-ok, reject_if-ok, ok_inj,
}
use ispo_shedule_backend.Schedule.Models.{Time, CalendarDayConstraint}
use ispo_shedule_backend.Schedule.Errors.{Error, message}
use ispo_shedule_backend.Schedule.Lessons.Normalize.{date_only, is_zero, normalize_flow_key}

-- the `switch` on the constraint's type, after the default
unfoldable pub known_constraint_type : String → Result Error String
known_constraint_type lower =
    let chosen = if lower == "" then "blocked" else lower in
    if contains chosen ("blocked" ∷ "warning" ∷ "info" ∷ [])
    then ok chosen
    else err (message "invalid constraint_type")

abbrev pub default_style : String → String
default_style kind =
    if kind == "blocked" then "danger" else if kind == "info" then "info" else "warning"

-- the `switch` on the style, after the default
unfoldable pub known_style : String → String → Result Error String
known_style kind lower =
    let chosen = if lower == "" then default_style kind else lower in
    if contains chosen ("standard" ∷ "warning" ∷ "danger" ∷ "info" ∷ [])
    then ok chosen
    else err (message "invalid style_preset")

-- normalizeCalendarDayConstraint; the reason is trimmed as a flow key is
unfoldable pub normalize_calendar_day_constraint :
    CalendarDayConstraint → Result Error CalendarDayConstraint
normalize_calendar_day_constraint row = do
  reject_if (trim_space row.title == "") (message "title required")
  kind ← known_constraint_type (to_lower (trim_space row.constraint_type))
  style ← known_style kind (to_lower (trim_space row.style_preset))
  reject_if (is_zero (date_only row.target_date)) (message "target_date required")
  ok (record row {
    title = trim_space row.title;
    reason = normalize_flow_key row.reason;
    constraint_type = kind;
    style_preset = style;
    target_date = date_only row.target_date;
  })

abbrev pub IsConstraintType : String → Type 0
IsConstraintType s = (s ≡ "blocked") ⊎ (s ≡ "warning") ⊎ (s ≡ "info")

abbrev pub IsStyle : String → Type 0
IsStyle s = (s ≡ "standard") ⊎ (s ≡ "warning") ⊎ (s ≡ "danger") ⊎ (s ≡ "info")

-- What the rest of the program may rely on in a stored constraint.
pub record IsNormalConstraint (row : CalendarDayConstraint) : Type 0 where
  pub titled : (trim_space row.title ≡ row.title) × (row.title ≢ "")
  pub kind : IsConstraintType row.constraint_type
  pub style : IsStyle row.style_preset
  pub midnight : row.target_date.nanos ≡ 0
  pub dated : row.target_date.day ≢ 0

known_type-IsConstraintType :
    (lower out : String) → known_constraint_type lower ≡ ok out → IsConstraintType out
unfolding known_constraint_type
known_type-IsConstraintType lower out h =
    ground (arith, eq_iff lower "blocked", eq_iff lower "warning", eq_iff lower "info")

chosen-IsStyle :
    (chosen out : String)
    → (if contains chosen ("standard" ∷ "warning" ∷ "danger" ∷ "info" ∷ [])
        then ok chosen
        else err (message "invalid style_preset"))
      ≡ ok out
    → IsStyle out
chosen-IsStyle chosen out h = ground (
  arith,
  eq_iff chosen "standard",
  eq_iff chosen "warning",
  eq_iff chosen "danger",
  eq_iff chosen "info",
)

known_style-IsStyle : (kind lower out : String) → known_style kind lower ≡ ok out → IsStyle out
unfolding known_style
known_style-IsStyle kind lower out h =
    chosen-IsStyle (if lower == "" then default_style kind else lower) out h

not_zero : (t : Time) → is_zero (date_only t) ≡ false → (date_only t).day ≢ 0
unfolding date_only
not_zero t h = ground arith

midnight_of : (t : Time) → (date_only t).nanos ≡ 0
unfolding date_only
midnight_of t = refl

not_empty : (s : String) → (s == "") ≡ false → s ≢ ""
not_empty s h e = cc ((eq_iff s "").1 e)

-- Whatever the input, an accepted constraint has a trimmed title that is not empty, a type and a
-- style that the program knows, and a date without a time of day.
pub normalize_calendar_day_constraint-IsNormalConstraint :
    (row out : CalendarDayConstraint)
    → normalize_calendar_day_constraint row ≡ ok out
    → IsNormalConstraint out
unfolding normalize_calendar_day_constraint
normalize_calendar_day_constraint-IsNormalConstraint row out h =
    let (titled, h₁) = >>-eq-ok _ _ h in
    let (kind, k, h₂) = >>=-eq-ok _ _ h₁ in
    let (style, p, h₃) = >>=-eq-ok _ _ h₂ in
    let (dated, h₄) = >>-eq-ok _ _ h₃ in
    subst IsNormalConstraint (ok_inj h₄) (record {
      titled = (
        trim_space-trim_space row.title,
        not_empty (trim_space row.title) (reject_if-ok _ _ titled),
      );
      kind = known_type-IsConstraintType _ kind k;
      style = known_style-IsStyle kind _ style p;
      midnight = midnight_of row.target_date;
      dated = not_zero row.target_date (reject_if-ok _ _ dated);
    })
