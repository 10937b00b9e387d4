-- ===== src/Schedule/Locations.antt =====
-- internal/schedule/repository_planning.go: LocationMeta with its types, and the kinds of a location
-- that the rules tell apart.
use ispo_shedule_backend.Prelude.{
  ℤ, pos, String, Bool, not, ◌&&◌, ◌||◌, Option, none, some, List, ◌==◌, string_eq, nat_eq, int_eq,
  lookup, any,
}
use ispo_shedule_backend.Prelude.Text.{trim_space, to_lower, equal_fold}
use ispo_shedule_backend.Prelude.Format.{split_comma}

pub record LocationMeta : Type 0 where
  pub id : ℤ
  pub campus_id : Option ℤ
  pub campus_name : String
  pub kind : String
  pub type_codes : String

-- HasType
unfoldable pub has_type : LocationMeta → String → Bool
has_type m text =
    let wanted = to_lower (trim_space text) in
    not (wanted == "")
    && any (λ part. to_lower (trim_space part) == wanted) (split_comma m.type_codes)

-- IsVirtual
unfoldable pub is_virtual : LocationMeta → Bool
unfolding has_type
is_virtual m = equal_fold (trim_space m.kind) "virtual" || has_type m "online"

-- IsPhysicalEducationFacility
unfoldable pub is_physical_education_facility : LocationMeta → Bool
unfolding has_type
is_physical_education_facility m = has_type m "gym" || has_type m "pool"

-- a missing entry of the map reads as the zero value
abbrev pub no_meta : LocationMeta
no_meta = record { id = pos 0; campus_id = none; campus_name = ""; kind = ""; type_codes = "" }

unfoldable pub meta_of : List (ℤ × LocationMeta) → ℤ → LocationMeta
meta_of metas id = elim (lookup id metas) [ none ↦ no_meta | some m ↦ m ]
