-- ===== src/Schedule/Dictionaries.antt =====
-- internal/schedule/repository_rooms.go: the dictionaries that rooms are chosen from, with their
-- normalizations.
use ispo_shedule_backend.Prelude.{
  ℤ, pos, String, Bool, true, false, not, ◌||◌, ◌≡◌, ◌≢◌, ◌⊎◌, inl, inr, refl, sym, ap, subst,
  Option, none, some, [], ◌∷◌, ◌==◌, string_eq, is_positive, if◌then◌else◌, contains, arith, eq_iff,
}
use ispo_shedule_backend.Prelude.Text.{trim_space, to_lower, trim_space-trim_space}
use ispo_shedule_backend.Prelude.Results.{
  Result, ok, err, ◌>>=◌, ◌>>◌, reject_if, >>=-eq-ok, ok_inj,
}
use ispo_shedule_backend.Schedule.Models.{Time}
use ispo_shedule_backend.Schedule.Errors.{Error, message}
mod Tests

pub record Location : Type 0 where
  pub id : ℤ
  pub campus_id : Option ℤ
  pub name : String
  pub kind : String
  pub capacity : Option ℤ
  pub is_active : Bool

pub record Campus : Type 0 where
  pub id : ℤ
  pub name : String
  pub address : Option String

pub record LocationType : Type 0 where
  pub id : ℤ
  pub code : String
  pub name : String

pub record TeacherLocationPreference : Type 0 where
  pub id : ℤ
  pub teacher_id : ℤ
  pub location_id : ℤ
  pub priority : ℤ
  pub valid_from : Option Time
  pub valid_to : Option Time
  pub comment : Option String

pub record RoomRequest : Type 0 where
  pub id : ℤ
  pub teacher_id : Option ℤ
  pub subject_id : Option ℤ
  pub group_id : Option ℤ
  pub semester : Option ℤ
  pub required_type_id : Option ℤ
  pub preferred_location_id : Option ℤ
  pub priority : ℤ
  pub comment : Option String
  pub status : String

unfoldable pub known_kind : String → Result Error String
known_kind lower =
    let chosen = if lower == "" then "physical" else lower in
    if contains chosen ("physical" ∷ "virtual" ∷ [])
    then ok chosen
    else err (message "kind must be physical or virtual")

-- normalizeLocation
unfoldable pub normalize_location : Location → Result Error Location
normalize_location row = do
  reject_if (trim_space row.name == "") (message "name required")
  kind ← known_kind (to_lower (trim_space row.kind))
  ok (record row { name = trim_space row.name; kind = kind })

-- normalizeCampus
unfoldable pub normalize_campus : Campus → Result Error Campus
normalize_campus row = do
  reject_if (trim_space row.name == "") (message "name required")
  ok (record row { name = trim_space row.name })

-- normalizeLocationType
unfoldable pub normalize_location_type : LocationType → Result Error LocationType
normalize_location_type row = do
  reject_if (to_lower (trim_space row.code) == "" || trim_space row.name == "")
      (message "code and name required")
  ok (record row { code = to_lower (trim_space row.code); name = trim_space row.name })

abbrev pub priority_or_default : ℤ → ℤ
priority_or_default p = if is_positive p then p else pos 100

-- normalizePreference
unfoldable pub normalize_preference :
    TeacherLocationPreference → Result Error TeacherLocationPreference
normalize_preference row = do
  reject_if (not (is_positive row.teacher_id) || not (is_positive row.location_id))
      (message "teacher_id and location_id required")
  ok (record row { priority = priority_or_default row.priority })

unfoldable pub known_request_status : String → Result Error String
known_request_status lower =
    let chosen = if lower == "" then "pending" else lower in
    if contains chosen ("pending" ∷ "approved" ∷ "rejected" ∷ "cancelled" ∷ [])
    then ok chosen
    else err (message "invalid room request status")

-- normalizeRoomRequest
unfoldable pub normalize_room_request : RoomRequest → Result Error RoomRequest
normalize_room_request row = do
  status ← known_request_status (to_lower (trim_space row.status))
  ok (record row { priority = priority_or_default row.priority; status = status })

abbrev pub IsKind : String → Type 0
IsKind s = (s ≡ "physical") ⊎ (s ≡ "virtual")

abbrev pub IsRequestStatus : String → Type 0
IsRequestStatus s = (s ≡ "pending") ⊎ (s ≡ "approved") ⊎ (s ≡ "rejected") ⊎ (s ≡ "cancelled")

request_status : (lower out : String) → known_request_status lower ≡ ok out → IsRequestStatus out
unfolding known_request_status
request_status lower out h = ground (
  arith,
  eq_iff lower "pending",
  eq_iff lower "approved",
  eq_iff lower "rejected",
  eq_iff lower "cancelled",
)

KeepsStatus : String → Type 0
KeepsStatus s = known_request_status (to_lower (trim_space s)) ≡ ok s

status_fixed : (s : String) → IsRequestStatus s → KeepsStatus s
unfolding KeepsStatus known_request_status trim_space to_lower
status_fixed s (inl p) = subst KeepsStatus (sym p) refl
status_fixed s (inr (inl p)) = subst KeepsStatus (sym p) refl
status_fixed s (inr (inr (inl p))) = subst KeepsStatus (sym p) refl
status_fixed s (inr (inr (inr p))) = subst KeepsStatus (sym p) refl

positive_priority : (p : ℤ) → is_positive (priority_or_default p) ≡ true
positive_priority p = ground arith

kept_priority : (p : ℤ) → priority_or_default (priority_or_default p) ≡ priority_or_default p
kept_priority p = ground arith

-- An accepted room request has a known status and a positive priority, and normalizing it again
-- changes nothing.
pub normalize_room_request-normalize_room_request :
    (row out : RoomRequest)
    → normalize_room_request row ≡ ok out
    → IsRequestStatus out.status
      × (is_positive out.priority ≡ true)
      × (normalize_room_request out ≡ ok out)
unfolding normalize_room_request KeepsStatus
normalize_room_request-normalize_room_request row out h =
    let (status, p, h₁) = >>=-eq-ok _ _ h in
    let good = request_status _ status p in
    let fixed : KeepsStatus status = status_fixed status good in
    let final : RoomRequest = record row {
      priority = priority_or_default row.priority;
      status = status;
    } in
    subst
      (λ o.
        IsRequestStatus o.status
        × (is_positive o.priority ≡ true)
        × (normalize_room_request o ≡ ok o))
      (ok_inj h₁)
      (good, positive_priority row.priority, rw (fixed, kept_priority row.priority) refl)
