-- ===== src/Schedule/Inheritance/Tests.antt =====
-- internal/schedule/service_inheritance.go: the chain of a group that takes its schedule from another.
use ispo_shedule_backend.Prelude.{
  ◌≤◌, ℤ, pos, ◌≡◌, refl, none, some, List, [], ◌∷◌, ◌++◌, ◌==◌, int_eq, if◌then◌else◌, length,
}
use ispo_shedule_backend.Prelude.Results.{Result, ok}
use ispo_shedule_backend.Schedule.Models.{Group}
use ispo_shedule_backend.Schedule.Errors.{Error}
use ispo_shedule_backend.Schedule.Inheritance.{
  reverse, walk, schedule_inheritance_chain_ids, IsDistinct,
  schedule_inheritance_chain_ids-IsDistinct,
}

-- Group 2 takes its schedule from group 1.
abbrev groups : ℤ → Result Error Group
groups id = ok (record {
  id = id;
  name = "";
  course = pos 1;
  schedule_source_group_id = if id == pos 2 then some (pos 1) else none;
  curriculum_id = none;
  admission_year = none;
  specialty_id = none;
})

chain : schedule_inheritance_chain_ids groups (pos 2) ≡ ok (pos 1 ∷ pos 2 ∷ [])
unfolding reverse walk schedule_inheritance_chain_ids
chain = refl

schedule_inheritance_chain_ids-IsDistinct_example :
    ((base : List ℤ) × (pos 1 ∷ pos 2 ∷ [] ≡ base ++ pos 2 ∷ []))
    × IsDistinct (pos 1 ∷ pos 2 ∷ [])
    × (length (pos 1 ∷ pos 2 ∷ []) ≤ 10)
schedule_inheritance_chain_ids-IsDistinct_example =
    schedule_inheritance_chain_ids-IsDistinct groups (pos 2) (pos 1 ∷ pos 2 ∷ []) (λ id g h. cc)
      chain
