-- ===== src/Schedule/Inheritance.antt =====
-- internal/schedule/service_inheritance.go: scheduleInheritanceChainIDs, over the groups that
-- Repository.GetGroup reads, and what the chain of a group looks like.
use ispo_shedule_backend.Prelude.{
  ℕ, zero, suc, ◌+◌, ◌≤◌, ℤ, String, Bool, true, false, not, ◌||◌, ◌≡◌, ◌≢◌, refl, sym, ap, subst,
  ◌∙◌, Option, none, some, List, [], ◌∷◌, ◌++◌, ◌==◌, int_eq, int_beq_iff, is_positive,
  if◌then◌else◌, contains, length, length-append, arith, Bool-cases, Option-cases, inl, inr,
}
use ispo_shedule_backend.Prelude.Results.{Result, ok, err, ok_inj}
use ispo_shedule_backend.Schedule.Models.{Group}
use ispo_shedule_backend.Schedule.Errors.{Error, message}
mod Tests

abbrev prepend : ℤ → Result Error (List ℤ) → Result Error (List ℤ)
prepend id (err e) = err e
prepend id (ok ids) = ok (id ∷ ids)

-- the loop that reverses
unfoldable pub reverse : List ℤ → List ℤ
reverse [] = []
reverse (id ∷ ids) = reverse ids ++ id ∷ []

abbrev reversed : Result Error (List ℤ) → Result Error (List ℤ)
reversed (err e) = err e
reversed (ok ids) = ok (reverse ids)

-- No id twice.
abbrev pub IsDistinct : List ℤ → Type 0
IsDistinct [] = Unit
IsDistinct (id ∷ ids) = (contains id ids ≡ false) × IsDistinct ids

contains-snoc : (x y : ℤ) (ids : List ℤ) → contains x (ids ++ y ∷ []) ≡ (contains x ids || x == y)
contains-snoc x y [] = ground arith
contains-snoc x y (z ∷ ids) = ground (arith, contains-snoc x y ids)

contains-reverse : (x : ℤ) (ids : List ℤ) → contains x (reverse ids) ≡ contains x ids
unfolding reverse
contains-reverse x [] = refl
contains-reverse x (y ∷ ids) =
    ground (arith, contains-snoc x y (reverse ids), contains-reverse x ids)

IsDistinct-snoc :
    (ids : List ℤ) (y : ℤ) → IsDistinct ids → contains y ids ≡ false → IsDistinct (ids ++ y ∷ [])
IsDistinct-snoc [] y d h = (refl, tt)
IsDistinct-snoc (x ∷ ids) y d h = (
  ground (arith, contains-snoc x y ids, d.0, h, int_beq_iff x y, int_beq_iff y x),
  IsDistinct-snoc ids y d.1 (ground (arith, h)),
)

IsDistinct-reverse : (ids : List ℤ) → IsDistinct ids → IsDistinct (reverse ids)
unfolding reverse
IsDistinct-reverse [] d = tt
IsDistinct-reverse (x ∷ ids) d =
    IsDistinct-snoc (reverse ids) x (IsDistinct-reverse ids d.1) (contains-reverse x ids ∙ d.0)

length-reverse : (ids : List ℤ) → length (reverse ids) ≡ length ids
unfolding reverse
length-reverse [] = refl
length-reverse (x ∷ ids) = omega (arith, length-append (reverse ids) (x ∷ []), length-reverse ids)

module _ (get_group : ℤ → Result Error Group) where
  -- the loop on `depth`, from leaf to base, after `seen`
  unfoldable pub walk : ℕ → List ℤ → Result Error Group → Result Error (List ℤ)
  walk n seen (err e) = err e
  walk zero seen (ok cur) = ok []
  walk (suc n) seen (ok cur) =
      if contains cur.id seen
      then err (message "schedule_source_group_id cycle detected")
      else elim cur.schedule_source_group_id [
        | none ↦ ok (cur.id ∷ [])
        | some source ↦ prepend cur.id (walk n (cur.id ∷ seen) (get_group source))
      ]

  -- scheduleInheritanceChainIDs
  unfoldable pub schedule_inheritance_chain_ids : ℤ → Result Error (List ℤ)
  schedule_inheritance_chain_ids group_id =
      if not (is_positive group_id)
      then err (message "group_id required")
      else reversed (walk 10 [] (get_group group_id))

  -- What a walk that ends well collects.
  record IsWalk (n : ℕ) (seen ids : List ℤ) : Type 0 where
    unseen : (id : ℤ) → contains id seen ≡ true → contains id ids ≡ false
    distinct : IsDistinct ids
    bounded : length ids ≤ n

  prepended :
      (id : ℤ) (r : Result Error (List ℤ)) (ids : List ℤ)
      → prepend id r ≡ ok ids
      → (rest : List ℤ) × (r ≡ ok rest) × (id ∷ rest ≡ ids)
  prepended id (err e) ids h = cc
  prepended id (ok rest) ids h = (rest, refl, ok_inj h)

  longer :
      (n : ℕ) (seen rest : List ℤ) (cur : ℤ)
      → contains cur seen ≡ false
      → IsWalk n (cur ∷ seen) rest
      → IsWalk (suc n) seen (cur ∷ rest)
  longer n seen rest cur new w = record {
    unseen = λ id h. ground (arith, new, h, w.unseen id, int_beq_iff id cur);
    distinct = (w.unseen cur (ground (arith, int_beq_iff cur cur)), w.distinct);
    bounded = let b : length rest ≤ n = w.bounded in omega arith;
  }

  walk-IsWalk :
      (n : ℕ) (seen ids : List ℤ) (start : Result Error Group)
      → walk n seen start ≡ ok ids
      → IsWalk n seen ids
  unfolding walk
  walk-IsWalk n seen ids (err e) h = cc
  walk-IsWalk zero seen ids (ok cur) h =
      subst (IsWalk zero seen) (ok_inj h)
        (record { unseen = λ id k. refl; distinct = tt; bounded = omega arith })
  walk-IsWalk (suc n) seen ids (ok cur) h = elim (Bool-cases (contains cur.id seen)) [
    | inl again ↦ absurd (ground (arith, again))
    | inr new ↦ elim (Option-cases cur.schedule_source_group_id) [
      | inl base ↦
          let e : cur.id ∷ [] ≡ ids = ok_inj (rw (new, base) at h) in
          subst (IsWalk (suc n) seen) e (
            longer n seen [] cur.id new
              (record { unseen = λ id k. refl; distinct = tt; bounded = omega arith }))
      | inr (source, p) ↦
          let h₁ : prepend cur.id (walk n (cur.id ∷ seen) (get_group source)) ≡ ok ids =
            rw (new, p) at h in
          let (rest, run, e) = prepended cur.id _ ids h₁ in
          subst (IsWalk (suc n) seen) e (
            longer n seen rest cur.id new
              (walk-IsWalk n (cur.id ∷ seen) rest (get_group source) run))
    ]
  ]

  walk_head :
      (n : ℕ) (seen ids : List ℤ) (cur : Group)
      → walk (suc n) seen (ok cur) ≡ ok ids
      → (rest : List ℤ) × (ids ≡ cur.id ∷ rest)
  unfolding walk
  walk_head n seen ids cur h = elim (Bool-cases (contains cur.id seen)) [
    | inl again ↦ absurd (ground (arith, again))
    | inr new ↦ elim (Option-cases cur.schedule_source_group_id) [
      | inl base ↦ let e : cur.id ∷ [] ≡ ids = ok_inj (rw (new, base) at h) in ([], sym e)
      | inr (source, p) ↦
          let h₁ : prepend cur.id (walk n (cur.id ∷ seen) (get_group source)) ≡ ok ids =
            rw (new, p) at h in
          let (rest, run, e) = prepended cur.id _ ids h₁ in (rest, sym e)
    ]
  ]

  unreversed :
      (r : Result Error (List ℤ)) (ids : List ℤ)
      → reversed r ≡ ok ids
      → (walked : List ℤ) × (r ≡ ok walked) × (reverse walked ≡ ids)
  unreversed (err e) ids h = cc
  unreversed (ok walked) ids h = (walked, refl, ok_inj h)

  last_id :
      (start : Result Error Group) (group_id : ℤ) (walked : List ℤ)
      → ((g : Group) → start ≡ ok g → g.id ≡ group_id)
      → walk 10 [] start ≡ ok walked
      → (base : List ℤ) × (reverse walked ≡ base ++ group_id ∷ [])
  unfolding reverse walk
  last_id (err e) group_id walked own h = cc
  last_id (ok g) group_id walked own h =
      let (rest, e) = walk_head 9 [] walked g h in
      (reverse rest, ap reverse e ∙ ap (λ i. reverse rest ++ i ∷ []) (own g refl))

  -- If the groups are read by their identifiers, a chain that is returned ends with the requested
  -- group, names no group twice, and has at most ten groups.
  pub schedule_inheritance_chain_ids-IsDistinct :
      (group_id : ℤ) (ids : List ℤ)
      → ((id : ℤ) (g : Group) → get_group id ≡ ok g → g.id ≡ id)
      → schedule_inheritance_chain_ids group_id ≡ ok ids
      → ((base : List ℤ) × (ids ≡ base ++ group_id ∷ [])) × IsDistinct ids × (length ids ≤ 10)
  unfolding schedule_inheritance_chain_ids
  schedule_inheritance_chain_ids-IsDistinct group_id ids own h =
      elim (Bool-cases (is_positive group_id)) [
        | inr bad ↦ absurd (ground (arith, bad))
        | inl good ↦
            let h₁ : reversed (walk 10 [] (get_group group_id)) ≡ ok ids = rw good at h in
            let (walked, run, e) = unreversed _ ids h₁ in
            let w = walk-IsWalk 10 [] walked (get_group group_id) run in
            let (base, last) = last_id (get_group group_id) group_id walked (own group_id) run in
            let b : length walked ≤ 10 = w.bounded in
            (
              (base, sym e ∙ last),
              subst IsDistinct e (IsDistinct-reverse walked w.distinct),
              subst (λ l. length l ≤ 10) e (omega (arith, length-reverse walked)),
            )
      ]
