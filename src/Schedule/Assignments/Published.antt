-- ===== src/Schedule/Assignments/Published.antt =====
-- internal/schedule/repository_teachers.go: what PublishDraftCourseAssignments leaves in the table.
use ispo_shedule_backend.Prelude.{filter-append, filter-filter}
use ispo_shedule_backend.Prelude.{
  ℕ, ℤ, Bool, true, false, not, ◌&&◌, ◌≡◌, refl, sym, ◌∙◌, ap, Option, List, [], ◌∷◌, ◌++◌, map,
  subst, if◌then◌else◌, is_positive, length, filter, any, All, arith,
}
use ispo_shedule_backend.Prelude.Sorting.{All-append}
use ispo_shedule_backend.Prelude.Results.{ok}
use ispo_shedule_backend.Prelude.Transaction.{and_then-ok, reject_if-ok, pure-ok}
use ispo_shedule_backend.Schedule.Models.{
  published, EntityStatus, draft, cancelled, other_status, is_published,
}
use ispo_shedule_backend.Schedule.Assignments.Defs.{
  CourseAssignment, content, AssignmentDb, IsAssignmentDb, is_draft, is_draft_of, same_key,
  is_superseded, published_row, publish_draft_course_assignments,
}

abbrev pub is_kept : ℤ → Option ℤ → List CourseAssignment → CourseAssignment → Bool
is_kept group_id semester rows r =
    not (is_superseded group_id semester rows r) && not (is_draft_of group_id semester r)

abbrev pub IsPublishedCopy : ℤ → Option ℤ → List CourseAssignment → List CourseAssignment → Type 0
IsPublishedCopy group_id semester rows copies =
    map content copies
    ≡ map (λ d. content (published_row d)) (filter (is_draft_of group_id semester) rows)

-- a row that is published has the key of none of the drafts
abbrev pub HasOwnKey : List CourseAssignment → CourseAssignment → Type 0
HasOwnKey drafts r = is_published r.status ≡ true → All (λ d. same_key r d ≡ false) drafts

pub record Published (before after : List CourseAssignment) (group_id : ℤ) (semester : Option ℤ)
    (moved : ℕ) : Type 0 where
  pub group : is_positive group_id ≡ true
  pub copies : List CourseAssignment
  pub copied : IsPublishedCopy group_id semester before copies
  pub rows : after ≡ filter (is_kept group_id semester before) before ++ copies
  pub count : moved ≡ length (filter (is_draft_of group_id semester) before)
  pub no_draft : All (λ r. is_draft_of group_id semester r ≡ false) after
  pub own_keys :
      All
        (HasOwnKey (filter (is_draft_of group_id semester) before))
        (filter (is_kept group_id semester before) before)

module _ {A : Type 0} where
  All-if :
      (P : A → Type 0) (b : Bool) (x : A) (xs : List A)
      → (b ≡ true → P x)
      → All P xs
      → All P (if b then x ∷ xs else xs)
  All-if P true x xs h rest = (h refl, rest)
  All-if P false x xs h rest = rest

  All-filter :
      (P : A → Type 0) (p : A → Bool) (xs : List A)
      → ((x : A) → p x ≡ true → P x)
      → All P (filter p xs)
  All-filter P p [] h = tt
  All-filter P p (x ∷ xs) h = All-if P (p x) x (filter p xs) (h x) (All-filter P p xs h)

  any-filter :
      (p q : A → Bool) (xs : List A)
      → any (λ x. p x && q x) xs ≡ false
      → All (λ x. q x ≡ false) (filter p xs)
  any-filter p q [] h = tt
  any-filter p q (x ∷ xs) h =
      All-if (λ y. q y ≡ false) (p x) x (filter p xs) (λ p_x. ground (arith, h, p_x))
        (any-filter p q xs (ground (arith, h)))

draft_unpublished : (s : EntityStatus) → is_draft s ≡ true → is_published s ≡ false
draft_unpublished draft h = refl
draft_unpublished published h = cc
draft_unpublished cancelled h = refl
draft_unpublished (other_status s) h = refl

published_undrafted : (s : EntityStatus) → s ≡ published → is_draft s ≡ false
published_undrafted s h = rw (h)

module _ (group_id : ℤ) (semester : Option ℤ) where
  abbrev is_in : CourseAssignment → Bool
  is_in = is_draft_of group_id semester

  not_both :
      (rows : List CourseAssignment) (r : CourseAssignment)
      → is_in r ≡ (not (is_superseded group_id semester rows r) && is_in r)
  not_both rows r = ground (arith, draft_unpublished r.status)

  no_copies :
      (copies drafts : List CourseAssignment)
      → map content copies ≡ map (λ d. content (published_row d)) drafts
      → (filter (λ r. not (is_in r)) copies ≡ copies) × All (λ r. is_in r ≡ false) copies
  no_copies [] drafts h = (refl, tt)
  no_copies (c ∷ copies) [] h = cc
  no_copies (c ∷ copies) (d ∷ drafts) h =
      let (same, all_fresh) = no_copies copies drafts cc in
      let fresh : content c ≡ content (published_row d) = cc in
      let out = published_undrafted c.status (ap (λ r. r.status) fresh) in
      (ground (arith, same, out), (ground (arith, out), all_fresh))

  own_key :
      (rows : List CourseAssignment) (r : CourseAssignment)
      → is_kept group_id semester rows r ≡ true
      → HasOwnKey (filter is_in rows) r
  own_key rows r kept public = any-filter is_in (same_key r) rows (ground (arith, kept, public))

  -- the three statements of the transaction, one after the other
  after_publish :
      (rows copies : List CourseAssignment)
      → IsPublishedCopy group_id semester rows copies
      → filter
          (λ r. not (is_in r))
          (filter (λ r. not (is_superseded group_id semester rows r)) rows ++ copies)
        ≡ filter (is_kept group_id semester rows) rows ++ copies
  after_publish rows copies copied =
      let left = filter (λ r. not (is_superseded group_id semester rows r)) rows in
      filter-append (λ r. not (is_in r)) left copies
      ∙ ap (λ l. l ++ filter (λ r. not (is_in r)) copies)
          (filter-filter (λ r. not (is_in r)) (λ r. not (is_superseded group_id semester rows r))
            (is_kept group_id semester rows) rows (λ r. refl))
      ∙ ap (λ l. filter (is_kept group_id semester rows) rows ++ l) (no_copies copies _ copied).0

  drafts_left :
      (rows : List CourseAssignment)
      → filter is_in (filter (λ r. not (is_superseded group_id semester rows r)) rows)
        ≡ filter is_in rows
  drafts_left rows = filter-filter is_in _ is_in rows (not_both rows)

  undrafted :
      (rows copies : List CourseAssignment)
      → IsPublishedCopy group_id semester rows copies
      → All (λ r. is_in r ≡ false) (filter (is_kept group_id semester rows) rows ++ copies)
  undrafted rows copies copied =
      All-append _ (filter (is_kept group_id semester rows) rows) copies
        (All-filter (λ r. is_in r ≡ false) _ rows (λ r kept. ground (arith, kept)))
        (no_copies copies _ copied).1

  conclude :
      (rows left filled after copies : List CourseAssignment) (moved : ℕ)
      → is_positive group_id ≡ true
      → left ≡ filter (λ r. not (is_superseded group_id semester rows r)) rows
      → IsPublishedCopy group_id semester left copies
      → filled ≡ left ++ copies
      → moved ≡ length (filter is_in left)
      → after ≡ filter (λ r. not (is_in r)) filled
      → Published rows after group_id semester moved
  conclude rows left filled after copies moved good e_left fresh e_filled e_moved e_after =
      let same : filter is_in left ≡ filter is_in rows =
        ap (filter is_in) e_left ∙ drafts_left rows in
      let copied : IsPublishedCopy group_id semester rows copies =
        fresh ∙ ap (map (λ d. content (published_row d))) same in
      let e : after ≡ filter (is_kept group_id semester rows) rows ++ copies =
        e_after
        ∙ ap (filter (λ r. not (is_in r))) (e_filled ∙ ap (λ l. l ++ copies) e_left)
        ∙ after_publish rows copies copied in
      record {
        group = good;
        copies = copies;
        copied = copied;
        rows = e;
        count = e_moved ∙ ap length same;
        no_draft = subst (All (λ r. is_in r ≡ false)) (sym e) (undrafted rows copies copied);
        own_keys = All-filter (HasOwnKey (filter is_in rows)) _ rows (own_key rows);
      }

module _ (db : AssignmentDb) (law : IsAssignmentDb db) where
  -- A successful PublishDraftCourseAssignments for a group, whose identifier is positive, and a
  -- semester or all of them: the table has the earlier rows but the drafts in question and the
  -- published rows with the key of one of them, then a published copy of each draft. No such draft
  -- is left, no earlier published row that is left has the key of a draft, and the answer is the
  -- number of the drafts.
  pub publish_draft_course_assignments-Published :
      (group_id : ℤ) (semester : Option ℤ) (s t : db.State) (moved : ℕ)
      → publish_draft_course_assignments db group_id semester s ≡ ok (moved, t)
      → Published (db.assignments s) (db.assignments t) group_id semester moved
  unfolding publish_draft_course_assignments
  publish_draft_course_assignments-Published group_id semester s t moved h =
      let (_, s₁, p₁, h₁) = and_then-ok _ _ h in
      let (good, e₁) = reject_if-ok _ _ s s₁ p₁ in
      let (_, s₂, p₂, h₂) = and_then-ok _ _ h₁ in
      let (n, s₃, p₃, h₃) = and_then-ok _ _ h₂ in
      let (_, s₄, p₄, h₄) = and_then-ok _ _ h₃ in
      let (_, s₅, p₅, h₅) = and_then-ok _ _ h₄ in
      let (same, end) = pure-ok n moved s₅ t h₅ in
      let (a₂, _) = law.delete_where_ok _ s₁ s₂ _ p₂ in
      let (copies, copied, a₃, count) = law.insert_select_ok _ _ s₂ s₃ n p₃ in
      let (a₄, _) = law.delete_where_ok _ s₃ s₄ _ p₄ in
      let start = ap db.assignments e₁ in
      conclude group_id semester (db.assignments s) (db.assignments s₂) (db.assignments s₃)
        (db.assignments t) copies moved (ground (arith, good))
        (a₂ ∙ ap (λ rows. filter (λ r. not (is_superseded group_id semester rows r)) rows) start)
        copied a₃ (sym same ∙ count) (ap db.assignments (sym end) ∙ law.commit_ok s₄ s₅ p₅ ∙ a₄)
