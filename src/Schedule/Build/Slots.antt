-- ===== src/Schedule/Build/Slots.antt =====
-- The slots of a day that buildDays fills (Defs): which row a slot keeps, and why the order in which
-- `range` goes through the map does not matter.
use ispo_shedule_backend.Prelude.{
  ℕ, ℤ, pos, negsuc, true, false, ◌&&◌, ◌||◌, ◌≡◌, ◌≢◌, Option, none, some, List, [], ◌∷◌, ◌++◌,
  map, ◌==◌, string_eq, nat_eq, int_eq, int_beq_iff, nat_beq_iff, if◌then◌else◌, ltb_ℤ, ◌≤ℤ◌,
  lookup, insert, fall_back, lookup-insert, IsMap, IsMap-insert, Avoids, All-insert, arith, refl,
  sym, ◌∙◌, ap, inl, inr, All, Bool-cases,
}
use mathlib.Core.List.{Permᴰ}
use mathlib.Core.List.Permᴰ as Perm
use ispo_shedule_backend.Prelude.Sorting.{IsStrict, IsWeakOrder, stable_sort-forgets}
use ispo_shedule_backend.Schedule.Models.{Lesson}
use ispo_shedule_backend.Schedule.Build.Defs.{
  ScheduleLessonView, SlotKey, slot_eq, slot_of, subgroup_key, Slots, or_empty, slots_on, put_row,
  put_rows, order_key, lesson_before, lesson_of, lesson_from_schedule_lesson_view, day_lessons,
}

-- The last of the rows for a slot of a day.
unfoldable pub last_row : ℕ → SlotKey → List ScheduleLessonView → Option ScheduleLessonView
unfolding fall_back
last_row day slot [] = none
last_row day slot (r ∷ rows) =
    fall_back (last_row day slot rows)
      (if r.lesson_date.day == day && slot_of r == slot then some r else none)

pub slots_on-insert :
    (key day : ℕ) (slots : Slots) (by_day : List (ℕ × Slots))
    → slots_on day (insert key slots by_day) ≡ (if key == day then slots else slots_on day by_day)
unfolding slots_on
slots_on-insert key day slots by_day =
    ap or_empty (lookup-insert key day slots by_day) ∙ ground arith

lookup-put_row :
    (day : ℕ) (slot : SlotKey) (by_day : List (ℕ × Slots)) (r : ScheduleLessonView)
    → lookup slot (slots_on day (put_row by_day r)) ≡ (
        if r.lesson_date.day == day && slot_of r == slot
        then some r
        else lookup slot (slots_on day by_day))
unfolding put_row
lookup-put_row day slot by_day r = ground (
  arith,
  slots_on-insert r.lesson_date.day day (insert (slot_of r) r (slots_on r.lesson_date.day by_day))
      by_day,
  lookup-insert (slot_of r) slot r (slots_on r.lesson_date.day by_day),
  nat_beq_iff r.lesson_date.day day,
)

lookup-put_rows :
    (day : ℕ) (slot : SlotKey) (by_day : List (ℕ × Slots)) (rows : List ScheduleLessonView)
    → lookup slot (slots_on day (put_rows by_day rows))
      ≡ fall_back (last_row day slot rows) (lookup slot (slots_on day by_day))
unfolding put_rows last_row fall_back
lookup-put_rows day slot by_day [] = refl
lookup-put_rows day slot by_day (r ∷ rows) =
    ground
      (arith, lookup-put_rows day slot (put_row by_day r) rows, lookup-put_row day slot by_day r)

last_row-append :
    (day : ℕ) (slot : SlotKey) (base own : List ScheduleLessonView)
    → last_row day slot (base ++ own) ≡ fall_back (last_row day slot own) (last_row day slot base)
unfolding last_row fall_back
last_row-append day slot [] own = ground arith
last_row-append day slot (r ∷ base) own = ground (arith, last_row-append day slot base own)

-- rows put later win
pub put_rows-last_row :
    (day : ℕ) (slot : SlotKey) (base own : List ScheduleLessonView)
    → lookup slot (slots_on day (put_rows [] (base ++ own)))
      ≡ fall_back (last_row day slot own) (last_row day slot base)
unfolding lookup fall_back slots_on
put_rows-last_row day slot base own =
    lookup-put_rows day slot [] (base ++ own) ∙ ground (arith, last_row-append day slot base own)

pub lesson_before-IsWeakOrder : IsWeakOrder lesson_before
lesson_before-IsWeakOrder = record {
  asym = λ a b h.
      ground
        (arith, int_beq_iff a.pair_number b.pair_number, int_beq_iff b.pair_number a.pair_number);
  trans = λ a b c h k. ground (
    arith,
    int_beq_iff a.pair_number b.pair_number,
    int_beq_iff b.pair_number a.pair_number,
    int_beq_iff b.pair_number c.pair_number,
    int_beq_iff c.pair_number b.pair_number,
    int_beq_iff a.pair_number c.pair_number,
    int_beq_iff c.pair_number a.pair_number,
  );
}

-- What the table allows of a subgroup: none, 1 or 2. Only the lower bound is needed.
abbrev pub IsSubgroup : Option ℤ → Type 0
IsSubgroup none = Unit
IsSubgroup (some s) = pos 1 ≤ℤ s

-- An entry stands under the key of its row.
abbrev pub IsKeyed : SlotKey × ScheduleLessonView → Type 0
IsKeyed (k, r) = (k ≡ slot_of r) × IsSubgroup r.subgroup

abbrev Comparable : Lesson → Lesson → Type 0
Comparable a b = (lesson_before a b || lesson_before b a) ≡ true

ltb_ℤ-total : (a b : ℤ) → a ≢ b → (ltb_ℤ a b || ltb_ℤ b a) ≡ true
ltb_ℤ-total (pos a) (pos b) n = ground arith
ltb_ℤ-total (pos a) (negsuc b) n = ground arith
ltb_ℤ-total (negsuc a) (pos b) n = ground arith
ltb_ℤ-total (negsuc a) (negsuc b) n = ground arith

order_key-inj :
    (a b : Option ℤ)
    → IsSubgroup a
    → IsSubgroup b
    → order_key a ≡ order_key b
    → subgroup_key a ≡ subgroup_key b
unfolding subgroup_key
order_key-inj none none h k e = refl
order_key-inj none (some s) h k e = ground (arith, k, e)
order_key-inj (some s) none h k e = ground (arith, h, e)
order_key-inj (some s) (some t) h k e = e

before_total :
    (a b : ScheduleLessonView)
    → IsSubgroup a.subgroup
    → IsSubgroup b.subgroup
    → slot_of a ≢ slot_of b
    → Comparable (lesson_from_schedule_lesson_view a) (lesson_from_schedule_lesson_view b)
unfolding lesson_from_schedule_lesson_view
before_total a b h k n = elim (Bool-cases (a.pair_number == b.pair_number)) [
  | inl same ↦
      let p : a.pair_number ≡ b.pair_number = (int_beq_iff a.pair_number b.pair_number).0 same in
      let q : b.pair_number == a.pair_number ≡ true =
        (int_beq_iff b.pair_number a.pair_number).1 (sym p) in
      rw (same, q)
        (ltb_ℤ-total (order_key a.subgroup) (order_key b.subgroup) (λ e. n (λ i. record {
          pair_number = p i;
          subgroup = order_key-inj a.subgroup b.subgroup h k e i;
        })))
  | inr other ↦ ground (
    arith,
    other,
    int_beq_iff a.pair_number b.pair_number,
    int_beq_iff b.pair_number a.pair_number,
    ltb_ℤ-total a.pair_number b.pair_number,
  )
]

before_slots :
    (k : SlotKey) (a : ScheduleLessonView) (slots : Slots)
    → IsKeyed (k, a)
    → All IsKeyed slots
    → Avoids k slots
    → All (Comparable (lesson_of (k, a))) (map lesson_of slots)
before_slots k a [] p h n = tt
before_slots k a ((j, b) ∷ slots) p h n = (
  before_total a b p.1 h.0.1 (λ e. n.0 (h.0.0 ∙ sym e ∙ sym p.0)),
  before_slots k a slots p h.1 n.1,
)

pub lessons-IsStrict :
    (slots : Slots) → IsMap slots → All IsKeyed slots → IsStrict lesson_before (map lesson_of slots)
lessons-IsStrict [] m h = tt
lessons-IsStrict ((k, a) ∷ slots) m h =
    (before_slots k a slots h.0 h.1 m.0, lessons-IsStrict slots m.1 h.1)

-- What put_rows keeps to on every day.
abbrev pub IsSlots : Slots → Type 0
IsSlots slots = IsMap slots × All IsKeyed slots

put_row-IsSlots :
    (by_day : List (ℕ × Slots)) (r : ScheduleLessonView)
    → IsSubgroup r.subgroup
    → ((day : ℕ) → IsSlots (slots_on day by_day))
    → (day : ℕ) → IsSlots (slots_on day (put_row by_day r))
unfolding put_row
put_row-IsSlots by_day r p h day =
    let at_day : ℕ = r.lesson_date.day in
    let new : Slots = insert (slot_of r) r (slots_on at_day by_day) in
    let good : IsSlots new = (
      IsMap-insert (slot_of r) r (slots_on at_day by_day) (h at_day).0,
      All-insert IsKeyed (slot_of r) r (slots_on at_day by_day) (refl, p) (h at_day).1,
    ) in
    rw (slots_on-insert at_day day new by_day)
      (elim (at_day == day) as (λ b. IsSlots (if b then new else slots_on day by_day)) [
        | true ↦ good
        | false ↦ h day
      ])

pub put_rows-IsSlots :
    (by_day : List (ℕ × Slots)) (rows : List ScheduleLessonView)
    → All (λ r. IsSubgroup r.subgroup) rows
    → ((day : ℕ) → IsSlots (slots_on day by_day))
    → (day : ℕ) → IsSlots (slots_on day (put_rows by_day rows))
unfolding put_rows
put_rows-IsSlots by_day [] p h day = h day
put_rows-IsSlots by_day (r ∷ rows) p h day =
    put_rows-IsSlots (put_row by_day r) rows p.1 (put_row-IsSlots by_day r p.0 h) day

-- The lessons of a day do not depend on the order in which Go goes through the map of its slots:
-- however the entries are rearranged, the sort gives one and the same list.
pub day_lessons-forgets :
    (day : ℕ) (rows : List ScheduleLessonView) (slots : Slots)
    → All (λ r. IsSubgroup r.subgroup) rows
    → Permᴰ (slots_on day (put_rows [] rows)) slots
    → day_lessons slots ≡ day_lessons (slots_on day (put_rows [] rows))
unfolding day_lessons slots_on lookup
day_lessons-forgets day rows slots p order =
    let good = put_rows-IsSlots [] rows p (λ _. (tt, tt)) day in
    sym (
      stable_sort-forgets lesson_before lesson_before-IsWeakOrder (Perm.map lesson_of order)
        (lessons-IsStrict _ good.0 good.1))
