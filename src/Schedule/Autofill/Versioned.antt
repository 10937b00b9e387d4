-- ===== src/Schedule/Autofill/Versioned.antt =====
-- What AutofillLocations reads before its transaction, and what the reading of the system state and
-- the new version change (Service).
use ispo_shedule_backend.Prelude.{
  ℤ, String, Bool, true, false, ◌≡◌, Option, some, List, [], string_eq, nat_eq, pair_eq, int_eq,
  keys, refl, sym, subst, ◌∙◌, ap, inl, inr,
}
use ispo_shedule_backend.Prelude.Results.{ok}
use ispo_shedule_backend.Prelude.Transaction.{
  and_then-ok, pure-ok, reject_if-ok, then_call-ok, atomic-ok, call-ok,
}
use ispo_shedule_backend.Schedule.Models.{Time}
use ispo_shedule_backend.Schedule.SystemState.{get_system_state-Answered}
use ispo_shedule_backend.Schedule.Rooms.Reassigned.{HasKeys}
use ispo_shedule_backend.Schedule.Store.{Tables, Database, IsDatabase}
use ispo_shedule_backend.Schedule.Rooms.Free.{query-ok}
use ispo_shedule_backend.Schedule.Lessons.Normalize.{date_only}
use ispo_shedule_backend.Schedule.Autofill.Defs.{
  LocationAutofillRequest, LocationAutofillResponse, autofill_slot_eq, AutofillQueries,
  occupied_location_slots, location_ids,
}
use ispo_shedule_backend.Schedule.Autofill.Service.{
  AutofillRows, read_version, renew_version, read_autofill,
}
use ispo_shedule_backend.Schedule.Autofill.Written.{rows_besides, OnlyPlaces}

-- Nothing but a missing row of the system state is written.
pub record OnlyVersioned (before after : Tables) : Type 0 where
  pub tables : after ≡ record before { schedule_version = after.schedule_version }
  pub kept :
      (v : Time)
      → before.schedule_version ≡ some v
      → after.schedule_version ≡ before.schedule_version

pub versioned-OnlyPlaces :
    (ids : List ℤ) (before middle after : Tables) (v : Option Time)
    → after ≡ record middle { schedule_version = v }
    → OnlyPlaces ids before middle
    → OnlyPlaces ids before after
versioned-OnlyPlaces ids before middle after v e p =
    subst (OnlyPlaces ids before) (sym e)
      (record { lessons = p.lessons; others_kept = p.others_kept; keys = p.keys })

pub OnlyVersioned-placed :
    (ids : List ℤ) (a b c : Tables)
    → OnlyVersioned a b
    → HasKeys a.room_assignments
    → (HasKeys b.room_assignments → OnlyPlaces ids b c)
    → OnlyPlaces ids a c
OnlyVersioned-placed ids a b c h keys rest =
    let rows : b.room_assignments ≡ a.room_assignments = ap (λ u. u.room_assignments) h.tables in
    let p = rest (subst HasKeys (sym rows) keys) in
    record {
      lessons = p.lessons ∙ ap (λ u. u.lessons) h.tables;
      others_kept = p.others_kept ∙ ap (rows_besides ids) rows;
      keys = p.keys;
    }

module _ (db : Database) (law : IsDatabase db) (q : AutofillQueries) where
  pub read_version-OnlyVersioned :
      (now : Time) (s t : db.State) (text : String)
      → read_version db q now s ≡ ok (text, t)
      → OnlyVersioned (db.tables s) (db.tables t)
  unfolding read_version
  read_version-OnlyVersioned now s t text h =
      let (version, u, read, h₁) = and_then-ok _ _ h in
      let (_, e) = pure-ok _ _ _ _ h₁ in
      elim (get_system_state-Answered db law now version s u read) [
        | inl (found, same) ↦
            subst (λ k. OnlyVersioned (db.tables s) (db.tables k)) (sym same ∙ e)
              (record { tables = refl; kept = λ v p. refl })
        | inr (missing, made) ↦
            subst (λ k. OnlyVersioned (db.tables s) (db.tables k)) e
              (record {
                tables =
                    made
                    ∙ ap (λ v. record (db.tables s) { schedule_version = v })
                        (sym (ap (λ k. k.schedule_version) made));
                kept = λ v p. cc (sym missing ∙ p);
              })
      ]

  -- the version is written, and nothing else
  pub renew_version-OnlyPlaces :
      (now : Time) (ids : List ℤ) (before : Tables) (written out : LocationAutofillResponse)
      (bump : Bool) (s u : db.State)
      → renew_version db q now written bump s ≡ (ok out, u)
      → OnlyPlaces ids before (db.tables s)
      → OnlyPlaces ids before (db.tables u)
        × (record written { data_version = out.data_version } ≡ out)
  unfolding renew_version
  renew_version-OnlyPlaces now ids before written out true s u h p =
      let (_, v, bumped, h₁) = then_call-ok _ _ h in
      let (version, same) = law.bump_version_ok s v (atomic-ok db.bump_version s v bumped) in
      let (data_version, w, read, h₂) = then_call-ok _ _ h₁ in
      let only =
        read_version-OnlyVersioned now v w data_version
          (atomic-ok (read_version db q now) v w read) in
      let (e, f) = call-ok _ _ _ _ h₂ in
      (
        subst (λ k. OnlyPlaces ids before (db.tables k)) f
            (versioned-OnlyPlaces ids before (db.tables v) (db.tables w) _ only.tables
              (versioned-OnlyPlaces ids before (db.tables s) (db.tables v) version same p)),
        subst (λ o. record written { data_version = o.data_version } ≡ o) e refl,
      )
  renew_version-OnlyPlaces now ids before written out false s u h p =
      let (e, f) = call-ok _ _ _ _ h in
      (
        subst (λ k. OnlyPlaces ids before (db.tables k)) f p,
        subst (λ o. record written { data_version = o.data_version } ≡ o) e refl,
      )

  -- what the call reads before the system state
  pub read_autofill-ok :
      (req : LocationAutofillRequest) (read : AutofillRows) (s t : db.State)
      → read_autofill db q req s ≡ ok (read, t)
      → (read.rows ≡ q.lesson_views (db.tables s) req.group_id req.start_date.day req.end_date.day)
        × (read.metas ≡ q.location_metas (db.tables s) (location_ids [] read.rows))
        × (read.occupied
            ≡ occupied_location_slots (db.tables s) req.start_date.day req.end_date.day)
        × (t ≡ s)
  unfolding read_autofill date_only
  read_autofill-ok req read s t h =
      let (_, s₁, p₁, h₁) = and_then-ok _ _ h in
      let (_, e₁) = reject_if-ok _ _ s s₁ p₁ in
      let (_, s₂, p₂, h₂) = and_then-ok _ _ h₁ in
      let (_, e₂) = reject_if-ok _ _ s₁ s₂ p₂ in
      let (_, s₃, p₃, h₃) = and_then-ok _ _ h₂ in
      let (_, e₃) = reject_if-ok _ _ s₂ s₃ p₃ in
      let (rows, s₄, p₄, h₄) = and_then-ok _ _ h₃ in
      let (r₄, e₄) = query-ok db _ s₃ s₄ rows p₄ in
      let (metas, s₅, p₅, h₅) = and_then-ok _ _ h₄ in
      let (r₅, e₅) = query-ok db _ s₄ s₅ metas p₅ in
      let (occupied, s₆, p₆, h₆) = and_then-ok _ _ h₅ in
      let (r₆, e₆) = query-ok db _ s₅ s₆ occupied p₆ in
      let (e, f) = pure-ok _ _ _ _ h₆ in
      let a₃ : s₃ ≡ s = e₃ ∙ e₂ ∙ e₁ in
      let a₄ : s₄ ≡ s = e₄ ∙ a₃ in
      let a₅ : s₅ ≡ s = e₅ ∙ a₄ in
      (
        sym (ap (λ r. r.rows) e)
            ∙ r₄
            ∙ ap
                (λ k. q.lesson_views (db.tables k) req.group_id req.start_date.day req.end_date.day)
                a₃,
        sym (ap (λ r. r.metas) e)
            ∙ r₅
            ∙ ap (λ k. q.location_metas (db.tables k) (location_ids [] rows)) a₄
            ∙ ap (λ l. q.location_metas (db.tables s) (location_ids [] l)) (ap (λ r. r.rows) e),
        sym (ap (λ r. r.occupied) e)
            ∙ r₆
            ∙ ap (λ k. occupied_location_slots (db.tables k) req.start_date.day req.end_date.day)
                a₅,
        sym f ∙ e₆ ∙ a₅,
      )
