-- ===== src/Schedule/Views/Order.antt =====
-- The order of sortScheduleViewLessons (Defs).
use ispo_shedule_backend.Prelude.{string_eq, nat_eq, int_eq, int_beq_iff, eq_iff, arith}
use ispo_shedule_backend.Prelude.TextOrder.{string_ltb-asym, string_ltb_trans, string_ltb-total}
use ispo_shedule_backend.Prelude.Sorting.{IsWeakOrder}
use ispo_shedule_backend.Schedule.Views.Defs.{view_before}

pub view_before-IsWeakOrder : IsWeakOrder view_before
view_before-IsWeakOrder = record {
  asym = λ a b h. ground (
    arith,
    int_beq_iff a.pair_number b.pair_number,
    int_beq_iff b.pair_number a.pair_number,
    eq_iff a.group_name b.group_name,
    eq_iff b.group_name a.group_name,
    string_ltb-asym a.group_name b.group_name,
  );
  trans = λ a b c h k. ground (
    arith,
    int_beq_iff a.pair_number b.pair_number,
    int_beq_iff b.pair_number a.pair_number,
    int_beq_iff b.pair_number c.pair_number,
    int_beq_iff c.pair_number b.pair_number,
    int_beq_iff a.pair_number c.pair_number,
    int_beq_iff c.pair_number a.pair_number,
    eq_iff a.group_name b.group_name,
    eq_iff b.group_name a.group_name,
    eq_iff b.group_name c.group_name,
    eq_iff c.group_name b.group_name,
    eq_iff a.group_name c.group_name,
    eq_iff c.group_name a.group_name,
    string_ltb_trans a.group_name b.group_name c.group_name,
    string_ltb-total a.group_name b.group_name,
    string_ltb-total b.group_name a.group_name,
    string_ltb-total b.group_name c.group_name,
  );
}
