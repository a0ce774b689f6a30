-- ===== src/Plat/Beside.antt =====
-- The functions of lib/plat/plat.h on a device with further parts, which they do not touch.
use mcu_sdk.Plat.{Book, Counters, CounterLaws}

-- A function of one part, on the whole.
abbrev pub on_part : {S E A : Type 0} → (S → A × S) → S × E → A × (S × E)
on_part f (s, e) = let (a, s') = f s in (a, (s', e))

abbrev pub beside : Counters → Type 0 → Counters
beside c E = record {
  Dev = c.Dev × E;
  applied_counter = on_part c.applied_counter;
  pending_counter = on_part c.pending_counter;
  failed_counter = on_part c.failed_counter;
  attempted_version = λ cap. on_part (c.attempted_version cap);
  store_counter = λ v. on_part (c.store_counter v);
  store_pending = λ v. on_part (c.store_pending v);
  store_failed = λ v. on_part (c.store_failed v);
  store_attempted_version = λ s. on_part (c.store_attempted_version s);
  clear_pending = on_part c.clear_pending;
  clear_failed = on_part c.clear_failed;
  clear_attempted_version = on_part c.clear_attempted_version;
}

pub beside-CounterLaws :
    (c : Counters) (E : Type 0) (book : c.Dev → Book)
    → CounterLaws c book
    → CounterLaws (beside c E) (λ d. book d.0)
beside-CounterLaws c E book laws = record {
  applied_lem = λ d. laws.applied_lem d.0;
  pending_lem = λ d. laws.pending_lem d.0;
  failed_lem = λ d. laws.failed_lem d.0;
  attempted_lem = λ cap h d. laws.attempted_lem cap h d.0;
  store_counter_lem = λ v h d. laws.store_counter_lem v h d.0;
  store_pending_lem = λ v h d. laws.store_pending_lem v h d.0;
  store_failed_lem = λ v h d. laws.store_failed_lem v h d.0;
  store_attempted_lem = λ s d. laws.store_attempted_lem s d.0;
  clear_pending_lem = λ d. laws.clear_pending_lem d.0;
  clear_failed_lem = λ d. laws.clear_failed_lem d.0;
  clear_attempted_lem = λ d. laws.clear_attempted_lem d.0;
}
