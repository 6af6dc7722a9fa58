-- ===== src/Tracing/Ids.antt =====
-- When the identifiers of src/tracing/mod.rs differ.
use rust_network_system.Base.{
  ℕ, zero, suc, ◌+◌, ◌%◌, ◌<◌, ◌≡◌, refl, sym, ap, ◌∙◌, ◌↔◌, ◌≢◌, some, ◌++◌, arith, add_u64,
  u64_mod, drop,
}
use rust_network_system.Hex.{Text, hex, hex_injective}
use rust_network_system.Tracing.{
  generate_trace_id, generate_span_id, new, child_span, trace_prefix, span_prefix,
}

-- The id of the trace that comes after `k` others, from a counter on.
unfoldable pub trace_id_after : (k counter : ℕ) → Text
unfolding generate_trace_id
trace_id_after zero counter = (generate_trace_id counter).0
trace_id_after (suc k) counter = trace_id_after k (generate_trace_id counter).1

-- The counter behind those.
counter_after : ℕ → ℕ → ℕ
counter_after zero counter = counter
counter_after (suc k) counter = counter_after k (add_u64 counter 1)

counter_after_lem :
    (k counter : ℕ) → counter < u64_mod → counter_after k counter ≡ (counter + k) % u64_mod
unfolding counter_after add_u64
counter_after_lem zero counter h = omega (arith, h)
counter_after_lem (suc k) counter h =
    counter_after_lem k (add_u64 counter 1) (omega arith) ∙ omega arith

trace_id_after_lem :
    (k counter : ℕ) → trace_id_after k counter ≡ trace_prefix ++ hex 97 16 (counter_after k counter)
unfolding trace_id_after counter_after generate_trace_id
trace_id_after_lem zero counter = refl
trace_id_after_lem (suc k) counter = trace_id_after_lem k (add_u64 counter 1)

same_count :
    (counter i j : ℕ)
    → counter < u64_mod
    → i < u64_mod
    → j < u64_mod
    → trace_id_after i counter ≡ trace_id_after j counter
    → i ≡ j
same_count counter i j c h k e =
    let texts = sym (trace_id_after_lem i counter) ∙ e ∙ trace_id_after_lem j counter in
    let counters =
      hex_injective 16 (counter_after i counter) (counter_after j counter)
        (omega (arith, counter_after_lem i counter c))
        (omega (arith, counter_after_lem j counter c)) (ap (drop 6) texts) in
    omega (arith, counter_after_lem i counter c, counter_after_lem j counter c, counters)

-- Of 2 ^ 64 traces in a row, from any value of the counter on, no two have the same id.
pub trace_ids_differ :
    (counter i j : ℕ)
    → counter < u64_mod
    → i < u64_mod
    → j < u64_mod
    → i ≢ j
    → trace_id_after i counter ≢ trace_id_after j counter
trace_ids_differ counter i j c h k differ e = differ (same_count counter i j c h k e)

-- A child span is its own parent exactly when the clock reads the same nanosecond, up to multiples of 2 ^ 64, for both
-- spans: nothing else tells them apart. It has its parent's trace in any case.
pub child_own_parent :
    (service_name operation child_operation : Text) (t t' counter counter' : ℕ)
    → let p = (new service_name operation (some t) counter).0 in
      let c = (child_span p child_operation (some t') counter').0 in
      (c.trace_id ≡ p.trace_id)
      × ((c.parent_span_id ≡ some c.span_id) ↔ (t % u64_mod ≡ t' % u64_mod))
unfolding new child_span generate_trace_id generate_span_id
child_own_parent service_name operation child_operation t t' counter counter' =
    (refl, (same_clock, λ e. ap (λ (n : ℕ). some (span_prefix ++ hex 97 16 n)) e))
  where
    same_clock :
        some (span_prefix ++ hex 97 16 (t % u64_mod))
          ≡ some (span_prefix ++ hex 97 16 (t' % u64_mod))
        → t % u64_mod ≡ t' % u64_mod
    same_clock e =
        let texts : span_prefix ++ hex 97 16 (t % u64_mod)
            ≡ span_prefix ++ hex 97 16 (t' % u64_mod) =
          cc in
        hex_injective 16 (t % u64_mod) (t' % u64_mod) (omega arith) (omega arith)
          (ap (drop 5) texts)
