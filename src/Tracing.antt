-- ===== src/Tracing.antt =====
-- src/tracing/mod.rs: identifiers of traces and spans, their contexts, and the collector. The counter of traces is an
-- argument and a result. The clock is an argument: its nanoseconds since the epoch, or `none` before the epoch.
pub mod Ids
use rust_network_system.Base.{
  ℕ, zero, suc, ◌+◌, ◌-◌, ◌/◌, ◌%◌, Bool, true, false, Option, none, some, List, [], ◌∷◌, ◌++◌,
  add_u64, u64_mod, if◌then◌else◌,
}
use rust_network_system.Hex.{Text, hex}

abbrev trace_prefix : Text
trace_prefix = 116 ∷ 114 ∷ 97 ∷ 99 ∷ 101 ∷ 45 ∷ []

abbrev span_prefix : Text
span_prefix = 115 ∷ 112 ∷ 97 ∷ 110 ∷ 45 ∷ []

-- `TRACE_COUNTER` at the start of the program.
abbrev pub first_trace : ℕ
first_trace = 1

unfoldable pub generate_trace_id : (counter : ℕ) → Text × ℕ
generate_trace_id counter = (trace_prefix ++ hex 97 16 counter, add_u64 counter 1)

unfoldable pub generate_span_id : (clock : Option ℕ) → (counter : ℕ) → Text × ℕ
generate_span_id (some nanos) counter = (span_prefix ++ hex 97 16 (nanos % u64_mod), counter)
generate_span_id none counter = (span_prefix ++ hex 97 16 counter, add_u64 counter 1)

pub record TraceContext : Type 0 where
  pub trace_id : Text
  pub span_id : Text
  pub parent_span_id : Option Text
  pub service_name : Text
  pub operation : Text

unfoldable pub new : (service_name operation : Text) → Option ℕ → ℕ → TraceContext × ℕ
unfolding generate_trace_id generate_span_id
new service_name operation clock counter =
    (let (trace, counter') = generate_trace_id counter in
      let (span, counter'') = generate_span_id clock counter' in
      (
        record {
          trace_id = trace;
          span_id = span;
          parent_span_id = none;
          service_name = service_name;
          operation = operation;
        },
        counter'',
      ))

unfoldable pub child_span : TraceContext → (operation : Text) → Option ℕ → ℕ → TraceContext × ℕ
unfolding generate_span_id
child_span c operation clock counter =
    (let (span, counter') = generate_span_id clock counter in
      (
        record {
          trace_id = c.trace_id;
          span_id = span;
          parent_span_id = some c.span_id;
          service_name = c.service_name;
          operation = operation;
        },
        counter',
      ))

unfoldable pub from_parent :
    (trace_id parent service_name operation : Text) → Option ℕ → ℕ → TraceContext × ℕ
unfolding generate_span_id
from_parent trace_id parent service_name operation clock counter =
    (let (span, counter') = generate_span_id clock counter in
      (
        record {
          trace_id = trace_id;
          span_id = span;
          parent_span_id = some parent;
          service_name = service_name;
          operation = operation;
        },
        counter',
      ))

-- The map of attributes is a list of its entries, at most one for a key.
pub record Span : Type 0 where
  pub context : TraceContext
  pub start_time : ℕ
  pub attributes : List (Text × Text)

unfoldable pub new_span : TraceContext → (now : ℕ) → Span
new_span c now = record { context = c; start_time = now; attributes = [] }

-- `key_equals` is the equality of texts.
unfoldable pub put :
    (key_equals : Text → Text → Bool) → Text → Text → List (Text × Text) → List (Text × Text)
put key_equals key value [] = (key, value) ∷ []
put key_equals key value ((k, v) ∷ rest) =
    (let after = put key_equals key value rest in
      if key_equals k key then (k, value) ∷ rest else ((k, v) ∷ after))

unfoldable pub set_attribute : (Text → Text → Bool) → Span → Text → Text → Span
unfolding put
set_attribute key_equals s key value = record s {
  attributes = put key_equals key value s.attributes;
}

-- Of nanoseconds, the whole milliseconds as a word of 64 bits.
unfoldable pub elapsed_ms : Span → (now : ℕ) → ℕ
elapsed_ms s now = (now - s.start_time) / 1000000 % u64_mod

pub record SpanSummary : Type 0 where
  pub trace_id : Text
  pub span_id : Text
  pub parent_span_id : Option Text
  pub service_name : Text
  pub operation : Text
  pub duration_ms : ℕ
  pub attributes : List (Text × Text)

unfoldable pub end_span : Span → (now : ℕ) → SpanSummary
unfolding elapsed_ms
end_span s now = record {
  trace_id = s.context.trace_id;
  span_id = s.context.span_id;
  parent_span_id = s.context.parent_span_id;
  service_name = s.context.service_name;
  operation = s.context.operation;
  duration_ms = elapsed_ms s now;
  attributes = s.attributes;
}

-- The collector is the list of the spans it has recorded.
unfoldable pub record_span : List SpanSummary → SpanSummary → List SpanSummary
record_span spans s = spans ++ (s ∷ [])

unfoldable pub clear : List SpanSummary → List SpanSummary
clear spans = []
