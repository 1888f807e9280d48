-- ===== src/Flow/Decide.antt =====
-- internal/flow/decision.go: what a hook asks for, and how two such wishes are merged.
use sniffy.Common.{ℕ, [], Option, none, some, ltb, if◌then◌else◌}
use sniffy.Common.Int.{ℤ, pos}
use sniffy.Common.Bytes.{Text}
use sniffy.Flow.Types.{Phase}

pub data DecisionKind : Type 0 where
  continue mock abort breakpoint : DecisionKind

pub record Decision : Type 0 where
  pub kind : DecisionKind
  pub status_on_abort : ℤ
  pub reason : Text
  pub breakpoint_on : Option Phase

unfoldable pub continue_decision : Decision
continue_decision = record {
  kind = continue;
  status_on_abort = pos 0;
  reason = [];
  breakpoint_on = none;
}

unfoldable pub mock_decision : Text → Decision
mock_decision reason = record {
  kind = mock;
  status_on_abort = pos 0;
  reason = reason;
  breakpoint_on = none;
}

unfoldable pub abort_decision : ℤ → Text → Decision
abort_decision status reason = record {
  kind = abort;
  status_on_abort = status;
  reason = reason;
  breakpoint_on = none;
}

unfoldable pub breakpoint_decision : Phase → Text → Decision
breakpoint_decision phase reason = record {
  kind = breakpoint;
  status_on_abort = pos 0;
  reason = reason;
  breakpoint_on = some phase;
}

unfoldable pub priority : DecisionKind → ℕ
priority abort = 3
priority mock = 2
priority breakpoint = 1
priority continue = 0

-- `Merge`.
unfoldable pub merge : Decision → Decision → Decision
unfolding priority
merge acc next = if ltb (priority acc.kind) (priority next.kind) then next else acc
