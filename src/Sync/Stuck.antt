-- ===== src/Sync/Stuck.antt =====
-- A plan that was made offline for a day that has a plan on the server.
use church_presenter.Common.{◌≡◌, true, false, none, [], ltb, In, find}
use church_presenter.Sync.{PlanRow, Sync, plan_table, is_row, is_busy, is_plan_date_taken}
use church_presenter.Sync.Merge.{AreDistinct}

-- The plan `row` was changed since the last pull, and the server refuses it.
pub record IsStuck (row : PlanRow) (w : Sync) : Type 0 where
  pub plans : AreDistinct (plan_table []) w.local.plans
  pub local : In row w.local.plans
  pub changed : ltb w.last_pull_at row.updated_at ≡ true
  pub unknown : find (is_row (plan_table []) row.plan.id) w.server.plans ≡ none
  pub taken : is_plan_date_taken row.plan.date w.server.plans ≡ true

module _ (row : PlanRow) where
  -- What calls leave: the plan is still refused, and the local tables are as they were.
  pub record Waits (w after : Sync) : Type 0 where
    pub stuck : IsStuck row after
    pub local : after.local ≡ w.local
    pub idle : is_busy after.state ≡ false
