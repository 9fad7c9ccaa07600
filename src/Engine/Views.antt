-- ===== src/Engine/Views.antt =====
-- Views of the world that the engine's calls leave alone, the publishes aside.
use cloud_comp_project.Base.{ℕ, ◌≡◌, refl, ◌∙◌, Bool, true, false, List, arith, ℤ}
use cloud_comp_project.Interfaces.{Lsn, ChangeEvent}
use cloud_comp_project.State.{ReplicationState}
use cloud_comp_project.Metrics.{Report, report}
use cloud_comp_project.Engine.{Context, Environment, acknowledge_max, report_flush, report_failure}

-- Of all that a flush calls, only publishes may change the view.
pub record IsUntouched {W E V : Type 0} (env : Environment W E) (view : W → V) : Type 0 where
  pub select_keeps : (ctx : Context) (d : ℕ) (w : W) → view (env.select ctx d w).1 ≡ view w
  pub acknowledge_keeps : (lsn : Lsn) (w : W) → view (env.subscriber.acknowledge lsn w).1 ≡ view w
  pub save_keeps : (st : ReplicationState) (w : W) → view (env.save_state st w).1 ≡ view w
  pub send_keeps : (r : Report) (w : W) → view (env.send r w) ≡ view w

module _ {W E V : Type 0} (env : Environment W E) (view : W → V)
    (untouched : IsUntouched env view) where
  report_keeps : (b : Bool) (r : Report) (w : W) → view (report b env.send r w) ≡ view w
  report_keeps true r w = untouched.send_keeps r w
  report_keeps false r w = refl

  pub acknowledge_max_keeps : (lsn : Lsn) (w : W) → view (acknowledge_max env lsn w) ≡ view w
  unfolding acknowledge_max
  acknowledge_max_keeps lsn w = ground (arith, untouched.acknowledge_keeps lsn w)

  pub report_flush_keeps :
      (batch : List ChangeEvent) (t : ℕ) (lag : ℤ) (w : W)
      → view (report_flush env batch t lag w) ≡ view w
  unfolding report_flush
  report_flush_keeps batch t lag w =
      report_keeps env.has_metrics _ _
      ∙ report_keeps env.has_metrics _ _
      ∙ report_keeps env.has_metrics _ _
      ∙ report_keeps env.has_metrics _ w

  pub report_failure_keeps :
      (batch : List ChangeEvent) (w : W) → view (report_failure env batch w) ≡ view w
  unfolding report_failure
  report_failure_keeps batch w = report_keeps env.has_metrics _ _ ∙ report_keeps env.has_metrics _ w
