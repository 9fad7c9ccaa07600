-- ===== src/Engine/Calls.antt =====
-- How often a flush calls the publisher.
use cloud_comp_project.Base.{
  ℕ, ◌+◌, ◌≤◌, ◌≡◌, sym, ◌∙◌, subst, Bool, true, false, none, some, List, [], ◌∷◌, arith,
  if◌then◌else◌,
}
use cloud_comp_project.Interfaces.{ChangeEvent}
use cloud_comp_project.Retry.Loop.{Run, out_of_fuel, returned}
use cloud_comp_project.Retry.Loop.Rule.{Returns}
use cloud_comp_project.Retry.Breaker.{allow}
use cloud_comp_project.Engine.Publishing.{publishing, Ends, publishing_rule}
use cloud_comp_project.Engine.{
  Context, Environment, Engine, max_lsn, after_publish, after_allow, flush_batch, flush,
}
use cloud_comp_project.Engine.Views.{
  IsUntouched, acknowledge_max_keeps, report_flush_keeps, report_failure_keeps,
}

module _ {W E : Type 0} (env : Environment W E) (calls : W → ℕ)
    (counted : (batch : List ChangeEvent) (w : W)
      → calls (env.publisher.publish batch w).1 ≡ calls w + 1)
    (untouched : IsUntouched env calls) where
  publishing_calls :
      (ctx : Context) (batch : List ChangeEvent) (w0 : W)
      → let Bounded = λ (w : W). calls w ≤ calls w0 + 3 in
        Returns (Ends Bounded Bounded) (publishing env ctx batch w0)
  publishing_calls ctx batch w0 =
      let Bounded = λ (w : W). calls w ≤ calls w0 + 3 in
      publishing_rule env ctx batch (λ n w. calls w ≡ calls w0 + n) Bounded Bounded
        (λ n w lt p done. omega (arith, counted batch w, p))
        (λ n w x p failed. omega (arith, counted batch w, p))
        (λ n d w p. untouched.select_keeps ctx d w ∙ p) (λ n w le p. omega arith) w0 (omega arith)

  published_calls :
      (before : ℕ) (batch : List ChangeEvent) (t : ℕ) (run : Run W E) (e : Engine)
      → Returns (Ends (λ w. calls w ≤ before + 3) (λ w. calls w ≤ before + 3)) run
      → calls (after_publish env batch t run e).2 ≤ before + 3
  unfolding after_publish
  published_calls before batch t (out_of_fuel w) e h = absurd h
  published_calls before batch t (returned (some x) w) e h =
      subst (λ n. n ≤ before + 3) (sym (report_failure_keeps env calls untouched batch w)) h
  published_calls before batch t (returned none w) e h =
      subst (λ n. n ≤ before + 3)
        (sym (
          untouched.save_keeps _ _
          ∙ report_flush_keeps env calls untouched batch t _ _
          ∙ acknowledge_max_keeps env calls untouched (max_lsn 0 batch) w))
        h

  allowed_calls :
      (ctx : Context) (batch : List ChangeEvent) (t : ℕ) (b : Bool) (e : Engine) (w : W)
      → calls (after_allow env ctx batch t b e w).2 ≤ calls w + (if b then 3 else 0)
  unfolding after_allow
  allowed_calls ctx batch t false e w = omega arith
  allowed_calls ctx batch t true e w =
      published_calls (calls w) batch t _ e (publishing_calls ctx batch w)

  batch_calls :
      (ctx : Context) (batch : List ChangeEvent) (e : Engine) (w : W)
      → calls (flush_batch env ctx batch e w).2
        ≤ calls w + (if (allow (env.now w) e.cloud_breaker).0 then 3 else 0)
  unfolding flush_batch
  batch_calls ctx [] e w = omega arith
  batch_calls ctx (ev ∷ evs) e w =
      let (b, breaker) = allow (env.now w) e.cloud_breaker in
      allowed_calls ctx (ev ∷ evs) (env.now w) b (record e { buffer = []; cloud_breaker = breaker })
        w

  -- If each publish counts one call, and nothing else counts any, then a flush calls the publisher
  -- at most three times, and not at all while the circuit breaker refuses.
  pub flush_calls :
      (ctx : Context) (e : Engine) (w : W)
      → calls (flush env ctx e w).2
        ≤ calls w + (if (allow (env.now w) e.cloud_breaker).0 then 3 else 0)
  unfolding flush
  flush_calls ctx e w = batch_calls ctx e.buffer e w
