-- ===== src/Engine/Recovery.antt =====
-- The circuit breaker of an engine, and the first flush after an outage.
use cloud_comp_project.Base.{
  ℕ, suc, ◌+◌, ◌*◌, ◌≤◌, ◌≡◌, ◌≢◌, inl, inr, refl, sym, ap, ◌∙◌, Bool, true, false, Option, none,
  some, List, [], ◌∷◌, ◌++◌, arith, pos, pos_part, max_int64, minute,
}
use cloud_comp_project.Interfaces.{ChangeEvent}
use cloud_comp_project.Retry.Loop.{Run, out_of_fuel, returned}
use cloud_comp_project.Retry.Loop.Rule.{Returns}
use cloud_comp_project.Retry.Breaker.{
  CircuitBreaker, circuit_closed, new_circuit_breaker, allow, record_success, record_failure,
}
use cloud_comp_project.Retry.Breaker.Invariant.{new_circuit_breaker-IsValid}
use cloud_comp_project.Retry.Breaker.Probe.{
  IsReady, Requested, Requested-Next, allow_refused, allow_ready,
}
use cloud_comp_project.Config.{Config}
use cloud_comp_project.State.{ReplicationState}
use cloud_comp_project.Engine.{
  Context, Environment, Engine, FlushError, new, max_lsn, after_publish, after_allow, flush_batch,
  flush,
}
use cloud_comp_project.Engine.Publishing.{publishing, Ends, publishing_rule}
use cloud_comp_project.Engine.Views.{acknowledge_max_keeps, report_flush_keeps}
use cloud_comp_project.Engine.Conservation.{IsLogged}

-- An engine with a past of `n` flushes, at any times and with any outcomes, and of received events.
pub data History {W E : Type 0} (env : Environment W E) (cfg : Config) : ℕ → Engine → Type 0 where
  begun : (st : Option ReplicationState) → History env cfg 0 (record (new cfg) { state = st })
  received :
      {n : ℕ} {e : Engine} (ev : ChangeEvent)
      → History env cfg n e
      → History env cfg n (record e { buffer = e.buffer ++ ev ∷ [] })
  flushed :
      {n : ℕ} {e : Engine} (ctx : Context) (w : W)
      → History env cfg n e
      → History env cfg (suc n) (flush env ctx e w).1

module _ {W E : Type 0} (env : Environment W E) where
  returns :
      (ctx : Context) (batch : List ChangeEvent) (w : W)
      → Returns (Ends (λ w. Unit {0}) (λ w. Unit {0})) (publishing env ctx batch w)
  returns ctx batch w =
      publishing_rule env ctx batch (λ n w. Unit {0}) (λ w. Unit {0}) (λ w. Unit {0})
        (λ n w lt p done. tt) (λ n w x p failed. tt) (λ n d w p. tt) (λ n w lt p. tt) w tt

  publish-Requested :
      (batch : List ChangeEvent) (t now : ℕ) (run : Run W E) (cb : CircuitBreaker) (e : Engine)
      → Returns (Ends (λ w. Unit {0}) (λ w. Unit {0})) run
      → e.cloud_breaker ≡ (allow now cb).1
      → Requested cb (after_publish env batch t run e).1.cloud_breaker
  unfolding after_publish
  publish-Requested batch t now (out_of_fuel w) cb e h p = absurd h
  publish-Requested batch t now (returned (some x) w) cb e h p =
      inr (now, inr (env.now w, ap (record_failure (env.now w)) p))
  publish-Requested batch t now (returned none w) cb e h p = inr (now, inl (ap record_success p))

  allow-Requested :
      (ctx : Context) (batch : List ChangeEvent) (now : ℕ) (b : Bool) (cb : CircuitBreaker)
      (e : Engine) (w : W)
      → (allow now cb).0 ≡ b
      → e.cloud_breaker ≡ (allow now cb).1
      → Requested cb (after_allow env ctx batch now b e w).1.cloud_breaker
  unfolding after_allow
  allow-Requested ctx batch now false cb e w q p = inl (p ∙ allow_refused now cb q)
  allow-Requested ctx batch now true cb e w q p =
      publish-Requested batch now now (publishing env ctx batch w) cb e (returns ctx batch w) p

  batch-Requested :
      (ctx : Context) (batch : List ChangeEvent) (e : Engine) (w : W)
      → Requested e.cloud_breaker (flush_batch env ctx batch e w).1.cloud_breaker
  unfolding flush_batch
  batch-Requested ctx [] e w = inl refl
  batch-Requested ctx (ev ∷ evs) e w =
      let now = env.now w in
      let (b, breaker) = allow now e.cloud_breaker in
      allow-Requested ctx (ev ∷ evs) now b e.cloud_breaker
        (record e { buffer = []; cloud_breaker = breaker }) w refl refl

  flush-Requested :
      (ctx : Context) (e : Engine) (w : W)
      → Requested e.cloud_breaker (flush env ctx e w).1.cloud_breaker
  unfolding flush
  flush-Requested ctx e w = batch-Requested ctx e.buffer e w

  -- The breaker is closed or open, and has counted a failure for each flush at most.
  abbrev pub IsRecoverable : ℕ → Engine → Type 0
  IsRecoverable n e =
      IsReady e.cloud_breaker
      × (pos_part e.cloud_breaker.consecutive_failures ≤ n)
      × (e.cloud_breaker.retry_interval ≡ pos (5 * minute))

  pub History-IsRecoverable :
      {cfg : Config} {n : ℕ} {e : Engine} → History env cfg n e → n ≤ max_int64 → IsRecoverable n e
  unfolding new new_circuit_breaker
  History-IsRecoverable (begun st) le = (
    record {
      valid =
          new_circuit_breaker-IsValid
            (record { failure_threshold = pos 5; retry_interval = pos (5 * minute) });
      decided = λ q. cc;
    },
    omega arith,
    refl,
  )
  History-IsRecoverable (received ev h) le = History-IsRecoverable h le
  History-IsRecoverable (flushed {n} {e} ctx w h) le =
      let (ready, count, wait) = History-IsRecoverable h (omega arith) in
      let (ready', count', wait') =
        Requested-Next e.cloud_breaker _ ready (omega arith) (flush-Requested ctx e w) in
      (ready', omega (arith, count, count'), wait' ∙ wait)

module _ {W E : Type 0} (env : Environment W E) (delivered : W → List ChangeEvent)
    (logged : IsLogged env delivered) where
  -- A flush that the breaker allows and whose publish succeeds at once.
  abbrev pub Delivers : List ChangeEvent → W → Option (FlushError E) × Engine × W → Type 0
  Delivers batch w r =
      (r.0 ≡ none)
      × (r.1.buffer ≡ [])
      × (r.1.cloud_breaker.state ≡ circuit_closed)
      × (delivered r.2 ≡ delivered w ++ batch)

  module _ (batch : List ChangeEvent)
      (accepts : (w : W) → (env.publisher.publish batch w).0 ≡ none) where
    -- No publish has failed.
    first_publish :
        (ctx : Context) (w : W)
        → Returns
            (Ends (λ w'. delivered w' ≡ delivered w ++ batch) (λ w. ⊥))
            (publishing env ctx batch w)
    first_publish ctx w =
        publishing_rule env ctx batch (λ n w'. (n ≡ 0) × (delivered w' ≡ delivered w))
          (λ w'. delivered w' ≡ delivered w ++ batch) (λ w. ⊥)
          (λ n w' lt p done. logged.publish_done batch w' done ∙ ap (λ l. l ++ batch) p.1)
          (λ n w' x p failed. absurd (never w' x failed))
          (λ n d w' p. (p.0, logged.untouched.select_keeps ctx d w' ∙ p.1))
          (λ n w' lt p. absurd (omega (arith, p.0))) w (refl, refl)
      where
        never : (w : W) (x : E) → (env.publisher.publish batch w).0 ≡ some x → ⊥
        never w x failed = let both : none ≡ some x = sym (accepts w) ∙ failed in cc

    publish-Delivers :
        (t : ℕ) (run : Run W E) (e : Engine) (w : W)
        → Returns (Ends (λ w'. delivered w' ≡ delivered w ++ batch) (λ w. ⊥)) run
        → e.buffer ≡ []
        → Delivers batch w (after_publish env batch t run e)
    unfolding after_publish record_success
    publish-Delivers t (out_of_fuel w') e w h p = absurd h
    publish-Delivers t (returned (some x) w') e w h p = absurd h
    publish-Delivers t (returned none w') e w h p = (
      refl,
      p,
      refl,
      logged.untouched.save_keeps _ _
          ∙ report_flush_keeps env delivered logged.untouched batch t _ _
          ∙ acknowledge_max_keeps env delivered logged.untouched (max_lsn 0 batch) w'
          ∙ h,
    )

    allow-Delivers :
        (ctx : Context) (t : ℕ) (b : Bool) (e : Engine) (w : W)
        → b ≡ true
        → e.buffer ≡ []
        → Delivers batch w (after_allow env ctx batch t b e w)
    unfolding after_allow
    allow-Delivers ctx t false e w q p = cc
    allow-Delivers ctx t true e w q p =
        publish-Delivers t (publishing env ctx batch w) e w (first_publish ctx w) p

  batch-Delivers :
      (ctx : Context) (batch : List ChangeEvent) (e : Engine) (w : W)
      → ((w : W) → (env.publisher.publish batch w).0 ≡ none)
      → batch ≢ []
      → (allow (env.now w) e.cloud_breaker).0 ≡ true
      → Delivers batch w (flush_batch env ctx batch e w)
  unfolding flush_batch
  batch-Delivers ctx [] e w accepts some_event allowed = absurd (some_event refl)
  batch-Delivers ctx (ev ∷ evs) e w accepts some_event allowed =
      let (b, breaker) = allow (env.now w) e.cloud_breaker in
      allow-Delivers (ev ∷ evs) accepts ctx (env.now w) b
        (record e { buffer = []; cloud_breaker = breaker }) w allowed refl

  -- An engine that was created by `New`, with any past of fewer than 2 ^ 63 flushes, of which any may
  -- have failed, and of received events, recovers: if its buffer is not empty, five minutes have
  -- passed since the last failure, and the publisher accepts the buffer, then a flush returns nil,
  -- delivers the whole buffer, empties it, and closes the circuit.
  pub outage_ends :
      (cfg : Config) (n : ℕ) (e : Engine) (ctx : Context) (w : W)
      → History env cfg n e
      → n ≤ max_int64
      → e.buffer ≢ []
      → e.cloud_breaker.last_failure_time + 5 * minute ≤ env.now w
      → ((w : W) → (env.publisher.publish e.buffer w).0 ≡ none)
      → Delivers e.buffer w (flush env ctx e w)
  unfolding flush
  outage_ends cfg n e ctx w past short some_event over accepts =
      let (ready, count, wait) = History-IsRecoverable env past short in
      batch-Delivers ctx e.buffer e w accepts some_event
        (allow_ready (env.now w) (5 * minute) e.cloud_breaker ready wait (omega arith) over)
