-- ===== src/Engine/Loop/Stream.antt =====
-- The loop of the engine on a stream of inputs.
use mathlib.Core.List.{append-nil, append_assoc}
use cloud_comp_project.Base.{◌≡◌, sym, ap, ◌∙◌, List, [], ◌∷◌, ◌++◌}
use cloud_comp_project.Interfaces.{ChangeEvent}
use cloud_comp_project.Engine.{Environment, Engine}
use cloud_comp_project.Engine.Loop.{Input, LoopState, loop}
use cloud_comp_project.Engine.Loop.Rule.{taken, engine_of, world_of, loop_rule}
use cloud_comp_project.Engine.Conservation.{IsLogged, flush-conserves}

module _ {W E : Type 0} (env : Environment W E) (delivered : W → List ChangeEvent)
    (logged : IsLogged env delivered) where
  -- All events that the engine has or has had: the delivered ones, then the buffered ones.
  abbrev pub held : LoopState W E → List ChangeEvent
  held s = delivered (world_of s) ++ (engine_of s).buffer

  received :
      (base xs buffer ds : List ChangeEvent) (ev : ChangeEvent)
      → ds ++ buffer ≡ base ++ xs
      → ds ++ (buffer ++ ev ∷ []) ≡ base ++ (xs ++ ev ∷ [])
  received base xs buffer ds ev h =
      sym (append_assoc ds buffer (ev ∷ []))
      ∙ ap (λ l. l ++ ev ∷ []) h
      ∙ append_assoc base xs (ev ∷ [])

  -- If only successful publishes add to the publisher's log, each its batch, then whatever the
  -- inputs of the loop, and whichever publishes, acknowledgements and saves fail, the delivered
  -- events followed by the buffered ones are those of the start followed by the events taken from
  -- the stream: none is lost, none is delivered twice, and the order is kept, through the shutdown.
  pub loop-conserves :
      (inputs : List Input) (e : Engine) (w : W)
      → held (loop env e w inputs) ≡ (delivered w ++ e.buffer) ++ taken inputs
  loop-conserves inputs e w =
      let base = delivered w ++ e.buffer in
      loop_rule env delivered logged.untouched logged.close_keeps
        (λ xs buffer ds. ds ++ buffer ≡ base ++ xs) (received base)
        (λ ctx xs e w h. flush-conserves env delivered logged ctx e w ∙ h) inputs [] e w
        (sym (append-nil base))
