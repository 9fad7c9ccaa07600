-- ===== src/Command.antt =====
-- state-sync-engine/cmd/state-sync/main.go: the command, for what Viper makes of the file that the
-- flag names. It ends after it has read its configuration: nothing runs the engine.
use cloud_comp_project.Base.{ℕ, List, [], ◌∷◌, Text, codes}
use cloud_comp_project.Interfaces.{Result, ok, err}
use cloud_comp_project.Config.{Config, LoadError}
use cloud_comp_project.Config as Config

-- What it writes: an error on the standard error, which is not spelled out, or a line.
pub data Output (E : Type 0) : Type 0 where
  startup_failed : LoadError E → Output E
  line : Text → Output E

started : {E : Type 0} → Result (LoadError E) Config → List (Output E) × ℕ
unfolding codes
started (err e) = (startup_failed e ∷ [], 1)
started (ok cfg) = (
  line (codes "State Sync Engine - Cloud Mirror")
      ∷ line (codes "Configuration loaded successfully")
      ∷ line (codes "Starting...")
      ∷ [],
  0,
)

-- `main`: the output and the exit code
unfoldable pub main : {E : Type 0} → Result (LoadError E) Config → List (Output E) × ℕ
unfolding started
main configuration = started (Config.load configuration)
