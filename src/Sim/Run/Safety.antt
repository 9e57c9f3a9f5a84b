-- ===== src/Sim/Run/Safety.antt =====
-- What execute_instruction of lc3tools/lc3sim.c keeps.
use lc3_script_tools.Sim.State.{World, Sim}
use lc3_script_tools.Sim.Execute.{execute_instruction}
use lc3_script_tools.Sim.Triple.{IsValid, IsFault, IsRunning, IsRunning-IsStable, frame, Post, Any}
use lc3_script_tools.Sim.Triple.Execute.{Keeps-execute}
use lc3_script_tools.Base.{refl}

-- In any state whose registers and cells hold 16 bits, with the GUI or without it, traced or not, an
-- instruction, whatever its word, indexes no array out of its bounds. It goes on or stops the run with
-- registers and cells that hold 16 bits, and with the breakpoints, the symbols, the options, the mode
-- and the streams as they were; or it ends the simulator with `exit (3)` at the end of the input, or
-- divides by 0 or shifts by 32 or more.
pub execute_instruction_safe :
    (world : World) (s : Sim)
    → IsValid s
    → Post (IsRunning (frame s)) IsFault Any (execute_instruction world s)
execute_instruction_safe world s h =
    (Keeps-execute (IsRunning-IsStable (frame s)) (λ _ g. g.0) (λ _ e. e) world).run s (h, refl)
