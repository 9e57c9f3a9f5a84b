-- ===== src/Sim/Help.antt =====
-- The command `help` of lc3tools/lc3sim.c, and what main prints on bad arguments.
use lc3_script_tools.Base.{◌++◌}
use lc3_script_tools.Sim.Text.{Text, text}
use lc3_script_tools.Sim.State.{M, print}

unfoldable pub cmd_help : Text → M (Unit {0})
cmd_help args = print (
    text "file <file>           -- file load (also sets PC to start of file)\n\n"
    ++ text "break ...             -- breakpoint management\n\n"
    ++ text "continue              -- continue execution\n"
    ++ text "finish                -- execute to end of current subroutine\n"
    ++ text "next                  -- execute next instruction (full subroutine/trap)\n"
    ++ text "step                  -- execute one step (into subroutine/trap)\n\n"
    ++ text "list ...              -- list instructions at the PC, an address, a label\n"
    ++ text "dump ...              -- dump memory at the PC, an address, a label\n"
    ++ text "translate <addr>      -- show the value of a label and print the contents\n"
    ++ text "printregs             -- print registers and current instruction\n\n"
    ++ text "memory <addr> <val>   -- set the value held in a memory location\n"
    ++ text "register <reg> <val>  -- set a register to a value\n\n"
    ++ text "execute <file name>   -- execute a script file\n\n"
    ++ text "reset                 -- reset LC-3 and reload last file\n\n"
    ++ text "quit                  -- quit the simulator\n\n"
    ++ text "help                  -- print this help\n\n"
    ++ text "All commands except quit can be abbreviated.\n")

unfoldable pub usage : M (Unit {0})
usage = print (
    text "syntax: lc3sim [<object file>|<symbol file>]\n"
    ++ text "        lc3sim -s <script file>\n"
    ++ text
        "        lc3sim -t <trace file> <object file>|<symbol file>\t# run the object file until the halt instruction, save the execution trace to file\n"
    ++ text "        lc3sim -h\n")
