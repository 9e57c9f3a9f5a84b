-- ===== src/Sim/Show.antt =====
-- print_register, print_registers and show_state_if_stop_visible of lc3tools/lc3sim.c.
use lc3_script_tools.Base.{
  ℕ, zero, suc, ◌+◌, ◌/◌, ◌^◌, bit_and, ◌&&◌, [], ◌++◌, ◌==◌, if◌then◌else◌,
}
use lc3_script_tools.Sim.Text.{Text, text, hex, dec}
use lc3_script_tools.Sim.Inst.{r_pc, r_ir, r_psr, num_regs}
use lc3_script_tools.Sim.State.{
  World, Sim, M, ◌>>=◌, ◌>>◌, pure, gets, when, get_reg, print, by_mode,
}
use lc3_script_tools.Sim.Disassemble.{disassemble_one}
use lc3_script_tools.Sim.Store.{dump_delayed_mem_updates}

unfoldable pub condition : ℕ → Text
condition cc =
    if cc == 1
    then text "POSITIVE"
    else if cc == 2
    then text "ZERO"
    else if cc == 4
    then text "NEGATIVE"
    else text "BAD_CC"

-- `ccodes[(REG (R_PSR) >> 9) & 7]`.
abbrev condition_text : Sim → Text
condition_text s = condition (bit_and (s.reg r_psr / 2 ^ 9) 7)

-- The lines or items of the registers from `i` on.
unfoldable register_items : (ℕ → ℕ → Text) → ℕ → ℕ → Sim → Text
register_items item zero i s = []
register_items item (suc n) i s = item i (s.reg i) ++ register_items item n (i + 1) s

abbrev register_line : ℕ → ℕ → Text
register_line i v = text "REG R" ++ dec i ++ text " x" ++ hex 4 v ++ text "\n"

unfoldable pub print_register : ℕ → M (Unit {0})
print_register which = do
  v ← get_reg which
  print (register_line which v)
  when (which == r_psr) (do
    cc ← gets condition_text
    print (text "REG R" ++ dec num_regs ++ text " " ++ cc ++ text "\n"))
  print (text "TOCODE\n")

-- Without the GUI.
unfoldable pub registers_text : Sim → Text
unfolding register_items
registers_text s =
    text "PC=x"
    ++ hex 4 (s.reg r_pc)
    ++ text " IR=x"
    ++ hex 4 (s.reg r_ir)
    ++ text " PSR=x"
    ++ hex 4 (s.reg r_psr)
    ++ text " ("
    ++ condition_text s
    ++ text ")\n"
    ++ register_items (λ i v. text "R" ++ dec i ++ text "=x" ++ hex 4 v ++ text " ") r_pc 0 s
    ++ text "\n"

-- In the GUI.
unfoldable pub register_lines : Sim → Text
unfolding register_items
register_lines s =
    register_items register_line num_regs 0 s
    ++ text "REG R"
    ++ dec num_regs
    ++ text " "
    ++ condition_text s
    ++ text "\n"

module _ (world : World) where
  unfoldable pub print_registers : M (Unit {0})
  print_registers =
      by_mode (gets register_lines >>= print)
        (do t ← gets registers_text; print t; pc ← get_reg r_pc; disassemble_one world pc)

  unfoldable pub show_state_if_stop_visible : M (Unit {0})
  unfolding print_registers
  show_state_if_stop_visible = do
    hidden ← gets (λ s. s.interrupted_at_gui_request)
    if hidden then pure tt else (do
      dump ← gets (λ s. s.gui_mode && s.options.delay_mem_update)
      when dump (dump_delayed_mem_updates world)
      print_registers)
