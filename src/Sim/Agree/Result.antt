-- ===== src/Sim/Agree/Result.antt =====
-- A result and its condition codes: `SET_CC` of lc3tools/lc3.def beside vm_setcc of lc3sim-c/vm.c.
use lc3_script_tools.Base.{
  ℕ, ◌-◌, ◌*◌, ◌/◌, ◌^◌, ◌<◌, ◌≡◌, ◌≢◌, ap, sym, ◌∙◌, refl, arith, inl, inr, bit_and, bit_or,
  update, update_self, update_ne, update-update,
}
use lc3_script_tools.Base.Bits.{and_mask, and_digit, or_fields}
use lc3_script_tools.Vm.Types.{lc3_16bit, reg_psr, VmResult, success}
use lc3_script_tools.Vm.State.{Vm, ok as vm_ok}
use lc3_script_tools.Vm.Perform.{vm_sign_flag, vm_setcc, result_of}
use lc3_script_tools.Vm.Triple.{IsFlag}
use lc3_script_tools.Vm.Words.{vm_sign_flag-IsFlag}
use lc3_script_tools.Sim.Inst.{f_dr, r_psr}
use lc3_script_tools.Sim.State.{Sim, Res, ok}
use lc3_script_tools.Sim.Code.{cc_flag, set_cc, finish}

-- The general registers and the PC are the same 16-bit numbers, and one flag is set, which lc3sim
-- keeps 9 places further up.
pub record Same (s : Sim) (vm : Vm) : Type 0 where
  pub general : (r : ℕ) → r < 9 → s.reg r ≡ vm.reg r
  pub words : (r : ℕ) → r < 9 → vm.reg r < 2 ^ 16
  pub status : s.reg r_psr ≡ vm.reg reg_psr * 2 ^ 9
  pub flag : IsFlag (vm.reg reg_psr)
  pub memory : (a : ℕ) → s.mem a ≡ vm.mem a

-- Neither simulator stops, and the states are the same again.
abbrev pub Agree : Res (Unit {0}) × Sim → VmResult × Vm → Type 0
Agree p q = (p.0 ≡ ok tt) × ((q.0 ≡ success) × Same p.1 q.1)

pub field-lt : (n : ℕ) → bit_and n 7 < 8
field-lt n = omega (arith, and_mask 3 n)

-- `& ~0xE00` clears a status register that has a flag and no more.
clears : (f : ℕ) → IsFlag f → bit_and (f * 2 ^ 9) (2 ^ 32 - 1 - 0x0e00) ≡ 0
clears f (inl e) = ap (λ (x : ℕ). bit_and (x * 2 ^ 9) (2 ^ 32 - 1 - 0x0e00)) e
clears f (inr (inl e)) = ap (λ (x : ℕ). bit_and (x * 2 ^ 9) (2 ^ 32 - 1 - 0x0e00)) e
clears f (inr (inr e)) = ap (λ (x : ℕ). bit_and (x * 2 ^ 9) (2 ^ 32 - 1 - 0x0e00)) e

flags_agree : (v : ℕ) → v < 2 ^ 16 → cc_flag v ≡ vm_sign_flag lc3_16bit v * 2 ^ 9
unfolding cc_flag vm_sign_flag
flags_agree v h = rw (and_digit 15 v) (ground arith)

-- What both make of a result.
abbrev sim_result : ℕ → ℕ → Sim → Sim
sim_result d v s = record s { reg = update (update s.reg d v) r_psr (cc_flag v) }

abbrev vm_result : ℕ → ℕ → Vm → Vm
vm_result d v vm = record vm { reg = update (update vm.reg d v) reg_psr (vm_sign_flag lc3_16bit v) }

Same-result :
    (d v : ℕ) (s : Sim) (vm : Vm)
    → Same s vm
    → d < 8
    → v < 2 ^ 16
    → Same (sim_result d v s) (vm_result d v vm)
Same-result d v s vm h small word = record {
  general = λ r lt. let e = h.general r lt in ground arith;
  words = λ r lt. let e = h.words r lt in ground arith;
  status = flags_agree v word;
  flag = vm_sign_flag-IsFlag lc3_16bit v;
  memory = h.memory;
}

-- An equal write of a general register or of the PC.
pub Same-write :
    (d v v' : ℕ) (s : Sim) (vm : Vm)
    → Same s vm
    → d < 9
    → v ≡ v'
    → v' < 2 ^ 16
    → Same (record s { reg = update s.reg d v }) (record vm { reg = update vm.reg d v' })
Same-write d v v' s vm h small e word = record {
  general = λ r lt. let g = h.general r lt in ground arith;
  words = λ r lt. let g = h.words r lt in ground arith;
  status =
      update_ne s.reg d r_psr v (λ e. omega arith)
      ∙ h.status
      ∙ ap (λ (x : ℕ). x * 2 ^ 9) (sym (update_ne vm.reg d reg_psr v' (λ e. omega arith)));
  flag = rw (update_ne vm.reg d reg_psr v' (λ e. omega arith)) h.flag;
  memory = h.memory;
}

flag_below : (v : ℕ) → cc_flag v < 2 ^ 12
unfolding cc_flag
flag_below v = ground arith

flag_or_zero : (v : ℕ) → bit_or 0 (cc_flag v) ≡ cc_flag v
flag_or_zero v = omega (arith, or_fields 12 0 (cc_flag v) (flag_below v))

-- Where the two writes of the status register leave the registers.
set_cc_registers :
    (reg : ℕ → ℕ) (d v : ℕ)
    → d < 8
    → bit_and (reg r_psr) (2 ^ 32 - 1 - 0x0e00) ≡ 0
    → let g = update reg d v in
      let m = bit_and (g r_psr) (2 ^ 32 - 1 - 0x0e00) in
      update (update g r_psr m) r_psr (bit_or m (cc_flag (update g r_psr m d)))
      ≡ update g r_psr (cc_flag v)
set_cc_registers reg d v small clear =
    let g = update reg d v in
    let m = bit_and (g r_psr) (2 ^ 32 - 1 - 0x0e00) in
    let other : d ≢ r_psr = λ e. omega arith in
    let back : r_psr ≢ d = λ e. omega arith in
    let zero_m : m ≡ 0 =
      ap (λ (x : ℕ). bit_and x (2 ^ 32 - 1 - 0x0e00)) (update_ne reg d r_psr v other) ∙ clear in
    let self : update g r_psr m d ≡ v = update_ne g r_psr d m back ∙ update_self reg d v in
    update-update g r_psr m (bit_or m (cc_flag (update g r_psr m d)))
    ∙ ap (λ (x : ℕ). update g r_psr (bit_or m (cc_flag x))) self
    ∙ ap (λ (x : ℕ). update g r_psr (bit_or x (cc_flag v))) zero_m
    ∙ ap (update g r_psr) (flag_or_zero v)

finish_lem :
    (i v : ℕ) (s : Sim) (vm : Vm) → Same s vm → finish i v s ≡ (ok tt, sim_result (f_dr i) v s)
unfolding finish set_cc
finish_lem i v s vm h =
    let clear : bit_and (s.reg r_psr) (2 ^ 32 - 1 - 0x0e00) ≡ 0 =
      ap (λ (x : ℕ). bit_and x (2 ^ 32 - 1 - 0x0e00)) h.status ∙ clears (vm.reg reg_psr) h.flag in
    ap (λ (f : ℕ → ℕ). (ok tt, record s { reg = f }))
      (set_cc_registers s.reg (f_dr i) v (field-lt (i / 2 ^ 9)) clear)

setcc_lem :
    (d v : ℕ) (vm : Vm)
    → vm_setcc lc3_16bit d (record vm { reg = update vm.reg d v }) ≡ (vm_ok tt, vm_result d v vm)
unfolding vm_setcc
setcc_lem d v vm =
    ap
      (λ (x : ℕ). (
        vm_ok tt,
        record vm { reg = update (update vm.reg d v) reg_psr (vm_sign_flag lc3_16bit x) },
      ))
      (update_self vm.reg d v)

-- Equal results go on to equal states.
pub results-Agree :
    (i v v' : ℕ) (s : Sim) (vm : Vm)
    → Same s vm
    → v ≡ v'
    → v' < 2 ^ 16
    → Agree
        (finish i v s)
        (result_of (vm_setcc lc3_16bit (f_dr i) (record vm { reg = update vm.reg (f_dr i) v' })))
results-Agree i v v' s vm h e small =
    rw (finish_lem i v s vm h, setcc_lem (f_dr i) v' vm, e)
      (refl, (refl, Same-result (f_dr i) v' s vm h (field-lt (i / 2 ^ 9)) small))
