-- ===== src/Sim/Agree/Registers.antt =====
-- One instruction of lc3tools/lc3sim.c and of lc3sim-c/vm.c from the word on: the table of lc3.def and
-- its code beside the switch of vm_perform.
use lc3_script_tools.Base.{
  ℕ, ◌/◌, ◌%◌, ◌^◌, ◌<◌, ◌≡◌, ◌≢◌, ap, ◌∙◌, refl, sym, arith, Bool, true, false, ◌&&◌, Option, none,
  some, bit_and, ◌==◌, if◌then◌else◌, ◌⊎◌, inl, inr,
}
use lc3_script_tools.Base.Bits.{and_digit}
use lc3_script_tools.Vm.Types.{lc3_16bit, opcode_of}
use lc3_script_tools.Vm.State.{Console, Vm}
use lc3_script_tools.Vm.Perform.{vm_perform, perform_opcode}
use lc3_script_tools.Sim.Table.{
  Code, add_r, add_i, and_r, and_i, br, jmp, jsr, jsrr, lea, not, Action, definitions, find_action,
}
use lc3_script_tools.Sim.Inst.{flg_subroutine}
use lc3_script_tools.Sim.State.{World, Sim}
use lc3_script_tools.Sim.Code.{run_code}
use lc3_script_tools.Sim.Decode.{decode, find_action-decode}
use lc3_script_tools.Sim.Agree.Result.{Same, Agree}
use lc3_script_tools.Sim.Agree.Perform.{
  add_register_agrees, add_immediate_agrees, and_register_agrees, and_immediate_agrees, br_agrees,
  jmp_agrees, jsr_agrees, jsrr_agrees, lea_agrees, not_agrees,
}

coded :
    (c : Code) (f : ℕ) (a : Action)
    → ◌≡◌ {A = Option Action} (some (record { flags = f; code = c })) (some a)
    → a.code ≡ c
coded c f a e = sym (ap (λ (o : Option Action). elim o [ none ↦ c | some b ↦ b.code ]) e)

bit_5_set : (w : ℕ) → (w % 2 ^ 12 / 2 ^ 5 % 2 == 1) ≡ true → bit_and w (2 ^ 5) ≡ 2 ^ 5
bit_5_set w t = and_digit 5 w ∙ ground arith

bit_5_clear : (w : ℕ) → (w % 2 ^ 12 / 2 ^ 5 % 2 == 1) ≡ false → bit_and w (2 ^ 5) ≡ 0
bit_5_clear w t = and_digit 5 w ∙ ground arith

bit_11_set : (w : ℕ) → (w % 2 ^ 12 / 2 ^ 11 % 2 == 1) ≡ true → bit_and w (2 ^ 11) ≡ 2 ^ 11
bit_11_set w t = and_digit 11 w ∙ ground arith

bit_11_clear : (w : ℕ) → (w % 2 ^ 12 / 2 ^ 11 % 2 == 1) ≡ false → bit_and w (2 ^ 11) ≡ 0
bit_11_clear w t = and_digit 11 w ∙ ground arith

none_coded : {B : Type 0} → (a : Action) → ◌≡◌ {A = Option Action} none (some a) → B
none_coded a e = ground arith

abbrev act : ℕ → Code → Option Action
act f c = some (record { flags = f; code = c })

-- A word of two forms is one with its bit set, or the other.
form_cases :
    (b z : Bool) (f : ℕ) (c d : Code) (a : Action)
    → (if b then act f c else if z then act f d else none) ≡ some a
    → ((b ≡ true) × (a.code ≡ c)) ⊎ ((b ≡ false) × (a.code ≡ d))
form_cases true z f c d a e = inl (refl, coded c f a e)
form_cases false true f c d a e = inr (refl, coded d f a e)
form_cases false false f c d a e = none_coded a e

-- A guard that has to hold.
guarded :
    (b : Bool) (f : ℕ) (c : Code) (a : Action) → (if b then act f c else none) ≡ some a → a.code ≡ c
guarded true f c a e = coded c f a e
guarded false f c a e = none_coded a e

module _ (world : World) (console : Console) (w : ℕ) (s : Sim) (vm : Vm) (word : w < 2 ^ 16)
    (h : Same s vm) (a : Action) where
  abbrev Runs : ℕ → Type 0
  Runs op =
      w / 2 ^ 12 ≡ op
      → decode op (w % 2 ^ 12) ≡ some a
      → Agree (run_code world a.code w s) (vm_perform lc3_16bit console w vm)

  Runs-0 : w ≢ 0 → Runs 0
  unfolding decode vm_perform perform_opcode opcode_of
  Runs-0 ne o e = rw (o, coded br 0 a e) (br_agrees world w s vm word h ne)

  Runs-1 : Runs 1
  unfolding decode vm_perform perform_opcode opcode_of
  Runs-1 o e =
      let low = w % 2 ^ 12 in
      elim (form_cases (low / 2 ^ 5 % 2 == 1) (low / 2 ^ 3 % 2 ^ 3 == 0) 0 add_i add_r a e) [
        | inl (t, c) ↦ rw (o, c) (add_immediate_agrees world w s vm word h (bit_5_set w t))
        | inr (t, c) ↦ rw (o, c) (add_register_agrees world w s vm word h (bit_5_clear w t))
      ]

  Runs-4 : Runs 4
  unfolding decode vm_perform perform_opcode opcode_of
  Runs-4 o e =
      let low = w % 2 ^ 12 in
      elim (form_cases (low / 2 ^ 11 % 2 == 1) ((low / 2 ^ 9 == 0) && (low % 2 ^ 6 == 0))
        flg_subroutine jsr jsrr a e) [
          | inl (t, c) ↦ rw (o, c) (jsr_agrees world w s vm word h (bit_11_set w t))
          | inr (t, c) ↦ rw (o, c) (jsrr_agrees world w s vm word h (bit_11_clear w t))
        ]

  Runs-5 : Runs 5
  unfolding decode vm_perform perform_opcode opcode_of
  Runs-5 o e =
      let low = w % 2 ^ 12 in
      elim (form_cases (low / 2 ^ 5 % 2 == 1) (low / 2 ^ 3 % 2 ^ 3 == 0) 0 and_i and_r a e) [
        | inl (t, c) ↦ rw (o, c) (and_immediate_agrees world w s vm word h (bit_5_set w t))
        | inr (t, c) ↦ rw (o, c) (and_register_agrees world w s vm word h (bit_5_clear w t))
      ]

  Runs-9 : Runs 9
  unfolding decode vm_perform perform_opcode opcode_of
  Runs-9 o e = rw (o, guarded (w % 2 ^ 12 % 2 ^ 6 == 63) 0 not a e) (not_agrees world w s vm word h)

  Runs-12 : Runs 12
  unfolding decode vm_perform perform_opcode opcode_of
  Runs-12 o e =
      let low = w % 2 ^ 12 in
      rw (o, guarded ((low / 2 ^ 9 == 0) && (low % 2 ^ 6 == 0)) 0 jmp a e)
        (jmp_agrees world w s vm word h)

  Runs-14 : Runs 14
  unfolding decode vm_perform perform_opcode opcode_of
  Runs-14 o e = rw (o, coded lea 0 a e) (lea_agrees world w s vm word h)

-- The operation codes that leave the memory alone: BR, ADD, JSR and JSRR, AND, NOT, JMP, LEA.
abbrev OnRegisters : ℕ → Type 0
OnRegisters op = (op ≡ 0) ⊎ (op ≡ 1) ⊎ (op ≡ 4) ⊎ (op ≡ 5) ⊎ (op ≡ 9) ⊎ (op ≡ 12) ⊎ (op ≡ 14)

-- A word other than 0 whose operation code is that of BR, ADD, JSR or JSRR, AND, NOT, JMP or LEA, and
-- which the instruction table of lc3.def takes: its code in lc3sim and vm_perform of the 16-bit
-- lc3sim-c, started in states with equal memories, general registers and PC and the same flag, stop
-- neither, and end in such states again.
pub run_code-vm_perform :
    (world : World) (console : Console) (w : ℕ) (s : Sim) (vm : Vm) (a : Action)
    → w < 2 ^ 16
    → w ≢ 0
    → OnRegisters (w / 2 ^ 12)
    → find_action w definitions ≡ some a
    → Same s vm
    → Agree (run_code world a.code w s) (vm_perform lc3_16bit console w vm)
run_code-vm_perform world console w s vm a word ne on found h =
    let decoded : decode (w / 2 ^ 12) (w % 2 ^ 12) ≡ some a =
      sym (find_action-decode w word) ∙ found in
    let at : (op : ℕ)
        → Runs world console w s vm word h a op
        → w / 2 ^ 12 ≡ op
        → Agree (run_code world a.code w s) (vm_perform lc3_16bit console w vm) =
      λ op runs e. runs e (ap (λ (x : ℕ). decode x (w % 2 ^ 12)) (sym e) ∙ decoded) in
    elim on [
      | inl e ↦ at 0 (Runs-0 world console w s vm word h a ne) e
      | inr (inl e) ↦ at 1 (Runs-1 world console w s vm word h a) e
      | inr (inr (inl e)) ↦ at 4 (Runs-4 world console w s vm word h a) e
      | inr (inr (inr (inl e))) ↦ at 5 (Runs-5 world console w s vm word h a) e
      | inr (inr (inr (inr (inl e)))) ↦ at 9 (Runs-9 world console w s vm word h a) e
      | inr (inr (inr (inr (inr (inl e))))) ↦ at 12 (Runs-12 world console w s vm word h a) e
      | inr (inr (inr (inr (inr (inr e))))) ↦ at 14 (Runs-14 world console w s vm word h a) e
    ]
