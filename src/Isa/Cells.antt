-- ===== src/Isa/Cells.antt =====
-- STR and LDR: what is stored is loaded again.
use lc3_script_tools.Base.{ℕ, ◌+◌, ◌≤◌, ◌<◌, ◌≡◌, refl, ◌∙◌, arith, update, update_self}
use lc3_script_tools.Base.Int.{ℤ, of_signed, Fits}
use lc3_script_tools.Vm.Types.{
  lc3_16bit, lc3_32bit, Build, register_bits, addr_max, word, success, error_addres_out_of_range,
  opcode_of,
}
use lc3_script_tools.Vm.State.{Console, Vm, ok, stop}
use lc3_script_tools.Vm.Memory.{vm_write, vm_read, vm_mem_read}
use lc3_script_tools.Vm.Perform.{
  sextend, vm_setcc, load_reg, perform_str, perform_ldr, perform_opcode, vm_perform, result_of,
}
use lc3_script_tools.Vm.Triple.{IsCell}
use lc3_script_tools.Instr.Layout.{config}
use lc3_script_tools.Instr.Maker.{opcode_str, opcode_ldr, make_str, make_ldr}
use lc3_script_tools.Isa.Encoded.{with_result, Parts, rri-Parts, rri-sextend}

write_cell :
    (b : Build) (a x : ℕ) (vm : Vm)
    → IsCell b a
    → vm_write b a x vm ≡ (ok tt, record vm { mem = update vm.mem a x })
unfolding vm_write
write_cell b a x vm c = ground arith

write_past :
    (b : Build) (a x : ℕ) (vm : Vm)
    → addr_max b ≤ a
    → vm_write b a x vm ≡ (stop error_addres_out_of_range, vm)
unfolding vm_write
write_past lc3_16bit a x vm h = ground arith
write_past lc3_32bit a x vm h = ground arith

pub read_cell :
    (b : Build) (console : Console) (a : ℕ) (vm : Vm)
    → IsCell b a
    → vm_read b console a vm ≡ (ok (vm.mem a), vm)
unfolding vm_read vm_mem_read
read_cell b console a vm c = ground arith

module _ (b : Build) (console : Console) (vm : Vm) (op r base w : ℕ)
    (parts : Parts op r base w) where
  perform_str_lem :
      op ≡ opcode_str
      → vm_perform b console w vm
        ≡ result_of (vm_write b (word b (vm.reg base + sextend b w 6)) (vm.reg r) vm)
  unfolding vm_perform perform_opcode opcode_of perform_str
  perform_str_lem e = rw (parts.code, e, parts.dr, parts.sr1) refl

  pub perform_ldr_lem :
      op ≡ opcode_ldr
      → IsCell b (word b (vm.reg base + sextend b w 6))
      → vm_perform b console w vm
        ≡ (success, with_result b r (vm.mem (word b (vm.reg base + sextend b w 6))) vm)
  unfolding vm_perform perform_opcode opcode_of perform_ldr load_reg vm_setcc
  perform_ldr_lem e c =
      rw
        (
          parts.code,
          e,
          parts.dr,
          parts.sr1,
          read_cell b console (word b (vm.reg base + sextend b w 6)) vm c,
          update_self vm.reg r (vm.mem (word b (vm.reg base + sextend b w 6))),
        )
        refl

module _ (b : Build) (console : Console) (vm : Vm) (src dst base : ℕ) (src_fits : src < 8)
    (dst_fits : dst < 8) (base_fits : base < 8) (v : ℤ) (v_fits : Fits 6 v) where
  abbrev address : ℕ
  address = word b (vm.reg base + of_signed (register_bits b) v)

  abbrev stored : Vm
  stored = record vm { mem = update vm.mem address (vm.reg src) }

  str-eq :
      vm_perform b console (make_str (config 16) src base v) vm
      ≡ result_of (vm_write b address (vm.reg src) vm)
  str-eq =
      perform_str_lem b console vm opcode_str src base (make_str (config 16) src base v)
        (rri-Parts opcode_str src base (omega arith) src_fits base_fits v v_fits) refl
      ∙ rw (rri-sextend opcode_str src base (omega arith) src_fits base_fits b v v_fits) refl

  -- STR and then LDR, with one base register and offset (-32 to 31), in both builds: if the address
  -- is a memory cell and no device register, STR changes that cell alone, and LDR then gives its
  -- register the value that was stored, with the condition codes of it, and changes nothing else.
  pub perform-make_ldr-make_str :
      IsCell b address
      → (vm_perform b console (make_str (config 16) src base v) vm ≡ (success, stored))
        × (vm_perform b console (make_ldr (config 16) dst base v) stored
            ≡ (success, with_result b dst (vm.reg src) stored))
  perform-make_ldr-make_str c = (str-eq ∙ rw (write_cell b address (vm.reg src) vm c) refl, ldr-eq)
    where
      w : ℕ
      w = make_ldr (config 16) dst base v

      offset : sextend b w 6 ≡ of_signed (register_bits b) v
      offset = rri-sextend opcode_ldr dst base (omega arith) dst_fits base_fits b v v_fits

      ldr-eq : vm_perform b console w stored ≡ (success, with_result b dst (vm.reg src) stored)
      ldr-eq =
          perform_ldr_lem b console stored opcode_ldr dst base w
            (rri-Parts opcode_ldr dst base (omega arith) dst_fits base_fits v v_fits) refl
            (rw offset c)
          ∙ rw (offset, update_self vm.mem address (vm.reg src)) refl

  -- STR to an address past the memory, in either build, fails with VM_ERROR_ADDRES_OUT_OF_RANGE and changes nothing.
  pub perform-make_str_out_of_range :
      addr_max b ≤ address
      → vm_perform b console (make_str (config 16) src base v) vm ≡ (error_addres_out_of_range, vm)
  perform-make_str_out_of_range h = str-eq ∙ rw (write_past b address (vm.reg src) vm h) refl
