-- ===== src/Vm/Load.antt =====
-- Loading object files: vm_load_data, vm_load_os and vm_load_file of lc3sim-c/vm.c, with the byte
-- swaps of lc3sim-c/types.h. The host is little-endian and its size_t has 64 bits. A pointer into
-- the buffer is the rest of the buffer; a read past its end is `undefined`.
pub mod Swap
pub mod Image
use lc3_script_tools.Base.{
  ℕ, zero, suc, ◌+◌, ◌-◌, ◌*◌, ◌/◌, ◌%◌, ◌^◌, bit_and, bit_or, Bool, ◌&&◌, Option, none, some, List,
  ◌∷◌, leb, if◌then◌else◌, update, length,
}
use lc3_script_tools.Vm.Types.{Build, lc3_16bit, lc3_32bit, word, addr_max, reg_pc}
use lc3_script_tools.Vm.State.{Vm}

pub data LoadResult : Type 0 where
  load_success input_not_found input_too_large : LoadResult

-- `aborted` is a failed assertion.
pub data Loading : Type 0 where
  returns : LoadResult → Vm → Loading
  aborted undefined : Loading

-- LC3_SWAP, on a vm_byte: SWAP_16 is done in `int` and cut off, SWAP_32 in `uint32_t`.
unfoldable pub lc3_swap : Build → ℕ → ℕ
lc3_swap lc3_16bit val = word lc3_16bit (bit_or (val * 2 ^ 8) (val / 2 ^ 8))
lc3_swap lc3_32bit val =
    bit_or
      (bit_or
        (bit_or (word lc3_32bit (val * 2 ^ 24))
          (bit_and (word lc3_32bit (val * 2 ^ 8)) 0x00ff_0000))
        (bit_and (val / 2 ^ 8) 0x0000_ff00))
      (val / 2 ^ 24)

-- `sizeof (vm_byte_load)`.
abbrev pub unit_size : Build → ℕ
unit_size lc3_16bit = 2
unit_size lc3_32bit = 4

-- `*source`, and `source` moved on.
unfoldable pub take_unit : Build → List ℕ → Option (ℕ × List ℕ)
take_unit lc3_16bit (x ∷ y ∷ source) = some (x + y * 2 ^ 8, source)
take_unit lc3_32bit (x ∷ y ∷ z ∷ t ∷ source) =
    some (x + y * 2 ^ 8 + z * 2 ^ 16 + t * 2 ^ 24, source)
take_unit b source = none

-- `(length - sizeof (vm_byte_load)) / sizeof (vm_byte_load)` in size_t.
unfoldable pub units_after_first : Build → ℕ → ℕ
units_after_first b length = (length + 2 ^ 64 - unit_size b) % 2 ^ 64 / unit_size b

-- The copying loop.
unfoldable pub copy_units : Build → ℕ → List ℕ → ℕ → (ℕ → ℕ) → Option (ℕ → ℕ)
copy_units b zero source dest mem = some mem
copy_units b (suc load_length) source dest mem = elim (take_unit b source) [
  | none ↦ none
  | some (val, rest) ↦ copy_units b load_length rest (dest + 1) (update mem dest (lc3_swap b val))
]

abbrev start_at : ℕ → Vm → Option (ℕ → ℕ) → Loading
start_at load_addr vm none = undefined
start_at load_addr vm (some copied) =
    returns load_success (record vm { mem = copied; reg = update vm.reg reg_pc load_addr })

-- `asserts` says whether the build keeps the assertions (NDEBUG is not defined).
module _ (b : Build) (asserts : Bool) where
  unfoldable pub load_units : ℕ → List ℕ → ℕ → Vm → Loading
  load_units load_addr source load_length vm =
      if asserts && leb (addr_max b) (load_addr + load_length)
      then aborted
      else if leb (addr_max b) (load_addr + load_length)
      then returns input_too_large vm
      else start_at load_addr vm (copy_units b load_length source load_addr vm.mem)

  unfoldable pub vm_load_data : List ℕ → ℕ → Vm → Loading
  unfolding load_units
  vm_load_data bytes length vm = elim (take_unit b bytes) [
    | none ↦ undefined
    | some (val, source) ↦ load_units (lc3_swap b val) source (units_after_first b length) vm
  ]

  -- `assert(res == VM_LOAD_SUCCESS)`.
  abbrev pub assert_loaded : Loading → Loading
  assert_loaded (returns load_success vm) = returns load_success vm
  assert_loaded (returns input_not_found vm) =
      if asserts then aborted else returns input_not_found vm
  assert_loaded (returns input_too_large vm) =
      if asserts then aborted else returns input_too_large vm
  assert_loaded aborted = aborted
  assert_loaded undefined = undefined

  -- `os` is the object code of the operating system that is linked in.
  unfoldable pub vm_load_os : List ℕ → Vm → Loading
  vm_load_os os vm = assert_loaded (vm_load_data os (length os) vm)

  -- What `open`, `fstat` and `mmap` give: the file's bytes, or a failure.
  unfoldable pub vm_load_file : Option (List ℕ) → Vm → Loading
  vm_load_file none vm = returns input_not_found vm
  vm_load_file (some bytes) vm = vm_load_data bytes (length bytes) vm
