-- ===== src/Vm/Load/Image.antt =====
-- What loading an object file does: the file is an origin and words, each big-endian.
use lc3_script_tools.Base.{
  ℕ, zero, suc, ◌+◌, ◌*◌, ◌^◌, ◌≤◌, ◌<◌, ◌⊎◌, ◌≡◌, refl, ◌∙◌, arith, Bool, some, List, [], ◌∷◌,
  ◌++◌, length, get_or, All, update, update_ne, if◌then◌else◌,
}
use lc3_script_tools.Vm.Types.{
  Build, lc3_16bit, lc3_32bit, register_bits, addr_max, reg_pc, reg_psr,
}
use lc3_script_tools.Vm.State.{Vm}
use lc3_script_tools.Vm.Load.{
  load_success, input_too_large, returns, aborted, unit_size, take_unit, units_after_first,
  copy_units, load_units, vm_load_data,
}
use lc3_script_tools.Vm.Load.Swap.{big_endian, swap-host_word}

-- The bytes of words, one after the other.
abbrev pub image : Build → List ℕ → List ℕ
image b [] = []
image b (w ∷ ws) = big_endian b w ++ image b ws

abbrev pub IsWord : Build → ℕ → Type 0
IsWord b w = w < 2 ^ register_bits b

-- The words from the address `at` on, over what was there.
abbrev pub place : ℕ → List ℕ → (ℕ → ℕ) → ℕ → ℕ
place at [] mem = mem
place at (w ∷ ws) mem = place (at + 1) ws (update mem at w)

copy-image :
    (b : Build) (ws : List ℕ) (at : ℕ) (mem : ℕ → ℕ)
    → All (IsWord b) ws
    → copy_units b (length ws) (image b ws) at mem ≡ some (place at ws mem)
unfolding copy_units take_unit
copy-image b [] at mem h = refl
copy-image lc3_16bit (w ∷ ws) at mem h =
    rw (swap-host_word lc3_16bit w h.0) (copy-image lc3_16bit ws (at + 1) (update mem at w) h.1)
copy-image lc3_32bit (w ∷ ws) at mem h =
    rw (swap-host_word lc3_32bit w h.0) (copy-image lc3_32bit ws (at + 1) (update mem at w) h.1)

-- An index outside the words is left alone.
place_outside :
    (at : ℕ) (ws : List ℕ) (mem : ℕ → ℕ) (a : ℕ)
    → (a < at) ⊎ (at + length ws ≤ a)
    → place at ws mem a ≡ mem a
place_outside at [] mem a h = refl
place_outside at (w ∷ ws) mem a h =
    place_outside (at + 1) ws (update mem at w) a (omega arith) ∙ update_ne mem at a w (omega arith)

place_inside :
    (at : ℕ) (ws : List ℕ) (mem : ℕ → ℕ) (i : ℕ)
    → i < length ws
    → place at ws mem (at + i) ≡ get_or ws i 0
place_inside at [] mem i h = absurd (omega arith)
place_inside at (w ∷ ws) mem zero h =
    place_outside (at + 1) ws (update mem at w) (at + 0) (omega arith) ∙ ground arith
place_inside at (w ∷ ws) mem (suc i) h =
    let e : at + suc i ≡ at + 1 + i = omega arith in
    rw e (place_inside (at + 1) ws (update mem at w) i (omega arith))

length-image : (b : Build) (ws : List ℕ) → length (image b ws) ≡ unit_size b * length ws
length-image b [] = omega arith
length-image lc3_16bit (w ∷ ws) = omega (arith, length-image lc3_16bit ws)
length-image lc3_32bit (w ∷ ws) = omega (arith, length-image lc3_32bit ws)

units-image :
    (b : Build) (origin : ℕ) (ws : List ℕ)
    → unit_size b * suc (length ws) < 2 ^ 64
    → units_after_first b (length (image b (origin ∷ ws))) ≡ length ws
unfolding units_after_first
units-image lc3_16bit origin ws h = omega (arith, length-image lc3_16bit ws)
units-image lc3_32bit origin ws h = omega (arith, length-image lc3_32bit ws)

-- `vm` with an image in memory and the PC at its origin.
pub record IsLoaded (b : Build) (origin : ℕ) (ws : List ℕ) (vm vm' : Vm) : Type 0 where
  pub inside : (i : ℕ) → i < length ws → vm'.mem (origin + i) ≡ get_or ws i 0
  pub outside : (a : ℕ) → (a < origin) ⊎ (origin + length ws ≤ a) → vm'.mem a ≡ vm.mem a
  pub starts : vm'.reg reg_pc ≡ origin
  pub registers : (r : ℕ) → r < reg_pc → vm'.reg r ≡ vm.reg r
  pub flags : vm'.reg reg_psr ≡ vm.reg reg_psr
  pub console : (vm'.polls ≡ vm.polls) × (vm'.reads ≡ vm.reads) × (vm'.output ≡ vm.output)

first_unit :
    (b : Build) (asserts : Bool) (origin : ℕ) (rest : List ℕ) (n : ℕ) (vm : Vm)
    → IsWord b origin
    → vm_load_data b asserts (big_endian b origin ++ rest) n vm
      ≡ load_units b asserts origin rest (units_after_first b n) vm
unfolding vm_load_data take_unit
first_unit lc3_16bit asserts origin rest n vm h = rw (swap-host_word lc3_16bit origin h)
first_unit lc3_32bit asserts origin rest n vm h = rw (swap-host_word lc3_32bit origin h)

-- The memory is far smaller than what size_t counts.
size_fits : (b : Build) (n : ℕ) → n < addr_max b → unit_size b * suc n < 2 ^ 64
size_fits lc3_16bit n h = omega arith
size_fits lc3_32bit n h = omega arith

module _ (b : Build) (asserts : Bool) (origin : ℕ) (ws : List ℕ) (vm : Vm)
    (words : All (IsWord b) (origin ∷ ws)) where
  abbrev loaded : Vm
  loaded = record vm { mem = place origin ws vm.mem; reg = update vm.reg reg_pc origin }

  abbrev file : List ℕ
  file = image b (origin ∷ ws)

  load_file_units :
      unit_size b * suc (length ws) < 2 ^ 64
      → vm_load_data b asserts file (length file) vm
        ≡ load_units b asserts origin (image b ws) (length ws) vm
  load_file_units h =
      first_unit b asserts origin (image b ws) (length file) vm words.0
      ∙ rw (units-image b origin ws h)

  loaded-IsLoaded : IsLoaded b origin ws vm loaded
  loaded-IsLoaded = record {
    inside = place_inside origin ws vm.mem;
    outside = place_outside origin ws vm.mem;
    starts = refl;
    registers = λ r lt. update_ne vm.reg reg_pc r origin (omega arith);
    flags = refl;
    console = (refl, refl, refl);
  }

  -- An object file whose image ends inside the memory is loaded, with assertions on or off: the
  -- file's words, big-endian, stand from the origin on, every other cell is as before, the PC is
  -- the origin, and the other registers and the console are untouched.
  pub load_data_fits :
      origin + length ws < addr_max b
      → (vm' : Vm) × (vm_load_data b asserts file (length file) vm ≡ returns load_success vm')
        × IsLoaded b origin ws vm vm'
  load_data_fits h =
      (loaded, load_file_units (size_fits b (length ws) (omega arith)) ∙ enough, loaded-IsLoaded)
    where
      enough : load_units b asserts origin (image b ws) (length ws) vm ≡ returns load_success loaded
      enough = unfold load_units in ground (arith, copy-image b ws origin vm.mem words.1)

  -- An image, of less than 2 ^ 64 bytes, that ends at the last cell or later is not loaded: with assertions the process is
  -- aborted, without them VM_INPUT_TOO_LARGE is returned and the machine is unchanged.
  pub load_data_too_large :
      unit_size b * suc (length ws) < 2 ^ 64
      → addr_max b ≤ origin + length ws
      → vm_load_data b asserts file (length file) vm
        ≡ (if asserts then aborted else returns input_too_large vm)
  load_data_too_large h large = load_file_units h ∙ refused
    where
      refused :
          load_units b asserts origin (image b ws) (length ws) vm
          ≡ (if asserts then aborted else returns input_too_large vm)
      refused = unfold load_units in ground arith
