-- ===== src/Vm/Triple.antt =====
-- Invariants of the machine: what holds of its words, and rules that carry an invariant through
-- the functions of lc3sim-c/vm.c. `Keeps I Q m` says that `m` preserves `I` and, where it goes on,
-- returns a value that satisfies `Q`.
pub mod Memory
pub mod Perform
pub mod Run
use lc3_script_tools.Base.{
  ℕ, ◌+◌, ◌^◌, ◌<◌, ◌≡◌, refl, ◌⊎◌, arith, Bool, true, false, [], ◌∷◌, ◌++◌, if◌then◌else◌, update,
}
use lc3_script_tools.Vm.Types.{
  Build, lc3_16bit, lc3_32bit, register_bits, addr_max, addr_kbsr, addr_kbdr, addr_dsr, addr_ddr,
  reg_psr, flag_negative, flag_zero, flag_positive, VmResult, success, opcode_nop, res_addr_mcr,
  opcode_not_implemented, error_addres_out_of_range,
}
use lc3_script_tools.Vm.State.{Vm, Res, ok, stop, M, ◌>>=◌, pure, halt, continue, get_reg, set_reg}

abbrev pub IsFlag : ℕ → Type 0
IsFlag v = (v ≡ flag_negative) ⊎ ((v ≡ flag_zero) ⊎ (v ≡ flag_positive))

-- Every register and every cell holds a word, and the status register exactly one flag.
pub record IsValid (b : Build) (vm : Vm) : Type 0 where
  pub regs : (i : ℕ) → vm.reg i < 2 ^ register_bits b
  pub cells : (a : ℕ) → vm.mem a < 2 ^ register_bits b
  pub psr : IsFlag (vm.reg reg_psr)

-- The cells that a store can reach.
pub record IsCell (b : Build) (a : ℕ) : Type 0 where
  pub in_memory : a < addr_max b
  pub not_kbsr : a ≡ addr_kbsr → ⊥
  pub not_kbdr : a ≡ addr_kbdr → ⊥
  pub not_dsr : a ≡ addr_dsr → ⊥
  pub not_ddr : a ≡ addr_ddr → ⊥

-- What an invariant has to survive: a write of one register, of one cell, and the console's calls.
pub record IsStable (b : Build) (I : Vm → Type 0) : Type 0 where
  pub on_reg :
      (vm : Vm) (i v : ℕ)
      → i < reg_psr
      → v < 2 ^ register_bits b
      → I vm
      → I (record vm { reg = update vm.reg i v })
  pub on_psr : (vm : Vm) (v : ℕ) → IsFlag v → I vm → I (record vm { reg = update vm.reg reg_psr v })
  pub on_cell :
      (vm : Vm) (a v : ℕ)
      → IsCell b a
      → v < 2 ^ register_bits b
      → I vm
      → I (record vm { mem = update vm.mem a v })
  pub on_polls : (vm : Vm) → I vm → I (record vm { polls = vm.polls + 1 })
  pub on_reads : (vm : Vm) → I vm → I (record vm { reads = vm.reads + 1 })
  pub on_output : (vm : Vm) (c : ℕ) → I vm → I (record vm { output = vm.output ++ c ∷ [] })

flag-lt : (b : Build) (v : ℕ) → IsFlag v → v < 2 ^ register_bits b
flag-lt lc3_16bit v f = ground arith
flag-lt lc3_32bit v f = ground arith

pub IsValid-IsStable : (b : Build) → IsStable b (IsValid b)
IsValid-IsStable b = record {
  on_reg = λ vm i v lt w h. record {
    regs = λ j. ground (arith, h.regs j);
    cells = h.cells;
    psr = ground (arith, h.psr);
  };
  on_psr = λ vm v f h. record {
    regs = λ j. ground (arith, h.regs j, flag-lt b v f);
    cells = h.cells;
    psr = f;
  };
  on_cell =
      λ vm a v c w h. record { regs = h.regs; cells = λ j. ground (arith, h.cells j); psr = h.psr };
  on_polls = λ vm h. record { regs = h.regs; cells = h.cells; psr = h.psr };
  on_reads = λ vm h. record { regs = h.regs; cells = h.cells; psr = h.psr };
  on_output = λ vm c h. record { regs = h.regs; cells = h.cells; psr = h.psr };
}

pub ×-IsStable :
    {b : Build} {I J : Vm → Type 0} → IsStable b I → IsStable b J → IsStable b (λ vm. I vm × J vm)
×-IsStable i j = record {
  on_reg = λ vm r v lt w h. (i.on_reg vm r v lt w h.0, j.on_reg vm r v lt w h.1);
  on_psr = λ vm v f h. (i.on_psr vm v f h.0, j.on_psr vm v f h.1);
  on_cell = λ vm a v c w h. (i.on_cell vm a v c w h.0, j.on_cell vm a v c w h.1);
  on_polls = λ vm h. (i.on_polls vm h.0, j.on_polls vm h.1);
  on_reads = λ vm h. (i.on_reads vm h.0, j.on_reads vm h.1);
  on_output = λ vm c h. (i.on_output vm c h.0, j.on_output vm c h.1);
}

-- The results that an instruction may return besides VM_SUCCESS.
abbrev pub IsRefusal : VmResult → Type 0
IsRefusal success = ⊥
IsRefusal opcode_nop = Unit
IsRefusal res_addr_mcr = ⊥
IsRefusal opcode_not_implemented = Unit
IsRefusal error_addres_out_of_range = Unit

-- What `m` returns if it goes on, and with what it stops.
abbrev pub Returns : {A : Type 0} → (VmResult → Vm → Type 0) → (A → Type 0) → Res A × Vm → Type 0
Returns E Q (ok a, vm) = Q a
Returns E Q (stop r, vm) = E r vm

pub record Keeps {A : Type 0} (I : Vm → Type 0) (E : VmResult → Vm → Type 0) (Q : A → Type 0)
    (m : M A) : Type 0 where
  pub run : (vm : Vm) → I vm → I (m vm).1 × Returns E Q (m vm)

abbrev pub Performs : {A : Type 0} → (Vm → Type 0) → (A → Type 0) → M A → Type 0
Performs I = Keeps I (λ r vm. IsRefusal r)

-- Nothing is said of what is returned.
abbrev pub Any : {A : Type 0} → A → Type 0
Any a = Unit

module _ {I : Vm → Type 0} {E : VmResult → Vm → Type 0} where
  pub Keeps-pure : {A : Type 0} {Q : A → Type 0} {a : A} → Q a → Keeps I E Q (pure a)
  Keeps-pure q = record { run = λ vm h. (h, q) }

  pub Keeps-halt :
      {A : Type 0} {Q : A → Type 0} {r : VmResult}
      → ((vm : Vm) → I vm → E r vm)
      → Keeps I E Q (halt r)
  Keeps-halt e = record { run = λ vm h. (h, e vm h) }

  continue-Keeps :
      {A B : Type 0} (P : A → Type 0) (Q : B → Type 0) (f : A → M B)
      → ((a : A) → P a → Keeps I E Q (f a))
      → (s : Res A × Vm) → I s.1
      → Returns E P s
      → I (continue s f).1 × Returns E Q (continue s f)
  continue-Keeps P Q f k (ok a, vm) h p = (k a p).run vm h
  continue-Keeps P Q f k (stop r, vm) h e = (h, e)

  pub Keeps->>= :
      {A B : Type 0} {P : A → Type 0} {Q : B → Type 0} {m : M A} {f : A → M B}
      → Keeps I E P m
      → ((a : A) → P a → Keeps I E Q (f a))
      → Keeps I E Q (m >>= f)
  Keeps->>= {P} {Q} {m} {f} km kf = record {
    run = λ vm h. continue-Keeps P Q f kf (m vm) (km.run vm h).0 (km.run vm h).1;
  }

  pub Keeps-if :
      {A : Type 0} {Q : A → Type 0} (c : Bool) {m n : M A}
      → Keeps I E Q m
      → Keeps I E Q n
      → Keeps I E Q (if c then m else n)
  Keeps-if true km kn = km
  Keeps-if false km kn = kn

  -- A branch may use what its test says.
  pub Keeps-dif :
      {A : Type 0} {Q : A → Type 0} (c : Bool) {m n : M A}
      → (c ≡ true → Keeps I E Q m)
      → (c ≡ false → Keeps I E Q n)
      → Keeps I E Q (if c then m else n)
  Keeps-dif true km kn = km refl
  Keeps-dif false km kn = kn refl

module _ {b : Build} {I : Vm → Type 0} {E : VmResult → Vm → Type 0}
    (valid : (vm : Vm) → I vm → IsValid b vm) (s : IsStable b I) where
  pub Keeps-get_reg : (i : ℕ) → Keeps I E (λ v. v < 2 ^ register_bits b) (get_reg i)
  Keeps-get_reg i = record { run = λ vm h. (h, (valid vm h).regs i) }

  pub Keeps-set_reg :
      (i v : ℕ) → i < reg_psr → v < 2 ^ register_bits b → Keeps I E Any (set_reg i v)
  Keeps-set_reg i v lt w = record { run = λ vm h. (s.on_reg vm i v lt w h, tt) }

  pub Keeps-set_psr : (v : ℕ) → IsFlag v → Keeps I E Any (set_reg reg_psr v)
  Keeps-set_psr v f = record { run = λ vm h. (s.on_psr vm v f h, tt) }

-- A weaker promise on the results.
weaker :
    {A : Type 0} {E F : VmResult → Vm → Type 0} (Q : A → Type 0)
    → ((r : VmResult) (vm : Vm) → E r vm → F r vm)
    → (s : Res A × Vm) → Returns E Q s
    → Returns F Q s
weaker Q w (ok a, vm) q = q
weaker Q w (stop r, vm) e = w r vm e

pub Keeps-weaken :
    {A : Type 0} {I : Vm → Type 0} {E F : VmResult → Vm → Type 0} {Q : A → Type 0} {m : M A}
    → ((r : VmResult) (vm : Vm) → E r vm → F r vm)
    → Keeps I E Q m
    → Keeps I F Q m
Keeps-weaken {Q} {m} w k = record {
  run = λ vm h. ((k.run vm h).0, weaker Q w (m vm) (k.run vm h).1);
}
