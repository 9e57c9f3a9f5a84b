-- ===== src/Vm/Triple/Memory.antt =====
-- Rules for the memory and console calls of lc3sim-c/vm.c.
use lc3_script_tools.Base.{
  ℕ, ◌^◌, ◌<◌, ◌≡◌, arith, Bool, true, false, ltb, leb, ◌==◌, if◌then◌else◌,
}
use lc3_script_tools.Vm.Types.{
  Build, register_bits, addr_max, addr_kbsr, addr_kbdr, addr_dsr, addr_ddr, status_bit,
}
use lc3_script_tools.Vm.State.{Console, Vm}
use lc3_script_tools.Vm.Memory.{
  vm_mem_read, vm_write, select_stdin, getchar, read_kbsr, read_kbdr, vm_read,
}
use lc3_script_tools.Vm.Words.{status_bit-lt, zero-lt_word, char_word-lt}
use lc3_script_tools.Vm.Triple.{
  IsValid, IsCell, IsStable, Performs, Any, Keeps-pure, Keeps-halt, Keeps->>=, Keeps-if, Keeps-dif,
}

module _ {b : Build} {I : Vm → Type 0} (valid : (vm : Vm) → I vm → IsValid b vm)
    (s : IsStable b I) where
  abbrev Word : ℕ → Type 0
  Word v = v < 2 ^ register_bits b

  Keeps-mem_read : (addr : ℕ) → Performs I Word (vm_mem_read b addr)
  unfolding vm_mem_read
  Keeps-mem_read addr =
      Keeps-if (leb (addr_max b) addr) (Keeps-halt (λ _ _. tt))
        (record { run = λ vm h. (h, (valid vm h).cells addr) })

  is_cell :
      {addr : ℕ}
      → (addr == addr_kbsr) ≡ false
      → (addr == addr_kbdr) ≡ false
      → (addr == addr_dsr) ≡ false
      → (addr == addr_ddr) ≡ false
      → leb (addr_max b) addr ≡ false
      → IsCell b addr
  is_cell n1 n2 n3 n4 n5 = ground arith

  pub Keeps-vm_write : (addr val : ℕ) → Word val → Performs I Any (vm_write b addr val)
  unfolding vm_write
  Keeps-vm_write addr val w =
      Keeps-dif (addr == addr_kbsr) (λ _. Keeps-pure tt)
        λ n1.
          Keeps-dif (addr == addr_kbdr) (λ _. Keeps-pure tt)
            λ n2.
              Keeps-dif (addr == addr_dsr) (λ _. Keeps-pure tt)
                λ n3.
                  Keeps-dif (addr == addr_ddr)
                    (λ _. record { run = λ vm h. (s.on_output vm _ h, tt) })
                    λ n4.
                      Keeps-dif (leb (addr_max b) addr) (λ _. (Keeps-halt (λ _ _. tt)))
                        λ n5. record {
                          run = λ vm h. (s.on_cell vm addr val (is_cell n1 n2 n3 n4 n5) w h, tt);
                        }

  kbsr-Word : (ready : Bool) → Word (if ready then status_bit b else 0)
  kbsr-Word true = status_bit-lt b
  kbsr-Word false = zero-lt_word b

  module _ (console : Console) where
    pub Keeps-getchar : Performs I Word (getchar b console)
    unfolding getchar
    Keeps-getchar = record { run = λ vm h. (s.on_reads vm h, char_word-lt b _) }

    Keeps-select_stdin : Performs I Any (select_stdin b console)
    unfolding select_stdin
    Keeps-select_stdin = record { run = λ vm h. (s.on_polls vm h, tt) }

    Keeps-read_kbsr : Performs I Word (read_kbsr b console)
    unfolding read_kbsr
    Keeps-read_kbsr = Keeps->>= Keeps-select_stdin λ ready _. Keeps-pure (kbsr-Word ready)

    Keeps-read_kbdr : Performs I Word (read_kbdr b console)
    unfolding read_kbdr
    Keeps-read_kbdr =
        Keeps->>= Keeps-read_kbsr
          λ kbsr _. Keeps-if (ltb 0 kbsr) Keeps-getchar (Keeps-pure (zero-lt_word b))

    pub Keeps-vm_read : (addr : ℕ) → Performs I Word (vm_read b console addr)
    unfolding vm_read
    Keeps-vm_read addr = Keeps-if (addr == addr_kbsr) Keeps-read_kbsr (
        Keeps-if (addr == addr_kbdr) Keeps-read_kbdr (
          Keeps-if (addr == addr_dsr) (Keeps-pure (status_bit-lt b))
            (Keeps-if (addr == addr_ddr) (Keeps-pure (zero-lt_word b)) (Keeps-mem_read addr))))
