-- ===== src/Sim/Triple/Memory.antt =====
-- Rules for the memory functions and the disassembly of lc3tools/lc3sim.c.
use lc3_script_tools.Base.{
  ℕ, zero, suc, ◌+◌, ◌%◌, ◌^◌, ◌<◌, refl, arith, inl, inr, Bool, true, false, not, Option, none,
  some, bit_and, ◌==◌, Bool-cases, update,
}
use lc3_script_tools.Sim.Inst.{has_bit, fmt_imm16}
use lc3_script_tools.Sim.Table.{Definition, definitions, find_definition}
use lc3_script_tools.Sim.State.{
  World, Sim, Stop, exited, pure, when, check_index, Out, stdout, traceout,
}
use lc3_script_tools.Sim.Memory.{
  kbsr, kbdr, dsr, ddr, mcr, status, load, poll_lc3in, device_ready, read_kbsr, take_char,
  read_kbdr, read_dsr, trace_read, read_memory, read_memory_traced,
}
use lc3_script_tools.Sim.Disassemble.{
  line_text, gui_prefix, check_word, disassemble_one_int, disassemble_one,
}
use lc3_script_tools.Sim.Store.{
  trace_write, put_console, write_ddr, write_mcr, show_change, store, write_memory,
  write_memory_traced, dump_loop, dump_delayed_mem_updates,
}
use lc3_script_tools.Sim.Triple.{
  IsValid, IsShown, IsFault, Keeps, Any, Word, Keeps-pure, Keeps-gets, Keeps-look, Keeps-modify,
  Keeps->>=, Keeps->>, Keeps-if, Keeps-when, Keeps-by_mode, Keeps-check, Keeps-ask, Keeps-fprint,
}

status-Word : (b : Bool) → Word (status b)
status-Word true = omega arith
status-Word false = omega arith

module _ {I : Sim → Type 0} {E : Stop → Type 0} (st : IsShown I)
    (valid : (s : Sim) → I s → IsValid s) (faults : (r : Stop) → IsFault r → E r)
    (world : World) where
  Keeps-load : (addr : ℕ) → addr < 65536 → Keeps I E Word (load addr)
  unfolding load
  Keeps-load addr lt = Keeps->>= (Keeps-check addr lt) λ _ _. Keeps-gets (λ s h. (valid s h).1 addr)

  Keeps-poll : Keeps I E Any (poll_lc3in world)
  unfolding poll_lc3in
  Keeps-poll = Keeps->>= (Keeps-look (λ s. s.lc3in)) λ f _. Keeps-ask st (world.ready f)

  Keeps-device : Keeps I E Any (device_ready world)
  unfolding device_ready
  Keeps-device =
      Keeps->>= (Keeps-look (λ s. s.options.rand_device))
        λ rand _. Keeps-if rand (Keeps-ask st world.random_zero) (Keeps-pure true tt)

  Keeps-read_kbsr : Keeps I E Word (read_kbsr world)
  unfolding read_kbsr
  Keeps-read_kbsr = Keeps->>= (Keeps-look (λ s. s.last_kbsr_read)) λ last _.
      Keeps->>
        (Keeps-when (not last) (
          Keeps->>= Keeps-poll λ there _. Keeps-when there (
            Keeps->>= Keeps-device λ now _.
              Keeps-modify (λ s. record s { last_kbsr_read = now }) (λ s h. st.on_kbsr s now h))))
        (Keeps->>= (Keeps-look (λ s. s.last_kbsr_read)) λ now _. Keeps-pure _ (status-Word now))

  Keeps-take_char : (c : Option ℕ) → Keeps I E Any (take_char world c)
  unfolding take_char
  Keeps-take_char (some c) = Keeps-modify _ (λ s h. st.on_mem s kbdr (c % 2 ^ 8) (omega arith) h)
  Keeps-take_char none = record {
    run = λ s h. elim (Bool-cases s.gui_mode) [
      | inl gui ↦ rw gui (faults (exited 3) refl)
      | inr plain ↦ rw plain (faults (exited 3) refl)
    ];
  }

  Keeps-read_kbdr : Keeps I E Word (read_kbdr world)
  unfolding read_kbdr
  Keeps-read_kbdr = Keeps->>= (Keeps-look (λ s. s.last_kbsr_read)) λ last _.
      Keeps->>
        (Keeps-when last (
          Keeps->>= (Keeps-look (λ s. s.lc3in))
            λ f _. Keeps->>= (Keeps-ask st (world.next_char f)) λ c _. Keeps-take_char c))
        (Keeps->>
          (Keeps-modify (λ s. record s { last_kbsr_read = false }) (λ s h. st.on_kbsr s false h))
          (Keeps-gets (λ s h. (valid s h).1 kbdr)))

  Keeps-read_dsr : Keeps I E Word (read_dsr world)
  unfolding read_dsr
  Keeps-read_dsr = Keeps->>= (Keeps-look (λ s. s.last_dsr_read)) λ last _.
      Keeps->>
        (Keeps-when (not last) (
          Keeps->>= Keeps-device λ now _.
            Keeps-modify (λ s. record s { last_dsr_read = now }) (λ s h. st.on_dsr s now h)))
        (Keeps->>= (Keeps-look (λ s. s.last_dsr_read)) λ now _. Keeps-pure _ (status-Word now))

  pub Keeps-read : (addr : ℕ) → addr < 65536 → Keeps I E Word (read_memory world addr)
  unfolding read_memory
  Keeps-read addr lt = Keeps-if (addr == kbsr) Keeps-read_kbsr (
      Keeps-if (addr == kbdr) Keeps-read_kbdr (
        Keeps-if (addr == dsr) Keeps-read_dsr (
          Keeps-if (addr == ddr) (Keeps-pure _ (omega arith))
            (Keeps-if (addr == mcr) (Keeps-pure _ (omega arith)) (Keeps-load addr lt)))))

  pub Keeps-read_traced : (addr : ℕ) → addr < 65536 → Keeps I E Word (read_memory_traced world addr)
  unfolding read_memory_traced
  Keeps-read_traced addr lt = Keeps->>= (Keeps-read addr lt) λ ret w.
      Keeps->>= (Keeps-look (λ s. s.tracing)) λ tracing _.
        Keeps->> (Keeps-when tracing (Keeps-fprint st traceout (trace_read addr ret)))
          (Keeps-pure _ w)

  Keeps-prefix : (out : Out) (addr : ℕ) → Keeps I E Any (gui_prefix world out addr)
  unfolding gui_prefix
  Keeps-prefix out addr = record { run = λ s h. (Keeps-when _ (Keeps-fprint st stdout _)).run s h }

  Keeps-check_found :
      (inst : ℕ) (d : Option Definition)
      → inst < 65536
      → Keeps I E Any (elim d [
        | none ↦ pure tt
        | some d ↦ when (has_bit d.format fmt_imm16) (check_index inst)
      ])
  Keeps-check_found inst none lt = Keeps-pure tt tt
  Keeps-check_found inst (some d) lt = Keeps-when _ (Keeps-check inst lt)

  Keeps-check_word : (inst : ℕ) → inst < 65536 → Keeps I E Any (check_word world inst)
  unfolding check_word
  Keeps-check_word inst lt = Keeps-check_found inst (find_definition inst definitions) lt

  pub Keeps-disassemble_int :
      (out : Out) (addr : ℕ) → addr < 65536 → Keeps I E Any (disassemble_one_int world out addr)
  unfolding disassemble_one_int
  Keeps-disassemble_int out addr lt = Keeps->>= (Keeps-read addr lt) λ inst w.
      Keeps->> (Keeps-prefix out addr) (
        Keeps->> (Keeps-check addr lt) (
          Keeps->> (Keeps-check_word inst w) (
            Keeps->>= (Keeps-look (λ s. line_text s addr inst))
              λ line _. Keeps-fprint st out line)))

  pub Keeps-disassemble_one : (addr : ℕ) → addr < 65536 → Keeps I E Any (disassemble_one world addr)
  unfolding disassemble_one
  Keeps-disassemble_one addr lt = Keeps-disassemble_int stdout addr lt

  Keeps-put_console : (value : ℕ) → Keeps I E Any (put_console value)
  unfolding put_console
  Keeps-put_console value = Keeps-modify _ (λ s h. st.on_console s _ h)

  Keeps-write_ddr : (value : ℕ) → Keeps I E Any (write_ddr value)
  unfolding write_ddr
  Keeps-write_ddr value = Keeps->>= (Keeps-look (λ s. s.last_dsr_read)) λ last _. Keeps-when last (
      Keeps->> (Keeps-put_console value)
        (Keeps-modify (λ s. record s { last_dsr_read = false }) (λ s h. st.on_dsr s false h)))

  Keeps-write_mcr : (value : ℕ) → Keeps I E Any (write_mcr value)
  unfolding write_mcr
  Keeps-write_mcr value =
      Keeps-when (bit_and value 0x8000 == 0)
        (Keeps-modify (λ s. record s { should_halt = true }) (λ s h. st.on_halt s h))

  Keeps-show : (addr : ℕ) → addr < 65536 → Keeps I E Any (show_change world addr)
  unfolding show_change
  Keeps-show addr lt = Keeps->>= (Keeps-look (λ s. s.options.delay_mem_update)) λ delay _.
      Keeps-if (not delay) (Keeps-disassemble_one addr lt) (
        Keeps-modify
          (λ s. record s { show_later = update s.show_later addr true; have_mem_to_dump = true })
          (λ s h. st.on_later s _ true h))

  Keeps-store :
      (addr value : ℕ) → addr < 65536 → Word value → Keeps I E Any (store world addr value)
  unfolding store
  Keeps-store addr value lt w = Keeps->>= (Keeps-load addr lt) λ old _.
      Keeps-when (not (value == old)) (
        Keeps->>
          (Keeps-modify (λ s. record s { mem = update s.mem addr value })
            (λ s h. st.on_mem s addr value w h))
          (Keeps-by_mode (Keeps-show addr lt) (Keeps-pure tt tt)))

  Keeps-write :
      (addr value : ℕ) → addr < 65536 → Word value → Keeps I E Any (write_memory world addr value)
  unfolding write_memory
  Keeps-write addr value lt w = Keeps-if (addr == kbsr) (Keeps-pure tt tt) (
      Keeps-if (addr == kbdr) (Keeps-pure tt tt) (
        Keeps-if (addr == dsr) (Keeps-pure tt tt) (
          Keeps-if (addr == ddr) (Keeps-write_ddr value)
            (Keeps-if (addr == mcr) (Keeps-write_mcr value) (Keeps-store addr value lt w)))))

  pub Keeps-write_traced :
      (addr value : ℕ)
      → addr < 65536
      → Word value
      → Keeps I E Any (write_memory_traced world addr value)
  unfolding write_memory_traced
  Keeps-write_traced addr value lt w = Keeps->>= (Keeps-look (λ s. s.tracing)) λ tracing _.
      Keeps->> (Keeps-when tracing (Keeps-fprint st traceout (trace_write addr value)))
        (Keeps-write addr value lt w)

  Keeps-dump_loop : (n addr : ℕ) → addr + n < 65537 → Keeps I E Any (dump_loop world n addr)
  unfolding dump_loop
  Keeps-dump_loop zero addr lt = Keeps-pure tt tt
  Keeps-dump_loop (suc n) addr lt = Keeps->>= (Keeps-look (λ s. s.show_later addr)) λ later _.
      Keeps->>
        (Keeps-when later (
          Keeps->> (Keeps-disassemble_one addr (omega arith)) (
            Keeps-modify (λ s. record s { show_later = update s.show_later addr false })
              (λ s h. st.on_later s _ s.have_mem_to_dump h))))
        (Keeps-dump_loop n (addr + 1) (omega arith))

  pub Keeps-dump : Keeps I E Any (dump_delayed_mem_updates world)
  unfolding dump_delayed_mem_updates
  Keeps-dump = Keeps->>= (Keeps-look (λ s. s.have_mem_to_dump)) λ some_later _.
      Keeps-when some_later (
        Keeps->>
          (Keeps-modify (λ s. record s { have_mem_to_dump = false })
            (λ s h. st.on_later s s.show_later false h))
          (Keeps-dump_loop 65536 0 (omega arith)))
