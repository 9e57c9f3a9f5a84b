-- ===== src/Sim/Memory.antt =====
-- read_memory and read_memory_traced of lc3tools/lc3sim.c, in the build without USE_LC3IOEMU.
use lc3_script_tools.Base.{
  ℕ, ◌-◌, ◌^◌, ◌%◌, Bool, true, false, not, Option, none, some, ◌++◌, ◌==◌, if◌then◌else◌, update,
}
use lc3_script_tools.Sim.Text.{Text, text, hex_lower}
use lc3_script_tools.Sim.State.{
  World, exited, M, ◌>>=◌, ◌>>◌, pure, fail, gets, modify, when, ask, puts, by_mode, check_index,
  fprint, traceout,
}

abbrev pub kbsr : ℕ
kbsr = 0xfe00

abbrev pub kbdr : ℕ
kbdr = 0xfe02

abbrev pub dsr : ℕ
dsr = 0xfe04

abbrev pub ddr : ℕ
ddr = 0xfe06

abbrev pub mcr : ℕ
mcr = 0xfffe

abbrev pub status : Bool → ℕ
status b = if b then 0x8000 else 0

-- `lc3_memory[addr]`.
unfoldable pub load : ℕ → M ℕ
load addr = do check_index addr; gets (λ s. s.mem addr)

unfoldable pub trace_read : ℕ → ℕ → Text
unfolding hex_lower
trace_read addr ret =
    text "MEM["
    ++ hex_lower 4 (addr % 65536)
    ++ text "] RD "
    ++ hex_lower 4 (ret % 65536)
    ++ text "\n"

module _ (world : World) where
  unfoldable pub poll_lc3in : M Bool
  poll_lc3in = do f ← gets (λ s. s.lc3in); ask (world.ready f)

  -- `!rand_device || (random () & 15) == 0`: the second is not asked after the first.
  unfoldable pub device_ready : M Bool
  device_ready = do
    rand ← gets (λ s. s.options.rand_device)
    if rand then ask world.random_zero else pure true

  unfoldable pub read_kbsr : M ℕ
  unfolding poll_lc3in device_ready
  read_kbsr = do
    last ← gets (λ s. s.last_kbsr_read)
    when (not last) (do
      there ← poll_lc3in
      when there (do now ← device_ready; modify (λ s. record s { last_kbsr_read = now })))
    now ← gets (λ s. s.last_kbsr_read)
    pure (status now)

  -- `fgetc` gives an unsigned char. A character goes into the cell; at the end of the input -1 does, and the simulator exits.
  unfoldable pub take_char : Option ℕ → M (Unit {0})
  take_char (some c) = modify (λ s. record s { mem = update s.mem kbdr (c % 2 ^ 8) })
  take_char none = do
    modify (λ s. record s { mem = update s.mem kbdr (2 ^ 32 - 1) })
    by_mode (puts (text "ERR {LC-3 read past end of input stream.}"))
        (puts (text "LC-3 read past end of input stream."))
    fail (exited 3)

  unfoldable pub read_kbdr : M ℕ
  unfolding take_char
  read_kbdr = do
    last ← gets (λ s. s.last_kbsr_read)
    when last (do f ← gets (λ s. s.lc3in); c ← ask (world.next_char f); take_char c)
    modify (λ s. record s { last_kbsr_read = false })
    gets (λ s. s.mem kbdr)

  unfoldable pub read_dsr : M ℕ
  unfolding device_ready
  read_dsr = do
    last ← gets (λ s. s.last_dsr_read)
    when (not last) (do now ← device_ready; modify (λ s. record s { last_dsr_read = now }))
    now ← gets (λ s. s.last_dsr_read)
    pure (status now)

  unfoldable pub read_memory : ℕ → M ℕ
  unfolding load read_kbsr read_kbdr read_dsr
  read_memory addr =
      if addr == kbsr
      then read_kbsr
      else if addr == kbdr
      then read_kbdr
      else if addr == dsr
      then read_dsr
      else if addr == ddr
      then pure 0
      else if addr == mcr
      then pure 0x8000
      else load addr

  unfoldable pub read_memory_traced : ℕ → M ℕ
  unfolding read_memory trace_read
  read_memory_traced addr = do
    ret ← read_memory addr
    tracing ← gets (λ s. s.tracing)
    when tracing (fprint traceout (trace_read addr ret))
    pure ret
