-- ===== src/Sim/Files.antt =====
-- Loading: read_obj_file, read_sym_file and squash_symbols of lc3tools/lc3sim.c.
use lc3_script_tools.Base.{
  ℕ, zero, suc, ◌+◌, ◌*◌, ◌%◌, ◌^◌, bit_or, Bool, true, false, Option, none, some, List, [], ◌∷◌,
  ◌==◌, ltb, ◌&&◌, if◌then◌else◌, length,
}
use lc3_script_tools.Symbol.Table.{
  Table, add_symbol, Adding, added, refused, undefined, remove_symbol_at_addr,
}
use lc3_script_tools.Sim.Text.{Text, text, skip_spaces, same_text}
use lc3_script_tools.Sim.State.{
  World, out_of_bounds, out_of_fuel, M, ◌>>=◌, ◌>>◌, pure, fail, gets, modify, ask,
}
use lc3_script_tools.Sim.Store.{write_memory}
use lc3_script_tools.Sim.Scan.{take_word, scan_hex}

-- `(buf[0] << 8) | buf[1]`.
abbrev pub big_endian : ℕ → ℕ → ℕ
big_endian hi lo = bit_or (hi * 2 ^ 8) lo

unfoldable pub set_symbols : Option Table → M (Unit {0})
set_symbols (some t) = modify (λ s. record s { symbols = t })
set_symbols none = fail out_of_bounds

-- The loop of squash_symbols, on fuel.
unfoldable pub squash_loop : ℕ → ℕ → ℕ → M (Unit {0})
squash_loop zero addr_s addr_e = if addr_s == addr_e then pure tt else fail out_of_fuel
squash_loop (suc fuel) addr_s addr_e =
    let rest = squash_loop fuel ((addr_s + 1) % 65536) addr_e in
    if addr_s == addr_e
    then pure tt
    else (gets (λ s. remove_symbol_at_addr addr_s s.symbols) >>= set_symbols) >> rest

-- From an address to another there are fewer than 65536.
unfoldable pub squash_symbols : ℕ → ℕ → M (Unit {0})
squash_symbols addr_s addr_e = squash_loop 65536 addr_s addr_e

-- `fread (buf, 2, 1, f) == 1` takes two bytes.
unfoldable write_image : World → List ℕ → ℕ → M ℕ
write_image world [] addr = pure addr
write_image world (hi ∷ []) addr = pure addr
write_image world (hi ∷ lo ∷ more) addr =
    let rest = write_image world more ((addr + 1) % 65536) in
    write_memory world addr (big_endian hi lo) >> rest

-- The first and the last address, as `*startp` and `*endp`. `none` is -1.
unfoldable load_image : World → List ℕ → M (Option (ℕ × ℕ))
unfolding write_image squash_symbols
load_image world [] = pure none
load_image world (hi ∷ []) = pure none
load_image world (hi ∷ lo ∷ more) = do
  end ← write_image world more (big_endian hi lo)
  squash_symbols (big_endian hi lo) end
  pure (some (big_endian hi lo, end))

unfoldable pub read_obj_file : World → Text → M (Option (ℕ × ℕ))
unfolding load_image
read_obj_file world filename = do
  file ← ask (world.contents filename)
  elim file [ none ↦ pure none | some bytes ↦ load_image world bytes ]

-- `fgets (buf, n + 1, f)`: up to `n` bytes, up to a newline and with it.
unfoldable get_line : ℕ → List ℕ → Text × List ℕ
get_line zero bytes = ([], bytes)
get_line (suc n) [] = ([], [])
get_line (suc n) (c ∷ bytes) =
    let rest = get_line n bytes in if c == 10 then (c ∷ [], bytes) else (c ∷ rest.0, rest.1)

-- `sscanf (buf, "%*s%*s%80s", sym) == 1`, and the name that ends the heading.
unfoldable is_heading : Text → Bool
unfolding take_word
is_heading buf =
    let first = take_word (length buf) (skip_spaces buf) in
    let second = take_word (length buf) (skip_spaces first.1) in
    let third = take_word 80 (skip_spaces second.1) in
    (ltb 0 (length first.0) && ltb 0 (length second.0)) && same_text third.0 (text "------------")

-- `sscanf (buf, "%*s%80s%x", sym, &addr)`, if it converts both.
unfoldable scan_symbol : Text → Option (Text × ℕ)
unfolding take_word
scan_symbol buf =
    let first = take_word (length buf) (skip_spaces buf) in
    let sym = take_word 80 (skip_spaces first.1) in
    if ltb 0 (length first.0) && ltb 0 (length sym.0)
    then elim (scan_hex (skip_spaces sym.1)) [ none ↦ none | some v ↦ some (sym.0, v.0) ]
    else none

unfoldable set_added : Adding → M (Unit {0})
set_added (added t) = modify (λ s. record s { symbols = t })
set_added refused = pure tt
set_added undefined = fail out_of_bounds

-- The loop of read_sym_file over the lines: a line is at least a byte, so as many rounds as bytes
-- are enough.
unfoldable sym_loop : ℕ → Bool → List ℕ → M (Unit {0})
unfolding get_line is_heading scan_symbol set_added
sym_loop fuel adding [] = pure tt
sym_loop zero adding (c ∷ bytes) = fail out_of_fuel
sym_loop (suc fuel) false (c ∷ bytes) =
    let buf = get_line 99 (c ∷ bytes) in sym_loop fuel (is_heading buf.0) buf.1
sym_loop (suc fuel) true (c ∷ bytes) =
    let buf = get_line 99 (c ∷ bytes) in
    let rest = sym_loop fuel true buf.1 in
    elim (scan_symbol buf.0) [
      | none ↦ pure tt
      | some v ↦ (gets (λ s. add_symbol v.0 v.1 true s.symbols) >>= set_added) >> rest
    ]

-- True is 0, false is -1.
unfoldable pub read_sym_file : World → Text → M Bool
unfolding sym_loop
read_sym_file world filename = do
  file ← ask (world.contents filename)
  elim file [ none ↦ pure false | some bytes ↦ sym_loop (length bytes) false bytes >> pure true ]
