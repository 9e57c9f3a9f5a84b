-- ===== src/Sim/Break/Effect.antt =====
-- What `break set` and `break clear` of lc3tools/lc3sim.c do to lc3_breakpoints.
use lc3_script_tools.Base.{
  ℕ, ◌^◌, ◌<◌, ◌≡◌, refl, arith, Bool, true, false, Option, none, some, [], ◌∷◌, ◌++◌, ltb, lt→ltb,
  fun_ext, if◌then◌else◌, length, update, Bool-cases, inl, inr,
}
use lc3_script_tools.Symbol.Names.{same_name}
use lc3_script_tools.Symbol.Table.{Table}
use lc3_script_tools.Sim.Text.{Text, text, same_prefix}
use lc3_script_tools.Sim.State.{Sim, M, ok, when}
use lc3_script_tools.Sim.Breakpoints.{set_breakpoint, clear_breakpoint}
use lc3_script_tools.Sim.Address.{parse_address, warn_too_many_args}
use lc3_script_tools.Sim.Address.Range.{IsBelow, HasAddresses, parse_address-IsBelow}
use lc3_script_tools.Sim.Break.{with_address, break_at, break_help}

-- `m` goes on, and leaves `f` as the breakpoints.
abbrev Leaves : M (Unit {0}) → Sim → (ℕ → Bool) → Type 0
Leaves m s f = ((m s).0 ≡ ok tt) × ((m s).1.breakpoints ≡ f)

abbrev written : Bool → Option ℕ → (ℕ → Bool) → ℕ → Bool
written b none f = f
written b (some a) f = update f a b

-- The breakpoints after `break clear` and `break set`: an address that does not parse changes nothing.
pub breakpoints_after : Text → Text → Table → (ℕ → Bool) → ℕ → Bool
breakpoints_after opt addr_str t f =
    if same_prefix (length opt) opt (text "clear")
    then if same_name addr_str (text "all")
      then (λ _. false)
      else written false (parse_address addr_str t) f
    else if same_prefix (length opt) opt (text "set")
    then written true (parse_address addr_str t) f
    else f

update_same : (f : ℕ → Bool) (a : ℕ) (b : Bool) → f a ≡ b → f ≡ update f a b
update_same f a b e = fun_ext λ j. ground arith

module _ (a : ℕ) (s : Sim) (h : a < 2 ^ 16) where
  set_breakpoint_lem : Leaves (set_breakpoint a) s (update s.breakpoints a true)
  unfolding set_breakpoint
  set_breakpoint_lem =
      let checked = lt→ltb a 65536 h in
      elim (Bool-cases (s.breakpoints a)) [
        | inl e ↦ elim (Bool-cases s.gui_mode) [
          | inl m ↦ rw (checked, e, m) (refl, update_same s.breakpoints a true e)
          | inr m ↦ rw (checked, e, m) (refl, update_same s.breakpoints a true e)
        ]
        | inr e ↦ elim (Bool-cases s.gui_mode) [
          | inl m ↦ rw (checked, e, m) (refl, refl)
          | inr m ↦ rw (checked, e, m) (refl, refl)
        ]
      ]

  clear_breakpoint_lem : Leaves (clear_breakpoint a) s (update s.breakpoints a false)
  unfolding clear_breakpoint
  clear_breakpoint_lem =
      let checked = lt→ltb a 65536 h in
      elim (Bool-cases (s.breakpoints a)) [
        | inl e ↦ elim (Bool-cases s.gui_mode) [
          | inl m ↦ rw (checked, e, m) (refl, refl)
          | inr m ↦ rw (checked, e, m) (refl, refl)
        ]
        | inr e ↦ elim (Bool-cases s.gui_mode) [
          | inl m ↦ rw (checked, e, m) (refl, refl)
          | inr m ↦ rw (checked, e, m) (refl, refl)
        ]
      ]

cleared_lem :
    (o : Option ℕ) (s : Sim)
    → IsBelow (2 ^ 16) o
    → Leaves (with_address o clear_breakpoint) s (written false o s.breakpoints)
cleared_lem none s h = (refl, refl)
cleared_lem (some a) s h = clear_breakpoint_lem a s h

set_lem :
    (o : Option ℕ) (s : Sim)
    → IsBelow (2 ^ 16) o
    → Leaves (with_address o set_breakpoint) s (written true o s.breakpoints)
set_lem none s h = (refl, refl)
set_lem (some a) s h = set_breakpoint_lem a s h

-- Without more arguments.
no_more_lem :
    (opt addr_str : Text) (s : Sim)
    → HasAddresses s.symbols
    → Leaves (break_at opt addr_str 0) s (breakpoints_after opt addr_str s.symbols s.breakpoints)
unfolding break_at breakpoints_after break_help
no_more_lem opt addr_str s h =
    let o = parse_address addr_str s.symbols in
    let below = parse_address-IsBelow s.symbols h addr_str in
    elim (Bool-cases (same_prefix (length opt) opt (text "clear"))) [
      | inl c ↦ elim (Bool-cases (same_name addr_str (text "all"))) [
        | inl a ↦ elim (Bool-cases s.gui_mode) [
          | inl m ↦ rw (c, a, m) (refl, refl)
          | inr m ↦ rw (c, a, m) (refl, refl)
        ]
        | inr a ↦ rw (c, a) (cleared_lem o s below)
      ]
      | inr c ↦ elim (Bool-cases (same_prefix (length opt) opt (text "set"))) [
        | inl e ↦ rw (c, e) (set_lem o s below)
        | inr e ↦ rw (c, e) (refl, refl)
      ]
    ]

-- The warning on more arguments writes to the output at most.
warned :
    (more : ℕ) (s : Sim)
    → (o : Text) × (when (ltb 0 more) warn_too_many_args s ≡ (ok tt, record s { output = o }))
unfolding warn_too_many_args
warned more s = elim (Bool-cases (ltb 0 more)) [
  | inl l ↦ elim (Bool-cases s.gui_mode) [
    | inl m ↦ (s.output, rw (l, m) refl)
    | inr m ↦ (s.output ++ (text "WARNING: Ignoring excess arguments." ++ 10 ∷ []), rw (l, m) refl)
  ]
  | inr l ↦ (s.output, rw l refl)
]

-- With symbols that stand for addresses, `break set` and `break clear` never index past the end of
-- lc3_breakpoints, whatever their arguments are: they go on, and change the breakpoint at the address
-- that was given, or with `all` clear every one, and no other; another option changes none.
pub break_at_lem :
    (opt addr_str : Text) (more : ℕ) (s : Sim)
    → HasAddresses s.symbols
    → ((break_at opt addr_str more s).0 ≡ ok tt)
      × ((break_at opt addr_str more s).1.breakpoints
          ≡ breakpoints_after opt addr_str s.symbols s.breakpoints)
unfolding break_at
break_at_lem opt addr_str more s h =
    let (o, e) = warned more s in rw e (no_more_lem opt addr_str (record s { output = o }) h)
