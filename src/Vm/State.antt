-- ===== src/Vm/State.antt =====
-- The machine's state, the console, and the functions of lc3sim-c/vm.c as state passing with errors.
use lc3_script_tools.Base.{ℕ, ◌%◌, ◌-◌, ◌^◌, Bool, Option, none, some, List, update}
use lc3_script_tools.Vm.Types.{Build, register_bits, VmResult}

-- What the C library answers: the k-th `select` on the standard input, and the k-th `getchar`,
-- where `none` is EOF. The machine cannot tell more of the console than that.
pub record Console : Type 0 where
  pub select_result : ℕ → Bool
  pub next_char : ℕ → Option ℕ

-- `struct vm_impl`, with the calls of `select` and `getchar` made so far and what was put out.
pub record Vm : Type 0 where
  pub mem : ℕ → ℕ
  pub reg : ℕ → ℕ
  pub polls : ℕ
  pub reads : ℕ
  pub output : List ℕ

-- `ok` goes on; `stop` is a return of a result other than VM_SUCCESS.
pub data Res {ℓ} (A : Type ℓ) : Type ℓ where
  ok : A → Res A
  stop : VmResult → Res A

abbrev pub M : Type 0 → Type 0
M A = Vm → Res A × Vm

abbrev pub continue : {A B : Type 0} → Res A × Vm → (A → M B) → Res B × Vm
continue (ok a, vm) f = f a vm
continue (stop r, vm) f = (stop r, vm)

infixl 5 ◌>>=◌ ◌>>◌
abbrev pub ◌>>=◌ : {A B : Type 0} → M A → (A → M B) → M B
◌>>=◌ m f vm = continue (m vm) f

abbrev pub ◌>>◌ : {B : Type 0} → M (Unit {0}) → M B → M B
m >> k = m >>= λ _. k

abbrev pub pure : {A : Type 0} → A → M A
pure a vm = (ok a, vm)

abbrev pub halt : {A : Type 0} → VmResult → M A
halt r vm = (stop r, vm)

abbrev pub get_reg : ℕ → M ℕ
get_reg i vm = (ok (vm.reg i), vm)

abbrev pub set_reg : ℕ → ℕ → M (Unit {0})
set_reg i v vm = (ok tt, record vm { reg = update vm.reg i v })

-- An `int` from `getchar` stored into a vm_byte: EOF is -1.
abbrev pub char_word : Build → Option ℕ → ℕ
char_word b none = 2 ^ register_bits b - 1
char_word b (some c) = c % 2 ^ 8
