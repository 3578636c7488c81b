-- ===== src/Base.antt =====
-- The names that every module shares: the libraries' names, passed on, and those of five children
-- (tests on numbers, machine words and bits, lists, memory, tables). `ErrorCode` is include/error_codes.h.
mod Tests
mod Words
mod Bits
mod Store
mod Table
pub mod Int
pub mod Chain
mod Results
pub use Tests.*
pub use Words.*
pub use Bits.*
pub use Store.*
pub use Results.*
unfoldable pub use Table.{all_below}
pub use Table.{all_below_sound, bit_or-nibbles}
pub use Prim.Native.Nat.{ℕ, zero, suc, ◌+◌, ◌-◌, ◌*◌, ◌/◌, ◌%◌, ◌^◌, ◌≤◌, ◌<◌, min}
pub use Prim.Native.Nat.{bit_and, bit_or}
pub use mathlib.Core.Path.{◌≡◌, refl, sym, ap, subst, subst₂, ◌∙◌}
pub use mathlib.Core.Logic.{◌≢◌, ◌↔◌, ◌⊎◌, inl, inr}
pub use mathlib.Core.Bool.{Bool, true, false, ◌&&◌, ◌||◌, not}
pub use mathlib.Core.Option.{Option, none, some}
pub use mathlib.Core.List.{List, [], ◌∷◌, ◌++◌, map}
pub use native.Mathlib.Omega.{arith}

-- `error_code_t`.
pub data ErrorCode : Type 0 where
  success failure no_such_file no_such_directory invalid_argument not_enough_ram : ErrorCode

-- The test `code == SUCCESS`, and the number that C gives each code.
abbrev pub is_success : ErrorCode → Bool
is_success success = true
is_success _ = false

abbrev pub error_value : ErrorCode → ℕ
error_value success = 0
error_value failure = 1
error_value no_such_file = 2
error_value no_such_directory = 3
error_value invalid_argument = 4
error_value not_enough_ram = 5
