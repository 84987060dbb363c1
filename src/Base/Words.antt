-- ===== src/Base/Words.antt =====
-- Rust's unsigned integers, in a build with `overflow-checks = true`: where there is no value the
-- operation panics, here `none`.
use cw_plus.Base.Tests.{leb, if◌then◌else◌}
use Prim.Native.Nat.{ℕ, ◌+◌, ◌-◌, ◌*◌}
use mathlib.Core.Option.{Option, none, some}

abbrev pub u64_max : ℕ
u64_max = 18_446_744_073_709_551_615

abbrev pub u128_max : ℕ
u128_max = 340_282_366_920_938_463_463_374_607_431_768_211_455

abbrev pub add_u64 : ℕ → ℕ → Option ℕ
add_u64 a b = if leb (a + b) u64_max then some (a + b) else none

abbrev pub sub_u64 : ℕ → ℕ → Option ℕ
sub_u64 a b = if leb b a then some (a - b) else none

abbrev pub add_u128 : ℕ → ℕ → Option ℕ
add_u128 a b = if leb (a + b) u128_max then some (a + b) else none

abbrev pub sub_u128 : ℕ → ℕ → Option ℕ
sub_u128 a b = if leb b a then some (a - b) else none

abbrev pub mul_u128 : ℕ → ℕ → Option ℕ
mul_u128 a b = if leb (a * b) u128_max then some (a * b) else none
