-- ===== src/Version.antt =====
-- ServerVersion of src/lib.rs: its order, and the kinds of server it tells apart.
pub mod Order
use Prim.Native.Nat.{ℕ, Ordering}
use mathlib.Core.Bool.{Bool, true, false, ◌||◌}
use moonlight_common_rust.Common.Int.{ℤ, pos, negsuc, compare_ℤ}

pub data ServerType : Type 0 where
  nvidia_game_stream sunshine apollo foundation_sunshine : ServerType

pub record ServerVersion : Type 0 where
  pub major : ℤ
  pub minor : ℤ
  pub patch : ℤ
  pub sunshine_identifier : ℤ
  pub server_type : ServerType

abbrev pub is_negative : ℤ → Bool
is_negative (pos n) = false
is_negative (negsuc n) = true

abbrev pub new : ℤ → ℤ → ℤ → ℤ → ServerVersion
new major minor patch mini_patch = record {
  major = major;
  minor = minor;
  patch = patch;
  sunshine_identifier = mini_patch;
  server_type = elim (is_negative mini_patch) [ true ↦ sunshine | false ↦ nvidia_game_stream ];
}

-- `ServerVersion::new(major, minor, patch, 0)`, for the constants of the code.
abbrev pub version : ℕ → ℕ → ℕ → ServerVersion
version major minor patch = new (pos major) (pos minor) (pos patch) (pos 0)

unfoldable pub cmp : ServerVersion → ServerVersion → Ordering
cmp a b = elim (compare_ℤ a.major b.major) [
  | Ordering.lt ↦ Ordering.lt
  | Ordering.gt ↦ Ordering.gt
  | Ordering.eq ↦ elim (compare_ℤ a.minor b.minor) [
    | Ordering.lt ↦ Ordering.lt
    | Ordering.gt ↦ Ordering.gt
    | Ordering.eq ↦ compare_ℤ a.patch b.patch
  ]
]

-- `a >= b`.
unfoldable pub at_least : ServerVersion → ServerVersion → Bool
unfolding cmp
at_least a b = elim (cmp a b) [ Ordering.lt ↦ false | _ ↦ true ]

abbrev pub is_sunshine_or_apollo : ServerType → Bool
is_sunshine_or_apollo sunshine = true
is_sunshine_or_apollo apollo = true
is_sunshine_or_apollo _ = false

unfoldable pub is_sunshine_like : ServerVersion → Bool
is_sunshine_like v = is_negative v.sunshine_identifier || is_sunshine_or_apollo v.server_type
