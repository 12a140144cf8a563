-- ===== src/Version/Order.antt =====
-- Comparing versions.
use moonlight_common_rust.Common.{◌≡◌, ◌⊎◌, arith, true}
use moonlight_common_rust.Common.Int.{compare_ℤ}
use moonlight_common_rust.Version.{ServerVersion, cmp, at_least}

-- The order of versions is total and transitive: of two versions one is at least the other, and `>=` of
-- a first and a second and of the second and a third gives `>=` of the first and the third.
pub at_least-total :
    (a b c : ServerVersion)
    → ((at_least a b ≡ true) ⊎ (at_least b a ≡ true))
      × (at_least a b ≡ true → at_least b c ≡ true → at_least a c ≡ true)
unfolding at_least cmp compare_ℤ
at_least-total a b c = (ground arith, λ p q. ground arith)
