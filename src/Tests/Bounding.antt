-- ===== src/Tests/Bounding.antt =====
-- Lifetimes: src/analysis/lifetime_checker.rs on two declared bounds.
use rustycpp.Common.{◌≡◌, ◌↔◌, true}
use rustycpp.Outlives.{LifetimeScope, check_outlives, new, add_constraint}
use rustycpp.Outlives.Chains.{Outlives}
use rustycpp.Outlives.Correct.{check_outlives_iff}

abbrev scope : LifetimeScope
scope =
    add_constraint (add_constraint new (record { longer = "a"; shorter = "b" }))
      (record { longer = "b"; shorter = "c" })

check_outlives_iff_example :
    (check_outlives scope "a" "c" ≡ true) ↔ Outlives scope.constraints "c" "a"
check_outlives_iff_example = check_outlives_iff scope "a" "c"
