-- ===== src/Examples/Pages.antt =====
-- A state diff of src/page/state_diff.rs.
use browserkit.Common.{◌≡◌, some, arith}
use browserkit.Page.StateDiff.{
  StateSnapshot, compute_state_diff, apply_diff, reverse_diff, apply-compute_state_diff,
}

abbrev old_page : StateSnapshot
old_page = record { url = "https://a.example"; title = "A"; element_count = 7 }

abbrev new_page : StateSnapshot
new_page = record { url = "https://a.example/b"; title = "A"; element_count = 5 }

apply-compute_state_diff_example :
    (apply_diff old_page (compute_state_diff old_page new_page) ≡ some new_page)
    × (compute_state_diff new_page old_page ≡ reverse_diff (compute_state_diff old_page new_page))
apply-compute_state_diff_example =
    apply-compute_state_diff old_page new_page (omega arith) (omega arith)
