-- ===== src/Progress/Laws.antt =====
-- The constants are told apart by their spelling, so tests on `Progress` are tests on strings.
use kubernetes_images_sync_o.Base.{◌≡◌, ◌↔◌, true, arith}
use kubernetes_images_sync_o.Text.Laws.{text_eq_iff}
use kubernetes_images_sync_o.Progress.{Progress, spelling, progress_eq}

pub progress_eq_iff : (a b : Progress) → (progress_eq a b ≡ true) ↔ (a ≡ b)
unfolding progress_eq
progress_eq_iff a b = ground (arith, text_eq_iff (spelling a) (spelling b))
