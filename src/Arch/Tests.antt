-- ===== src/Arch/Tests.antt =====
-- Runs of `__page_alloc` of libc/arch/x86_64-linux.c, and the theorems at a kernel that grants the break.
use tiny_libc.Prelude.{ℕ, ◌+◌, ◌*◌, ◌≤◌, ◌≡◌, refl, arith, ◌==◌, if◌then◌else◌}
use tiny_libc.Arch.{no_heap, start_heap, align_up, take_pages, page_alloc}
use tiny_libc.Arch.Pages.{page_alloc-apart}

-- The break stands at 70000, and goes where it is asked to.
abbrev grant : ℕ → ℕ
grant addr = if addr == 0 then 70000 else addr

first_page : (page_alloc grant 16 1 no_heap).0 ≡ 131072
unfolding page_alloc start_heap take_pages align_up
first_page = refl

-- A kernel that never moves the break.
refused : (page_alloc (λ addr. 70000) 16 1 no_heap).0 ≡ 0
unfolding page_alloc start_heap take_pages align_up
refused = refl

page_alloc-apart_example :
    (page_alloc grant 16 1 no_heap).0 + 65536 * 1
    ≤ (page_alloc grant 16 2 (page_alloc grant 16 1 no_heap).1).0
unfolding page_alloc start_heap take_pages align_up
page_alloc-apart_example =
    page_alloc-apart grant grant 1 2 no_heap (omega arith) (omega arith) (omega arith) (omega arith)
