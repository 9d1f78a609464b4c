-- ===== src/Kalloc/Tests.antt =====
-- Runs of kalloc.c and the theorems at concrete inputs.
use cs461_final_project_grub.Base.{ℕ, ◌+◌, refl, false, arith, []}
use cs461_final_project_grub.Kalloc.{Kmem, kernbase}
use cs461_final_project_grub.Kalloc.Freelist.{IsFree, IsPage, freed}

abbrev kernel_end : ℕ
kernel_end = kernbase + 0x10_0000

abbrev first_page : ℕ
first_page = kernbase + 0x20_0000

abbrev empty_kmem : Kmem
empty_kmem = record { use_lock = false; freelist = 0; next = λ p. 0 }

empty_kmem-IsFree : IsFree kernel_end empty_kmem []
empty_kmem-IsFree = record { chain = refl; distinct = tt; pages = tt }

first_page-IsPage : IsPage kernel_end first_page
first_page-IsPage = (refl, omega arith, omega arith)

abbrev one_free : Kmem
one_free = freed first_page empty_kmem
