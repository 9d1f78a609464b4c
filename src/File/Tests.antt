-- ===== src/File/Tests.antt =====
-- The theorems about file.c at concrete inputs.
use cs461_final_project_grub.Base.{
  ℕ, zero, suc, ◌+◌, ◌≡◌, inl, refl, true, Option, none, some, List, [], ◌∷◌, Result, ok, ◌>>=◌, ℤ,
  pos, arith,
}
use cs461_final_project_grub.File.{fd_inode, File, Ftable, sys_dup, sys_close, Written, filewrite}
use cs461_final_project_grub.File.Refs.{
  ref_of, count, IsCounted, Keeps, KeepsClose, sys_dup-IsCounted, sys_close-IsCounted,
}
use cs461_final_project_grub.File.Chunks.{Ends, filewrite-Ends}

abbrev inode_file : File
inode_file = record {
  type = fd_inode;
  ref = 1;
  readable = true;
  writable = true;
  pipe = 0;
  ip = 7;
  off = 0;
}

abbrev table : Ftable
table = inode_file ∷ record inode_file { ref = 0 } ∷ []

-- Descriptor 0 is on file 0.
abbrev descriptors : List (Option ℕ)
descriptors = some 0 ∷ none ∷ []

table-IsCounted : IsCounted (λ g. 0) table descriptors
table-IsCounted = record { counts = at }
  where
    at : (g : ℕ) → ref_of table g ≡ 0 + count g descriptors
    at zero = refl
    at (suc zero) = refl
    at (suc (suc g)) = ground arith

sys_dup-IsCounted_example : Keeps (λ g. 0) (sys_dup (pos 0) table descriptors)
sys_dup-IsCounted_example = sys_dup-IsCounted (λ g. 0) (pos 0) table descriptors table-IsCounted

sys_close-IsCounted_example : KeepsClose (λ g. 0) (sys_close (pos 0) table descriptors)
sys_close-IsCounted_example = sys_close-IsCounted (λ g. 0) (pos 0) table descriptors table-IsCounted

abbrev write_all : ℕ → ℕ → ℤ
write_all off n = pos n

filewrite-Ends_example :
    (r : Result Written) × Ends write_all 0 9000 9000 r
    × (filewrite write_all inode_file 9000 ≡ (do w ← r; ok (some w)))
filewrite-Ends_example =
    filewrite-Ends write_all inode_file 9000 (λ o n. inl refl) refl refl (omega arith)
