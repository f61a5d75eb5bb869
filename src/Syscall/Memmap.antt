-- ===== src/Syscall/Memmap.antt =====
-- src/sys_mem.c: the swap operation only copies out of RAM.
use os.Prelude.{
  ℕ, zero, suc, ◌+◌, ◌*◌, ◌%◌, ◌≡◌, refl, ap, ◌∙◌, ◌⊎◌, inl, inr, true, none, some, Exec, ok, fault,
  ◌>>=◌, Exec-cases, Bool-cases, Rc, Option,
}
use os.Prelude.Words.{u64_mod, u32_mod}
use os.Pte.{paging_pagesz}
use os.Memphy
use os.Memphy.{Memphy}
use os.Mm.{Krnl}
use os.Mm64.{cp_loop, swap_cp_page}
use os.Vm.{mm_swap_page}
use os.Syscall.{find_caller, sys_memmap, sys_mem_op}

-- A read of a random access device faults or leaves the device as it is.
read_keeps :
    (mp : Memphy) (addr : ℕ)
    → mp.rdmflg ≡ true
    → (Memphy.read mp addr ≡ fault) ⊎ ((v : ℕ) × (Memphy.read mp addr ≡ ok (some v, mp)))
unfolding Memphy.read Memphy.load
read_keeps mp addr r = elim (Exec-cases (Memphy.load mp addr)) [
  | inl e ↦ inl (rw (r, e) refl)
  | inr (v, e) ↦ inr (v, rw (r, e) refl)
]

-- one round of the copy behind its write, and behind its read
abbrev behind_write : ℕ → ℕ → Memphy → ℕ → ℕ → Exec (Rc × Memphy) → Exec (Memphy × Memphy)
behind_write n i src s d result = do (rc, dst') ← result; cp_loop n (i + 1) src s dst' d

abbrev behind_read : ℕ → ℕ → ℕ → Memphy → ℕ → Exec (Option ℕ × Memphy) → Exec (Memphy × Memphy)
behind_read n i s dst d result = do
  (value, src') ← result
  byte ← elim value [ none ↦ fault | some v ↦ ok v ]
  behind_write n i src' s d (Memphy.write dst ((d * paging_pagesz + i) % u64_mod) byte)

-- The copy of a page from a random access device faults or leaves the device as it is.
cp_loop-source :
    (n i : ℕ) (src dst : Memphy) (s d : ℕ)
    → src.rdmflg ≡ true
    → (cp_loop n i src s dst d ≡ fault)
      ⊎ ((dst' : Memphy) × (cp_loop n i src s dst d ≡ ok (src, dst')))
unfolding cp_loop
cp_loop-source zero i src dst s d r = inr (dst, refl)
cp_loop-source (suc n) i src dst s d r =
    elim (read_keeps src ((s * paging_pagesz + i) % u64_mod) r) [
      | inl e ↦ inl (ap (behind_read n i s dst d) e)
      | inr (v, e) ↦ elim (Exec-cases (Memphy.write dst ((d * paging_pagesz + i) % u64_mod) v)) [
        | inl f ↦ inl (ap (behind_read n i s dst d) e ∙ ap (behind_write n i src s d) f)
        | inr ((rc, dst'), f) ↦
            (let rounds = ap (behind_read n i s dst d) e ∙ ap (behind_write n i src s d) f in
              elim (cp_loop-source n (i + 1) src dst' s d r) [
                | inl g ↦ inl (rounds ∙ g)
                | inr (dst'', g) ↦ inr (dst'', rounds ∙ g)
              ])
      ]
    ]

-- the kernel with another swap device
abbrev pub with_swap : Krnl → Memphy → Krnl
with_swap krnl mswp = record krnl { active_mswp = mswp }

-- The swap operation on a random access RAM faults or changes only the swap device.
pub sys_memmap-swap :
    (krnl : Krnl) (pid a2 a3 : ℕ)
    → krnl.mram.rdmflg ≡ true
    → (sys_memmap krnl pid (record { a1 = 3; a2 = a2; a3 = a3 }) ≡ fault)
      ⊎ ((mswp : Memphy) × (sys_memmap krnl pid (record { a1 = 3; a2 = a2; a3 = a3 })
            ≡ ok (record { a1 = 3; a2 = a2; a3 = a3 }, with_swap krnl mswp)))
unfolding sys_memmap sys_mem_op mm_swap_page swap_cp_page
sys_memmap-swap krnl pid a2 a3 r = elim (Bool-cases (find_caller krnl.running_list pid)) [
  | inl c ↦
      elim (cp_loop-source paging_pagesz 0 krnl.mram krnl.active_mswp (a2 % u32_mod) (a3 % u32_mod)
        r) [ inl e ↦ inl (rw (c, e) refl) | inr (mswp, e) ↦ inr (mswp, rw (c, e) refl) ]
  | inr c ↦ inl (rw c refl)
]
