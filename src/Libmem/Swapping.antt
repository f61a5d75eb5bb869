-- ===== src/Libmem/Swapping.antt =====
-- src/libmem.c: the two swap calls of pg_getpage.
use os.Prelude.{
  ℕ, ◌≡◌, refl, ap, ◌∙◌, ◌⊎◌, inl, inr, true, none, some, Exec, ok, fault, ◌>>=◌, Rc, success,
  failure, Option, List,
}
use os.Memphy.{Memphy, get_freefp, put_freefp}
use os.Pte.{paging_fpn, paging_swp}
use os.PageTable.{pte_get_entry, pte_set_fpn, pte_set_swap}
use os.Mm.{Krnl}
use os.Mm64.{enlist_pgn_node}
use os.Syscall.{Regs, syscall}
use os.Syscall.Memmap.{with_swap, sys_memmap-swap}
use os.Libmem.{with_pgd, call_memmap, find_victim_page, exchange, take_frame, take_victim, bring_in}

-- A swap call faults or changes only the swap device.
call_memmap-swap :
    (krnl : Krnl) (pid a2 a3 : ℕ)
    → krnl.mram.rdmflg ≡ true
    → (call_memmap krnl pid 3 a2 a3 ≡ fault)
      ⊎ ((mswp : Memphy) × (regs : Regs) × (call_memmap krnl pid 3 a2 a3
            ≡ ok (regs, with_swap krnl mswp)))
unfolding call_memmap syscall
call_memmap-swap krnl pid a2 a3 r = elim (sys_memmap-swap krnl pid a2 a3 r) [
  | inl e ↦ inl e
  | inr (mswp, e) ↦ inr (mswp, record { a1 = 3; a2 = a2; a3 = a3 }, e)
]

-- `exchange` behind its second call, and behind its first
abbrev behind_second : ℕ → ℕ → ℕ → Exec (Regs × Krnl) → Exec Krnl
behind_second pgn vicfpn tgtswpfpn result = do
  (regs', krnl₃) ← result
  ok (record krnl₃ {
    mm = record (krnl₃.mm) {
      pgd = pte_set_fpn krnl₃.mm.pgd pgn vicfpn;
      fifo_pgn = enlist_pgn_node krnl₃.mm.fifo_pgn pgn;
    };
    active_mswp = put_freefp krnl₃.active_mswp tgtswpfpn;
  })

abbrev victim_out : ℕ → ℕ → Krnl → Krnl
victim_out vicpgn swpfpn krnl₁ =
    with_pgd krnl₁ (pte_set_swap krnl₁.mm.pgd vicpgn krnl₁.active_mswp_id swpfpn)

abbrev behind_first : ℕ → ℕ → ℕ → ℕ → ℕ → ℕ → Exec (Regs × Krnl) → Exec Krnl
behind_first pid pgn vicpgn swpfpn vicfpn tgtswpfpn result = do
  (regs, krnl₁) ← result
  behind_second pgn vicfpn tgtswpfpn
      (call_memmap (victim_out vicpgn swpfpn krnl₁) pid 3 vicfpn tgtswpfpn)

exchange-ram :
    (krnl : Krnl) (pid pgn pte vicpgn swpfpn : ℕ)
    → krnl.mram.rdmflg ≡ true
    → (exchange krnl pid pgn pte vicpgn swpfpn ≡ fault)
      ⊎ ((krnl' : Krnl) × (exchange krnl pid pgn pte vicpgn swpfpn ≡ ok krnl')
          × (krnl'.mram ≡ krnl.mram))
unfolding exchange
exchange-ram krnl pid pgn pte vicpgn swpfpn r =
    let vic = pte_get_entry krnl.mm.pgd vicpgn in
    let vicfpn = paging_fpn vic.0 in
    let first = behind_first pid pgn vicpgn swpfpn vicfpn (paging_swp pte) in
    let second = behind_second pgn vicfpn (paging_swp pte) in
    elim (call_memmap-swap (with_pgd krnl vic.1) pid vicfpn swpfpn r) [
      | inl e ↦ inl (ap first e)
      | inr (mswp, regs, e) ↦
          elim (call_memmap-swap (victim_out vicpgn swpfpn (with_swap (with_pgd krnl vic.1) mswp))
            pid vicfpn (paging_swp pte) r) [
              | inl f ↦ inl (ap first e ∙ ap second f)
              | inr (mswp', regs', f) ↦ inr (_, ap first e ∙ ap second f, refl)
            ]
    ]

-- what a result is that leaves the RAM of the kernel as it is
abbrev pub KeepsRam : Krnl → Exec (Rc × Krnl) → Type 0
KeepsRam krnl result =
    (result ≡ fault)
    ⊎ ((rc : Rc) × (krnl' : Krnl) × (result ≡ ok (rc, krnl')) × (krnl'.mram ≡ krnl.mram))

take_frame-ram :
    (krnl : Krnl) (pid pgn pte vicpgn : ℕ) (free : Option ℕ × Memphy)
    → krnl.mram.rdmflg ≡ true
    → KeepsRam krnl (take_frame krnl pid pgn pte vicpgn free)
unfolding take_frame
take_frame-ram krnl pid pgn pte vicpgn (none, mswp) r = inr (failure, krnl, refl, refl)
take_frame-ram krnl pid pgn pte vicpgn (some swpfpn, mswp) r =
    elim (exchange-ram (with_swap krnl mswp) pid pgn pte vicpgn swpfpn r) [
      | inl g ↦ inl (ap (λ e. e >>= (λ k. ok (success, k))) g)
      | inr (krnl', g, m) ↦ inr (success, krnl', ap (λ e. e >>= (λ k. ok (success, k))) g, m)
    ]

take_victim-ram :
    (krnl : Krnl) (pid pgn pte : ℕ) (victim : Option ℕ × List ℕ)
    → krnl.mram.rdmflg ≡ true
    → KeepsRam krnl (take_victim krnl pid pgn pte victim)
unfolding take_victim
take_victim-ram krnl pid pgn pte (none, fifo) r = inr (failure, krnl, refl, refl)
take_victim-ram krnl pid pgn pte (some vicpgn, fifo) r =
    take_frame-ram (record krnl { mm = record (krnl.mm) { fifo_pgn = fifo } }) pid pgn pte vicpgn
      (get_freefp krnl.active_mswp) r

-- Bringing a page in from swap, with a random access RAM, faults or leaves RAM as it is: both calls
-- copy out of RAM, so no byte of the page that is wanted reaches RAM.
pub bring_in-ram :
    (krnl : Krnl) (pid pgn pte : ℕ)
    → krnl.mram.rdmflg ≡ true
    → KeepsRam krnl (bring_in krnl pid pgn pte)
unfolding bring_in
bring_in-ram krnl pid pgn pte r =
    take_victim-ram krnl pid pgn pte (find_victim_page krnl.mm.fifo_pgn) r
