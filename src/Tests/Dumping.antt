-- ===== src/Tests/Dumping.antt =====
-- src/mem.c: dump of a memory of which page 2 is in use.
use os.Prelude.{ℕ, ◌+◌, ◌*◌, ◌≡◌, ◌==◌, if◌then◌else◌, arith}
use os.Older.Dump.{PageStat, dump, shown, shown-dump}

abbrev page_2 : ℕ → PageStat
page_2 i = record { proc = if i == 2 then 7 else 0; index = 0; next = 0 }

-- The last byte of the page, which is 9, is not shown.
shown-dump_example : shown 9 (2 * 1024 + 1023) (dump page_2 (λ a. 9)) ≡ 0
shown-dump_example = shown-dump (λ a. 9) 9 page_2 2 1023 (omega arith) (omega arith)

shows_others : shown 9 (2 * 1024 + 5) (dump page_2 (λ a. 9)) ≡ 1
shows_others = shown-dump (λ a. 9) 9 page_2 2 5 (omega arith) (omega arith)
