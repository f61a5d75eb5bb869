-- ===== src/Os/Boot.antt =====
-- src/os.c: what `main` sets up before its threads run: the timer with its devices, the memory, the
-- scheduler, and what the loader thread gets. The processors are as many as the configuration says.
use os.Prelude.{ℕ, zero, suc, Option, none, some, List, [], ◌∷◌, true}
use os.Sched.{init_scheduler}
use os.Memphy.{Memphy, init_memphy}
use os.Mm.{Mm}
use os.Timer.{System, attach_event, start_timer}
use os.Os.{Machine}
use os.Os.Load.{init_os}
use os.Os.Config.{Config}

-- a device on the stack of `main`, and the list that its uninitialised pointer leads to
pub record Stray : Type 0 where
  pub device : Memphy
  pub list : List ℕ

unfoldable pub init_device : Stray → ℕ → Memphy
init_device stray size = init_memphy stray.list stray.device size true

-- the loop over the swap devices: the first, and those behind it
unfoldable pub init_swaps : List Stray → List ℕ → List Memphy
init_swaps [] sizes = []
init_swaps (d ∷ ds) [] = []
init_swaps (d ∷ ds) (size ∷ sizes) = init_device d size ∷ init_swaps ds sizes

-- `n` calls of `attach_event`
unfoldable pub attach_events : ℕ → System → Option System
attach_events zero s = some s
attach_events (suc n) s = elim (attach_events n s) [ none ↦ none | some t ↦ attach_event t ]

pub record Booted : Type 0 where
  pub machine : Machine
  pub timer : System

-- the devices are attached and the memory is formatted: the rest of `main` up to the threads, and the
-- statements of `ld_routine` before its loop
unfoldable pub booted : Config → Machine → Mm → Memphy → Option System → List Memphy → Option Booted
booted config m zeroed mram none swaps = none
booted config m zeroed mram (some timer) [] = none
booted config m zeroed mram (some timer) (active_mswp ∷ rest) = some (record {
  machine = record m {
    sched = init_scheduler m.sched;
    os = init_os m.os zeroed mram active_mswp;
    time_slot = config.time_slot;
  };
  timer = start_timer timer;
})

-- `main` with a configuration that was read; `none` if there is no swap device
unfoldable pub boot : Config → Machine → System → Stray → List Stray → Mm → Option Booted
boot config m s ram swaps zeroed =
    booted config m zeroed (init_device ram config.memramsz) (attach_events (suc config.num_cpus) s)
      (init_swaps swaps config.memswpsz)
