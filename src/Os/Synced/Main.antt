-- ===== src/Os/Synced/Main.antt =====
-- src/os.c and src/timer.c: the system from `main` on.
use os.Prelude.{ℕ, ◌≡◌, refl, some, none, inl, inr, List, ◌∷◌, false}
use os.Mm.{Mm}
use os.Sched.Keep.{IsValid}
use os.Timer.{System}
use os.Loader.{Stdio}
use os.Os.{Machine}
use os.Os.Load.{Job, to_load}
use os.Os.Config.{Config}
use os.Os.Boot.{Stray, Booted, boot}
use os.Os.Ready.{boot-IsValid}
use os.Os.Keep.{Step-IsValid}
use os.Os.Synced.{Synced, Step, Reach, begin, later}
use os.Os.Synced.Parts.{Step-threads}

-- `main` when its threads start, with the processes that the loader is to load
abbrev pub started : {c : Stdio} → Config → Booted → List (Job c) → Synced c
started config b jobs = record {
  timer = b.timer;
  threads = record {
    machine = b.machine;
    num_cpus = config.num_cpus;
    cpu = λ i. record { proc = none; time_left = 0; gone = false };
  };
  avail_pid = 1;
  loader = to_load jobs;
  passes = λ i. 0;
}

-- any number of steps
pub data Steps {c : Stdio} (s : Synced c) : Synced c → Type 0 where
  none_yet : Steps s s
  one_more : {t u : Synced c} → Steps s t → Step c t u → Steps s u

Steps-Reach : {c : Stdio} {s t : Synced c} → Reach c s → Steps s t → Reach c t
Steps-Reach r none_yet = r
Steps-Reach r (one_more steps step) = later (Steps-Reach r steps) step

Steps-IsValid :
    {c : Stdio} {s t : Synced c}
    → IsValid s.threads.machine.sched
    → Steps s t
    → IsValid t.threads.machine.sched
Steps-IsValid v none_yet = v
Steps-IsValid v (one_more steps step) = elim (Step-threads step) [
  | inl e ↦ rw e (Steps-IsValid v steps)
  | inr own ↦ Step-IsValid (Steps-IsValid v steps) own
]

-- The whole system: with the static variables as they start and a configuration that has a swap device,
-- `main` comes up to its threads, and whatever the processors, the loader and the timer do after
-- that, in any order of their steps, the scheduler's state is valid, and the system is in a
-- state of `Reach`, with its time slot that of the configuration at the start.
pub boot-Steps :
    (c : Stdio) (jobs : List (Job c)) (config : Config) (m : Machine) (s : System)
    (ram swap : Stray) (swaps : List Stray) (zeroed : Mm) (size : ℕ) (sizes : List ℕ)
    → config.memswpsz ≡ size ∷ sizes
    → s.count ≡ 0
    → s.timer_started ≡ false
    → m.sched.curr_prio ≡ 0
    → m.sched.curr_slot_cnt ≡ 0
    → (b : Booted) × (boot config m s ram (swap ∷ swaps) zeroed ≡ some b)
      × (b.machine.time_slot ≡ config.time_slot)
      × ((t : Synced c)
          → Steps (started config b jobs) t
          → IsValid t.threads.machine.sched × Reach c t)
boot-Steps c jobs config m s ram swap swaps zeroed size sizes e k h p q =
    let (b, run, (u, att, count, timer), valid, idle, slot) =
      boot-IsValid config m s ram swap swaps zeroed size sizes e k h p q in
    let start : Reach c (started config b jobs) =
      begin u att count timer idle (λ i. refl) (λ i. refl) in
    (b, run, slot, λ t steps. (Steps-IsValid valid steps, Steps-Reach start steps))
