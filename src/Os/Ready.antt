-- ===== src/Os/Ready.antt =====
-- src/os.c: the system that `main` hands to its threads.
use os.Prelude.{ℕ, zero, suc, ◌+◌, ◌≡◌, refl, ap, ◌∙◌, some, List, ◌∷◌, false, arith, lt→ltb}
use os.Sched.{Sched, init_scheduler}
use os.Sched.Keep.{IsValid, init_scheduler-IsValid}
use os.Mm.{Mm}
use os.Timer.{System, attach_event, attached, start_timer, Attached, nobody, one_more}
use os.Os.{Machine}
use os.Os.Idle.{Idle}
use os.Os.Load.{init_os}
use os.Os.Config.{Config}
use os.Os.Boot.{Stray, init_device, init_swaps, attach_events, Booted, booted, boot}

attach_events-Attached :
    (n : ℕ) (s : System)
    → s.count ≡ 0
    → s.timer_started ≡ false
    → (t : System) × (attach_events n s ≡ some t)
      × Attached t
      × (t.count ≡ n)
      × (t.timer_started ≡ false)
unfolding attach_events attach_event
attach_events-Attached zero s c h = (s, refl, nobody s c h, c, h)
attach_events-Attached (suc n) s c h =
    let (t, e, a, k, f) = attach_events-Attached n s c h in
    let step : attach_event t ≡ some (attached t) = rw f refl in
    (attached t, rw (e, f) refl, one_more a step, ap (λ a. a + 1) k ∙ omega arith, f)

init_scheduler-Idle : (s : Sched) → s.curr_prio ≡ 0 → Idle (init_scheduler s)
unfolding init_scheduler
init_scheduler-Idle s c = ((omega arith), λ p l. rw (lt→ltb _ _ l) refl)

-- A system with the variables as they start, and a configuration with a swap device, boots: the
-- timer has started with one device per processor and one for the loader; the scheduler is valid and
-- no process is ready.
pub boot-IsValid :
    (config : Config) (m : Machine) (s : System) (ram swap : Stray) (swaps : List Stray)
    (zeroed : Mm) (size : ℕ) (sizes : List ℕ)
    → config.memswpsz ≡ size ∷ sizes
    → s.count ≡ 0
    → s.timer_started ≡ false
    → m.sched.curr_prio ≡ 0
    → m.sched.curr_slot_cnt ≡ 0
    → (b : Booted) × (boot config m s ram (swap ∷ swaps) zeroed ≡ some b)
      × ((u : System) × Attached u × (u.count ≡ suc config.num_cpus) × (b.timer ≡ start_timer u))
      × IsValid b.machine.sched
      × Idle b.machine.sched
      × (b.machine.time_slot ≡ config.time_slot)
unfolding boot booted init_swaps
boot-IsValid config m s ram swap swaps zeroed size sizes e c h p q =
    let mram = init_device ram config.memramsz in
    let (t, run, att, k, f) = attach_events-Attached (suc config.num_cpus) s c h in
    (
      record {
        machine = record m {
          sched = init_scheduler m.sched;
          os = init_os m.os zeroed (init_device ram config.memramsz) (init_device swap size);
          time_slot = config.time_slot;
        };
        timer = start_timer t;
      },
      ap (λ o. booted config m zeroed mram o (init_swaps (swap ∷ swaps) config.memswpsz)) run
          ∙ ap (λ o. booted config m zeroed mram (some t) (init_swaps (swap ∷ swaps) o)) e,
      (t, att, k, refl),
      init_scheduler-IsValid m.sched p q,
      init_scheduler-Idle m.sched p,
      refl,
    )
