-- ===== src/Tests/Clock.antt =====
-- src/timer.c with two devices.
use os.Prelude.{ℕ, zero, suc, ◌+◌, ◌%◌, ◌≤◌, ◌<◌, ◌≡◌, ◌≢◌, refl, ◌⊎◌, true, false, some, arith}
use os.Prelude.Words.{u64_mod}
use os.Timer.{
  Phase, running, waiting, left, Device, TimerPc, check, exited, System, ready, timer_step,
  attached, start_timer, with_device, tell_done, Attached, nobody, one_more, Step, Reach, begin,
  later,
}
use os.Timer.Lockstep.{Reach-lockstep}
use os.Timer.Progress.{CanMove, Reach-progress}
use os.Timer.Round.{timer_steps, IsOpen, round_opens}

abbrev no_device : System
no_device = record {
  count = 0;
  device = λ _. record { done = false; fsh = false; phase = running; slot = 0 };
  time = 0;
  timer_started = false;
  timer_stop = false;
  pc = check;
  rounds = 0;
}

abbrev two_devices : System
two_devices = attached (attached no_device)

two_devices-Attached : Attached two_devices
unfolding os.Timer.attach_event
two_devices-Attached = one_more (one_more (nobody no_device refl refl) refl) refl

started-Reach : Reach (start_timer two_devices)
started-Reach = begin two_devices-Attached refl

-- the second device has called `next_slot`
abbrev one_done : System
one_done = with_device (start_timer two_devices) 1 (tell_done ((start_timer two_devices).device 1))

one_done-Reach : Reach one_done
one_done-Reach =
    later started-Reach
      (Step.enter 1 (unfold start_timer in omega arith) (unfold start_timer in refl) refl)

Reach-lockstep_example :
    ((one_done.device 0).slot ≡ one_done.rounds)
    × (((one_done.device 1).phase ≡ left)
        ⊎ ((one_done.device 1).slot ≤ (one_done.device 0).slot)
          × ((one_done.device 0).slot ≤ (one_done.device 1).slot + 1))
    × (one_done.time ≡ one_done.rounds % u64_mod)
Reach-lockstep_example =
    Reach-lockstep 0 1 one_done-Reach (unfold start_timer in omega arith)
      (unfold start_timer in omega arith) (unfold start_timer in refl)

at_check : one_done.pc ≢ exited
unfolding start_timer
at_check e = cc

Reach-progress_example :
    ((t : System) × (timer_step one_done ≡ some t))
    ⊎ ((i : ℕ) × (i < one_done.count) × CanMove (one_done.device i))
Reach-progress_example = Reach-progress one_done-Reach at_check

-- both devices have called `next_slot`
abbrev all_done : System
all_done = with_device one_done 0 (tell_done (one_done.device 0))

all_ready : (k : ℕ) → k < all_done.count → ready (all_done.device k) ≡ true
unfolding ready tell_done start_timer
all_ready zero h = refl
all_ready (suc zero) h = refl
all_ready (suc (suc k)) h = absurd (omega arith)

round_opens_example :
    (t : System) × (timer_steps (all_done.count + all_done.count + 3) all_done ≡ some t)
    × IsOpen all_done t (all_done.rounds + 1)
round_opens_example =
    round_opens all_done (unfold start_timer in refl) (unfold start_timer in refl) all_ready
