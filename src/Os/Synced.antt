-- ===== src/Os/Synced.antt =====
-- src/os.c and src/timer.c: the threads of processors and loader, held together by the timer. A pass
-- that ends with `next_slot` goes up to the first of its two sections, and a pass that ends with
-- `break` up to `detach_event`. The loader is the device that was attached last, 0; the processors
-- are the devices behind it, the last one first.
pub mod Passes
pub mod Parts
pub mod Main
use os.Prelude.{
  ℕ, zero, suc, ◌+◌, ◌<◌, ◌≡◌, Option, none, some, List, [], ◌∷◌, false, Exec, ok, update,
}
use os.Mm.{Mm}
use os.Loader.{Stdio}
use os.Timer
use os.Timer.{
  System, Device, running, waiting, with_device, tell_done, wake, detach_event, stop_timer,
  timer_step, start_timer, Attached,
}
use os.Os.{Machine, Pass, slot_over, stopped, cpu_turn}
use os.Os.Load.{LdPc, to_load, to_add, LdPass, ld_slot, ld_stopped, ld_turn}
use os.Os.Idle.{Idle}
use os.Os.Share.{Threads, with_pass}

-- `passes` counts the passes of each processor, for the statements only.
pub record Synced (c : Stdio) : Type 0 where
  pub timer : System
  pub threads : Threads
  pub avail_pid : ℕ
  pub loader : LdPc c
  pub passes : ℕ → ℕ

-- the call of the timer at the end of a pass
abbrev pub end_pass : Pass → Device → Device
end_pass (slot_over proc time_left) d = tell_done d
end_pass stopped d = detach_event d

abbrev pub after_turn : {c : Stdio} → Synced c → ℕ → Pass → Machine → Synced c
after_turn s i pass m = record s {
  timer = with_device s.timer (suc i) (end_pass pass (s.timer.device (suc i)));
  threads = with_pass s.threads i pass m;
  passes = update s.passes i (s.passes i + 1);
}

abbrev pub after_load : {c : Stdio} → Synced c → ℕ → LdPc c → Machine → Synced c
after_load s avail_pid pc m = record s {
  timer = with_device s.timer 0 (tell_done (s.timer.device 0));
  threads = record s.threads { machine = m };
  avail_pid = avail_pid;
  loader = pc;
}

abbrev pub after_end : {c : Stdio} → Synced c → Machine → Synced c
after_end s m = record s {
  timer = with_device s.timer 0 (detach_event (s.timer.device 0));
  threads = record s.threads { machine = m };
}

-- `malloc` gives the process that comes next a block that is not allocated.
abbrev pub Unused : {c : Stdio} → LdPc c → Machine → Type 0
Unused (to_load []) m = Unit
Unused (to_load (j ∷ js)) m = m.block j.fresh.ptr ≡ none
Unused (to_add proc j js) m = m.block j.fresh.ptr ≡ none

pub data Step (c : Stdio) (s t : Synced c) : Type 0 where
  clock : (u : System) → timer_step s.timer ≡ some u → t ≡ record s { timer = u } → Step c s t
  resume :
      (k : ℕ)
      → k < s.timer.count
      → (s.timer.device k).phase ≡ waiting
      → (s.timer.device k).done ≡ false
      → t ≡ record s { timer = with_device s.timer k (wake (s.timer.device k)) }
      → Step c s t
  turn :
      (i : ℕ) (pass : Pass) (m : Machine)
      → i < s.threads.num_cpus
      → (s.timer.device (suc i)).phase ≡ running
      → (s.threads.cpu i).gone ≡ false
      → cpu_turn s.threads.machine (s.threads.cpu i).time_left (s.threads.cpu i).proc ≡ ok (pass, m)
      → t ≡ after_turn s i pass m
      → Step c s t
  load :
      (avail_pid : ℕ) (pc : LdPc c) (m : Machine)
      → (s.timer.device 0).phase ≡ running
      → Unused s.loader s.threads.machine
      → ld_turn c s.threads.machine s.timer.time s.avail_pid s.loader ≡ ok (ld_slot avail_pid pc, m)
      → t ≡ after_load s avail_pid pc m
      → Step c s t
  end_load :
      (m : Machine)
      → (s.timer.device 0).phase ≡ running
      → Unused s.loader s.threads.machine
      → ld_turn c s.threads.machine s.timer.time s.avail_pid s.loader ≡ ok (ld_stopped, m)
      → t ≡ after_end s m
      → Step c s t
  stop : t ≡ record s { timer = stop_timer s.timer } → Step c s t

-- One device per processor and one for the loader, no process ready or running, and no pass made.
pub data Reach (c : Stdio) : Synced c → Type 0 where
  begin :
      (u : System) {s : Synced c}
      → Attached u
      → u.count ≡ suc s.threads.num_cpus
      → s.timer ≡ start_timer u
      → Idle s.threads.machine.sched
      → ((i : ℕ) → (s.threads.cpu i).proc ≡ none)
      → ((i : ℕ) → s.passes i ≡ 0)
      → Reach c s
  later : {s t : Synced c} → Reach c s → Step c s t → Reach c t
