-- ===== src/Timer.antt =====
-- src/timer.c: the timer thread and the devices (processors and loader) that wait for it.
-- A step is one critical section, or a test between two of them; a wait on a condition variable is a
-- section that has no step while its condition is false. The device list is its length and a
-- function from places to devices, the newest first. `phase` is where a device's thread stands;
-- `slot` counts the calls of `next_slot` that returned and `rounds` the slots of the timer, both for
-- the statements only.
pub mod Inv
pub mod Barrier
pub mod Lockstep
pub mod Progress
pub mod Round
use os.Prelude.{
  ℕ, zero, suc, ◌+◌, ◌%◌, ◌<◌, ◌≡◌, Bool, true, false, ◌||◌, Option, none, some, ltb, ◌==◌,
  if◌then◌else◌, update,
}
use os.Prelude.Words.{u64_mod}

-- Outside the timer's functions, between the two sections of `next_slot`, or after `detach_event`.
pub data Phase : Type 0 where
  running waiting left : Phase

-- `struct timer_id_t`
pub record Device : Type 0 where
  pub done : Bool
  pub fsh : Bool
  pub phase : Phase
  pub slot : ℕ

-- The next test or section of `timer_routine`: the loop test, the two loops over the devices at a
-- place of the list, with the counts `fsh` and `event`, or none.
pub data TimerPc : Type 0 where
  check : TimerPc
  scan reset : ℕ → ℕ → ℕ → TimerPc
  exited : TimerPc

-- the static variables
pub record System : Type 0 where
  pub count : ℕ
  pub device : ℕ → Device
  pub time : ℕ
  pub timer_started : Bool
  pub timer_stop : Bool
  pub pc : TimerPc
  pub rounds : ℕ

abbrev pub with_device : System → ℕ → Device → System
with_device s i d = record s { device = update s.device i d }

-- the two sections of `next_slot`, and `detach_event`
unfoldable pub tell_done : Device → Device
tell_done d = record d { done = true; phase = waiting }

unfoldable pub wake : Device → Device
wake d = record d { phase = running; slot = d.slot + 1 }

unfoldable pub detach_event : Device → Device
detach_event d = record d { fsh = true; phase = left }

-- the condition for which `timer_routine` waits, negated
unfoldable pub ready : Device → Bool
ready d = d.done || d.fsh

-- the first loop of `timer_routine` past one device, and the step of the clock behind the loop
abbrev pub pass : System → ℕ → ℕ → ℕ → System
pass s i fsh event = record s {
  pc = scan (i + 1) (if (s.device i).fsh then fsh + 1 else fsh) (event + 1);
}

abbrev pub tick : System → ℕ → ℕ → System
tick s fsh event = record s {
  time = (s.time + 1) % u64_mod;
  rounds = s.rounds + 1;
  pc = reset 0 fsh event;
}

unfoldable pub scan_step : System → ℕ → ℕ → ℕ → Option System
scan_step s i fsh event =
    if ltb i s.count
    then if ready (s.device i) then some (pass s i fsh event) else none
    else some (tick s fsh event)

-- the second loop at one device, and the test behind the loop
abbrev pub let_go : System → ℕ → ℕ → ℕ → System
let_go s i fsh event = record (with_device s i (record (s.device i) { done = false })) {
  pc = reset (i + 1) fsh event;
}

abbrev pub next_loop : System → ℕ → ℕ → System
next_loop s fsh event = record s { pc = if fsh == event then exited else check }

unfoldable pub reset_step : System → ℕ → ℕ → ℕ → System
reset_step s i fsh event = if ltb i s.count then let_go s i fsh event else next_loop s fsh event

-- a step of the timer thread; `none` while it waits and when it has ended
unfoldable pub step_at : System → TimerPc → Option System
step_at s check = some (record s { pc = if s.timer_stop then exited else scan 0 0 0 })
step_at s (scan i fsh event) = scan_step s i fsh event
step_at s (reset i fsh event) = some (reset_step s i fsh event)
step_at s exited = none

unfoldable pub timer_step : System → Option System
timer_step s = step_at s s.pc

-- the list of one device, in front of others
abbrev pub push_device : Device → (ℕ → Device) → ℕ → Device
push_device d rest zero = d
push_device d rest (suc i) = rest i

-- `attach_event`: a new device at the head of the list, none once the timer was started
abbrev pub attached : System → System
attached s = record s {
  count = s.count + 1;
  device = push_device (record { done = false; fsh = false; phase = running; slot = 0 }) s.device;
}

unfoldable pub attach_event : System → Option System
attach_event s = if s.timer_started then none else some (attached s)

unfoldable pub start_timer : System → System
start_timer s = record s {
  timer_started = true;
  timer_stop = false;
  time = 0;
  rounds = 0;
  pc = check;
}

-- `stop_timer` up to its wait for the timer thread
unfoldable pub stop_timer : System → System
stop_timer s = record s { timer_stop = true }

-- the rest of `stop_timer`, once the timer thread has ended: the devices are freed
unfoldable pub free_devices : System → Option System
free_devices s = elim s.pc [ exited ↦ some (record s { count = 0 }) | _ ↦ none ]

-- A step of the timer, of a device, or of the thread that stops the timer.
pub data Step (s : System) (t : System) : Type 0 where
  timer : timer_step s ≡ some t → Step s t
  enter :
      (i : ℕ)
      → i < s.count
      → (s.device i).phase ≡ running
      → t ≡ with_device s i (tell_done (s.device i))
      → Step s t
  leave :
      (i : ℕ)
      → i < s.count
      → (s.device i).phase ≡ waiting
      → (s.device i).done ≡ false
      → t ≡ with_device s i (wake (s.device i))
      → Step s t
  detach :
      (i : ℕ)
      → i < s.count
      → (s.device i).phase ≡ running
      → t ≡ with_device s i (detach_event (s.device i))
      → Step s t
  stop : t ≡ stop_timer s → Step s t

-- The devices attached before the timer starts.
pub data Attached : System → Type 0 where
  nobody : (s : System) → s.count ≡ 0 → s.timer_started ≡ false → Attached s
  one_more : {s t : System} → Attached s → attach_event s ≡ some t → Attached t

pub data Reach : System → Type 0 where
  begin : {s t : System} → Attached s → t ≡ start_timer s → Reach t
  later : {s t : System} → Reach s → Step s t → Reach t
