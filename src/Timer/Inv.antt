-- ===== src/Timer/Inv.antt =====
-- src/timer.c: what holds of the devices, and how their steps keep it.
use mathlib.Core.Path.{subst}
use os.Prelude.{
  ℕ, ◌+◌, ◌%◌, ◌≤◌, ◌<◌, ◌≡◌, refl, sym, ◌⊎◌, inl, inr, Bool, true, false, ◌==◌, ==_iff, Bool-cases,
  update,
}
use os.Prelude.Words.{u64_mod}
use os.Timer.{
  Phase, running, waiting, left, Device, TimerPc, check, scan, reset, exited, System, with_device,
  tell_done, wake, detach_event, stop_timer,
}

-- A device that may run in the slot `r`: it runs there, it is done with it, it was let into it from
-- the slot before and has not woken up, or it has left.
abbrev pub FreeAt : Phase → Bool → ℕ → ℕ → Type 0
FreeAt running false slot r = slot ≡ r
FreeAt running true slot r = ⊥
FreeAt waiting true slot r = slot ≡ r
FreeAt waiting false slot r = slot + 1 ≡ r
FreeAt left done slot r = Unit

-- A device that is done with the slot `k` before `r`, or has left.
abbrev pub DoneAt : Phase → Bool → ℕ → ℕ → ℕ → Type 0
DoneAt running done slot k r = ⊥
DoneAt waiting true slot k r = slot + k ≡ r
DoneAt waiting false slot k r = ⊥
DoneAt left done slot k r = Unit

abbrev pub Free : Device → ℕ → Type 0
Free d r = FreeAt d.phase d.done d.slot r

abbrev pub Done : Device → ℕ → ℕ → Type 0
Done d k r = DoneAt d.phase d.done d.slot k r

-- What holds of the device at place `i`: the first loop has passed the devices that are done, and
-- the second has let the devices go that it has passed.
abbrev pub At : TimerPc → ℕ → Device → ℕ → Type 0
At check i d r = Free d r
At (scan j fsh event) i d r = (i < j → Done d 0 r) × (j ≤ i → Free d r)
At (reset j fsh event) i d r = (i < j → Free d r) × (j ≤ i → Done d 1 r)
At exited i d r = Free d r

-- `fsh` marks the devices that have left.
abbrev pub MarkAt : Phase → Bool → Type 0
MarkAt running fsh = fsh ≡ false
MarkAt waiting fsh = fsh ≡ false
MarkAt left fsh = fsh ≡ true

abbrev pub Mark : Device → Type 0
Mark d = MarkAt d.phase d.fsh

abbrev pub AllLeft : ℕ → (ℕ → Device) → Type 0
AllLeft n device = (i : ℕ) → i < n → (device i).phase ≡ left

-- The counts of the first loop agree only if every device that was passed has left.
abbrev pub Counts : TimerPc → System → Type 0
Counts check s = Unit
Counts (scan j fsh event) s =
    (j ≤ s.count) × (event ≡ j) × (fsh ≤ j) × (fsh ≡ j → AllLeft j s.device)
Counts (reset j fsh event) s =
    (event ≡ s.count) × (fsh ≤ s.count) × (fsh ≡ s.count → AllLeft s.count s.device)
Counts exited s = (s.timer_stop ≡ true) ⊎ AllLeft s.count s.device

-- The invariant, for a timer thread that stands at `pc`.
pub record InvAt (s : System) (pc : TimerPc) : Type 0 where
  pub each : (i : ℕ) → i < s.count → At pc i (s.device i) s.rounds
  pub marks : (i : ℕ) → i < s.count → Mark (s.device i)
  pub counts : Counts pc s
  pub clock : s.time ≡ s.rounds % u64_mod

abbrev pub Inv : System → Type 0
Inv s = InvAt s s.pc

-- A property of each device survives an update of one that keeps it.
pub update-each {ℓ} :
    {n : ℕ} (P : ℕ → Device → Type ℓ) (f : ℕ → Device) (j : ℕ) (d : Device)
    → ((i : ℕ) → i < n → P i (f i))
    → (P j (f j) → P j d)
    → (i : ℕ) → i < n
    → P i (update f j d i)
update-each P f j d all keep i h = elim (Bool-cases (j == i)) [
  | inl e ↦
      (let same = (==_iff j i).0 e in
        rw e (subst (λ k. P k d) same (keep (subst (λ k. P k (f k)) (sym same) (all i h)))))
  | inr e ↦ rw e (all i h)
]

At-map :
    (pc : TimerPc) (i : ℕ) (d d' : Device) (r : ℕ)
    → (Free d r → Free d' r)
    → ((k : ℕ) → Done d k r → Done d' k r)
    → At pc i d r
    → At pc i d' r
At-map check i d d' r f g a = f a
At-map (scan j fsh event) i d d' r f g a = (λ h. g 0 (a.0 h), λ h. f (a.1 h))
At-map (reset j fsh event) i d d' r f g a = (λ h. f (a.0 h), λ h. g 1 (a.1 h))
At-map exited i d d' r f g a = f a

-- The counts stay true of devices that leave.
Counts-map :
    (pc : TimerPc) (s : System) (j : ℕ) (d : Device)
    → ((s.device j).phase ≡ left → d.phase ≡ left)
    → Counts pc s
    → Counts pc (with_device s j d)
Counts-map check s j d keep c = tt
Counts-map (scan i fsh event) s j d keep (a, b, e, l) =
    (a, b, e, λ q. update-each (λ _ d. d.phase ≡ left) s.device j d (l q) keep)
Counts-map (reset i fsh event) s j d keep (b, e, l) =
    (b, e, λ q. update-each (λ _ d. d.phase ≡ left) s.device j d (l q) keep)
Counts-map exited s j d keep (inl e) = inl e
Counts-map exited s j d keep (inr l) = inr (update-each (λ _ d. d.phase ≡ left) s.device j d l keep)

-- A step of one device keeps the invariant if it keeps what holds of the device.
pub Inv-with_device :
    (s : System) (j : ℕ) (d : Device)
    → Inv s
    → (Free (s.device j) s.rounds → Free d s.rounds)
    → ((k : ℕ) → Done (s.device j) k s.rounds → Done d k s.rounds)
    → Mark d
    → ((s.device j).phase ≡ left → d.phase ≡ left)
    → Inv (with_device s j d)
Inv-with_device s j d v f g m l = record {
  each =
      update-each (λ i d. At s.pc i d s.rounds) s.device j d v.each
        (At-map s.pc j (s.device j) d s.rounds f g);
  marks = update-each (λ i d. Mark d) s.device j d v.marks (λ _. m);
  counts = Counts-map s.pc s j d l v.counts;
  clock = v.clock;
}

running-Free : (b : Bool) {slot r : ℕ} → FreeAt running b slot r → (b ≡ false) × (slot ≡ r)
running-Free true h = absurd h
running-Free false h = (refl, h)

waiting-Free : (slot r : ℕ) (b : Bool) → b ≡ false → FreeAt waiting b slot r → slot + 1 ≡ r
waiting-Free slot r true e h = cc
waiting-Free slot r false e h = h

waiting-Done : (slot k r : ℕ) (b : Bool) → b ≡ false → DoneAt waiting b slot k r → ⊥
waiting-Done slot k r true e h = cc
waiting-Done slot k r false e h = h

pub Inv-tell_done :
    (s : System) (j : ℕ)
    → j < s.count
    → (s.device j).phase ≡ running
    → Inv s
    → Inv (with_device s j (tell_done (s.device j)))
unfolding tell_done
Inv-tell_done s j h e v =
    Inv-with_device s j (tell_done d) v
      (λ f. (running-Free d.done (subst (λ p. FreeAt p d.done d.slot s.rounds) e f)).1)
      (λ k g. absurd (subst (λ p. DoneAt p d.done d.slot k s.rounds) e g))
      (subst (λ p. MarkAt p d.fsh) e (v.marks j h)) (λ l. cc)
  where
    d : Device
    d = s.device j

pub Inv-wake :
    (s : System) (j : ℕ)
    → j < s.count
    → (s.device j).phase ≡ waiting
    → (s.device j).done ≡ false
    → Inv s
    → Inv (with_device s j (wake (s.device j)))
unfolding wake
Inv-wake s j h e b v =
    Inv-with_device s j (wake d) v
      (λ f.
        subst (λ c. FreeAt running c (d.slot + 1) s.rounds) (sym b)
          (waiting-Free d.slot s.rounds d.done b
            (subst (λ p. FreeAt p d.done d.slot s.rounds) e f)))
      (λ k g. absurd (
        waiting-Done d.slot k s.rounds d.done b
          (subst (λ p. DoneAt p d.done d.slot k s.rounds) e g)))
      (subst (λ p. MarkAt p d.fsh) e (v.marks j h)) (λ l. cc)
  where
    d : Device
    d = s.device j

pub Inv-detach_event :
    (s : System) (j : ℕ) → Inv s → Inv (with_device s j (detach_event (s.device j)))
unfolding detach_event
Inv-detach_event s j v =
    Inv-with_device s j (detach_event (s.device j)) v (λ f. tt) (λ k g. tt) refl (λ l. refl)

pub Inv-stop_timer : (s : System) → Inv s → Inv (stop_timer s)
unfolding stop_timer
Inv-stop_timer s v = record {
  each = v.each;
  marks = v.marks;
  counts = stopped s.pc v.counts;
  clock = v.clock;
}
  where
    stopped : (pc : TimerPc) → Counts pc s → Counts pc (record s { timer_stop = true })
    stopped check c = tt
    stopped (scan i fsh event) c = c
    stopped (reset i fsh event) c = c
    stopped exited c = inl refl
