-- ===== src/Ide/Interrupts.antt =====
-- The channels of `ide_init`, and the way of a thread that waits for its disk.
use os_learning.Base.{
  ℕ, zero, suc, ◌+◌, ◌-◌, ◌/◌, ◌≤◌, ◌<◌, ◌≡◌, refl, ap, ap₂, ◌∙◌, Bool-cases, inl, inr, Bool, true,
  false, ◌||◌, List, [], ◌∷◌, ◌++◌, ltb, ◌==◌, arith, if◌then◌else◌, update,
}
use mathlib.Core.Path.{subst}
use os_learning.Base.Run.{Run, ok, ◌>>=◌, Returns}
use os_learning.Interrupt.{IntrStatus, intr_off, intr_set_status-eq}
use os_learning.Thread.{Tid, task_blocked, Sched, schedule, is_blocked, status_of, IsValid}
use os_learning.Thread.Schedule.{turn, rotate, schedule-Turned}
use os_learning.Thread.Block.{Blocked, Unblocked}
use os_learning.Sync.{Semaphore, sema_init, lock_init, sema_down, sema_up, sema_resume}
use os_learning.Sync.Semaphores.{IsValid-intr, sema_down-Waits, sema_up-Wakes, down_round-passes}
use os_learning.Ide.Defs.{
  Channel, channel_name, init_channel, init_channels, ide_init, intr_hd_handler,
}

-- a channel that is ready for its first command
pub record IsInit (channel_no : ℕ) (channel : Channel) : Type 0 where
  pub name : channel.name ≡ channel_name channel_no
  pub base : channel.port_base ≡ (if channel_no == 0 then 0x1f0 else 0x170)
  pub irq : channel.irq_no ≡ 0x2e + channel_no
  pub lock : channel.lock ≡ lock_init
  pub expecting : channel.expecting_intr ≡ false
  pub disk_done : channel.disk_done ≡ sema_init 0

init_channel-IsInit :
    (channel_no : ℕ) (old : Channel)
    → channel_no < 2
    → IsInit channel_no (init_channel channel_no old)
unfolding init_channel sema_init lock_init
init_channel-IsInit channel_no old two = record {
  name = refl;
  base = ground arith;
  irq = ground arith;
  lock = refl;
  expecting = refl;
  disk_done = refl;
}

init_channels-IsInit :
    (n : ℕ) (channels : ℕ → Channel)
    → n ≤ 2
    → Returns (λ all. (k : ℕ) → k < n → IsInit k (all k)) (init_channels n channels)
unfolding init_channels
init_channels-IsInit zero channels two = (channels, refl, λ k less. absurd (omega arith))
init_channels-IsInit (suc n) channels two =
    let (before, run, those) = init_channels-IsInit n channels (omega arith) in
    let small : ltb n 2 ≡ true = ground arith in
    (
      update before n (init_channel n (before n)),
      rw (run, small) refl,
      λ k less. elim (Bool-cases (n == k)) [
        | inl e ↦
            let same : n ≡ k = ground (arith, e) in
            rw e (
              subst (λ m. IsInit m (init_channel n (before n))) same
                (init_channel-IsInit n (before n) (omega arith)))
        | inr ne ↦ rw ne (those k (ground (arith, ne)))
      ],
    )

-- With 1 to 4 disks, `ide_init` returns with a channel for two disks each; each channel has its
-- name, its ports, its interrupt number, a free lock, `disk_done` at 0 without waiters, and no
-- command under way.
pub ide_init-IsInit :
    (hd_cnt : ℕ) (channels : ℕ → Channel)
    → 0 < hd_cnt
    → hd_cnt ≤ 4
    → Returns
        (λ r. (r.0 ≡ (hd_cnt + 1) / 2) × ((k : ℕ) → k < r.0 → IsInit k (r.1 k)))
        (ide_init hd_cnt channels)
unfolding ide_init
ide_init-IsInit hd_cnt channels positive few =
    let (all, run, those) = init_channels-IsInit ((hd_cnt + 2 - 1) / 2) channels (omega arith) in
    let any : ltb 0 hd_cnt ≡ true = ground arith in
    (((hd_cnt + 2 - 1) / 2, all), rw (any, run) refl, (omega arith, those))

-- an expected interrupt is a `sema_up`
handler-up :
    (channel_no : ℕ) (channels : ℕ → Channel) (s : Sched) (psema : Semaphore) (s' : Sched)
    → channel_no < 2
    → (channels channel_no).irq_no ≡ 0x2e + channel_no
    → (channels channel_no).expecting_intr ≡ true
    → sema_up (channels channel_no).disk_done s ≡ ok (psema, s')
    → intr_hd_handler (0x2e + channel_no) channels s
      ≡ ok (
        update channels channel_no
            (record (channels channel_no) { expecting_intr = false; disk_done = psema }),
        s',
      )
unfolding intr_hd_handler
handler-up channel_no channels s psema s' two irq expects run =
    let ours : (0x2e + channel_no == 0x2e || 0x2e + channel_no == 0x2f) ≡ true = ground arith in
    let index : 0x2e + channel_no - 0x20 - 0xe ≡ channel_no = omega arith in
    let same : ((channels channel_no).irq_no == 0x2e + channel_no) ≡ true = ground arith in
    rw (ours, index, same, expects, run) refl

-- a semaphore at 1 lets the resumed thread pass
resume-passes :
    (old : IntrStatus) (waiters : List Tid) (s : Sched)
    → sema_resume old (record { value = 1; waiters = waiters }) s
      ≡ ok (true, record { value = 0; waiters = waiters }, record s { intr = old })
unfolding sema_resume
resume-passes old waiters s =
    let passes =
      down_round-passes (record { value = 1; waiters = waiters }) (record s { intr = intr_off })
        refl in
    rw (intr_set_status-eq intr_off s.intr, passes, intr_set_status-eq old intr_off) refl

-- A thread waits for its disk: it blocks in `sema_down`; `intr_hd_handler` is called in the thread that runs then; at
-- the next turn of the queue the one that runs is resumed. No interrupt of the program makes that call, since the
-- handler is not registered. The answer says for the first and for the resumed thread whether it has passed.
abbrev pub wait_for_disk :
    (channel_no : ℕ) → (channels : ℕ → Channel) → Sched → Run (Bool × Bool × (ℕ → Channel) × Sched)
wait_for_disk channel_no channels s = do
  let channel = channels channel_no
  (passed, psema, s1) ← sema_down channel.disk_done s
  let waiting = update channels channel_no (record channel { disk_done = psema })
  (called, s2) ← intr_hd_handler (0x2e + channel_no) waiting (record s1 { intr = intr_off })
  s3 ← schedule s2
  (resumed, psema', s4) ← sema_resume s.intr (called channel_no).disk_done s3
  ok (
    passed,
    resumed,
    update called channel_no (record (called channel_no) { disk_done = psema' }),
    s4,
  )

-- what a thread that waits finds when it goes on
pub record Resumed (channel_no : ℕ) (s : Sched) (r : Bool × Bool × (ℕ → Channel) × Sched)
    : Type 0 where
  blocks : r.0 ≡ false
  passes : r.1 ≡ true
  expecting : (r.2 channel_no).expecting_intr ≡ false
  disk_done : (r.2 channel_no).disk_done ≡ sema_init 0
  runs : r.3.running ≡ s.running
  same_intr : r.3.intr ≡ s.intr
  valid : IsValid r.3

module _ (channel_no : ℕ) (channels : ℕ → Channel) (s : Sched) (next : Tid) (rest : List Tid)
    (two : channel_no < 2) (irq : (channels channel_no).irq_no ≡ 0x2e + channel_no)
    (expects : (channels channel_no).expecting_intr ≡ true) where
  self : (channel_no == channel_no) ≡ true
  self = ground arith

  -- behind the block
  module _ (s1 : Sched) (b : Blocked s task_blocked next rest s1) where
    abbrev off1 : Sched
    off1 = record s1 { intr = intr_off }

    abbrev one_waits : Semaphore
    one_waits = record { value = 0; waiters = s.running ∷ [] }

    abbrev waiting : ℕ → Channel
    waiting = update channels channel_no (record (channels channel_no) { disk_done = one_waits })

    abbrev woken : Semaphore → ℕ → Channel
    woken psema =
        update waiting channel_no
          (record (waiting channel_no) { expecting_intr = false; disk_done = psema })

    interrupt-wakes :
        (s2 : Sched) × Unblocked off1 s.running s2
        × (intr_hd_handler (0x2e + channel_no) waiting off1
            ≡ ok (woken (record { value = 1; waiters = [] }), s2))
    interrupt-wakes =
        let stopped : is_blocked (status_of off1 s.running) ≡ true = rw b.stopped refl in
        let ((m, s2), run, w) =
          sema_up-Wakes one_waits off1 s.running [] refl refl (IsValid-intr s1 intr_off b.valid)
            stopped in
        let wakes : sema_up one_waits off1 ≡ ok (record { value = 1; waiters = [] }, s2) =
          run ∙ ap (λ m. ok (m, s2)) w.sema in
        (
          s2,
          w.sched,
          handler-up channel_no waiting off1 (record { value = 1; waiters = [] }) s2 two
              (rw self irq) (rw self expects) (rw self wakes),
        )

    -- the thread that the interrupt has put in front is the next one
    turn-back :
        (s2 s3 : Sched)
        → Unblocked off1 s.running s2
        → turn s3 ≡ rotate (turn s2)
        → s3.running ≡ s.running
    turn-back s2 s3 u order =
        let before : turn s2 ≡ s1.running ∷ (s.running ∷ s1.ready) = ap₂ ◌∷◌ u.runs u.queue in
        let now : turn s3 ≡ s.running ∷ (s1.ready ++ (s1.running ∷ [])) =
          order ∙ ap rotate before in
        cc

    abbrev rest_of_wait : Run (Bool × Bool × (ℕ → Channel) × Sched)
    rest_of_wait = do
      (called, s2) ← intr_hd_handler (0x2e + channel_no) waiting off1
      s3 ← schedule s2
      (resumed, psema, s4) ← sema_resume s.intr (called channel_no).disk_done s3
      ok (
        false,
        resumed,
        update called channel_no (record (called channel_no) { disk_done = psema }),
        s4,
      )

    rest-Resumed : Returns (Resumed channel_no s) rest_of_wait
    unfolding sema_init
    rest-Resumed =
        let (s2, u, called) = interrupt-wakes in
        let (s3, turns, t) = schedule-Turned s2 u.valid u.same_intr in
        let passes = resume-passes s.intr [] s3 in
        let up : ℕ → Channel = woken (record { value = 1; waiters = [] }) in
        let done : ℕ → Channel =
          update up channel_no
            (record (up channel_no) { disk_done = record { value = 0; waiters = [] } }) in
        (
          (false, true, done, record s3 { intr = s.intr }),
          rw (called, turns, self, passes) refl,
          record {
            blocks = refl;
            passes = refl;
            expecting = rw self refl;
            disk_done = rw self refl;
            runs = turn-back s2 s3 u t.order;
            same_intr = refl;
            valid = IsValid-intr s3 s.intr t.valid;
          },
        )

  -- On one of the two channels, with its interrupt number, a command under way and `disk_done` at 0
  -- without waiters, from a valid state with a ready task: a thread that calls `sema_down` on
  -- `disk_done` blocks; if `intr_hd_handler` is then called for the channel, in the thread that
  -- runs, that call and the next turn of the queue make the first thread run again and pass, with
  -- its interrupt flag as before, `disk_done` again at 0 without waiters, and no command under way.
  -- The call of the handler is made by hand: the program never registers it and keeps the disks'
  -- lines masked, so that no interrupt makes it.
  pub wait_for_disk-Resumed :
      (channels channel_no).disk_done ≡ sema_init 0
      → IsValid s
      → s.ready ≡ next ∷ rest
      → Returns (Resumed channel_no s) (wait_for_disk channel_no channels s)
  unfolding sema_init
  wait_for_disk-Resumed none v q =
      let empty : Semaphore = record { value = 0; waiters = [] } in
      let ((p, m, s1), run, w) = sema_down-Waits empty s next rest refl refl v q in
      let waits : sema_down empty s
          ≡ ok (false, record { value = 0; waiters = s.running ∷ [] }, s1) =
        run ∙ ap₂ (λ p m. ok (p, m, s1)) w.blocked w.sema in
      let (r, runs, resumed) = rest-Resumed s1 w.sched in (r, rw (none, waits) runs, resumed)
