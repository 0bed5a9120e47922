-- ===== src/Console/Tests.antt =====
-- Two threads that print, the first interrupted in its message; and a thread that finds the lock taken.
use os_learning.Base.{◌≡◌, ◌≢◌, refl, [], ◌∷◌, some, arith}
use os_learning.Base.Run.{Returns}
use os_learning.Interrupt.{intr_disable, intr_set_status}
use os_learning.Thread.{
  Tid, process_activate, put_back, run_next, schedule, thread_block, intr_timer_handler,
}
use os_learning.Thread.Tests.{four_tasks, four_tasks-IsValid}
use os_learning.Sync.{lock_init, sema_down, down_round, lock_take}
use os_learning.Contention.System.{holding, acquire, take, preempt}
use os_learning.Contention.Exclusion.{takes, interrupted, acquires, releases, start}
use os_learning.Contention.Tests.{tasks, tasks-IsValid, holding_differs}
use os_learning.Console.Defs.{Console, console_put_str, console_put_int, console_put_char}
use os_learning.Console.Output.{Waits, console_put-Waits}
use os_learning.Console.Terminal.{Terminal, Prints, starts, calls, shows, moves, concat}
use os_learning.Console.Messages.{Partly, messages_whole}

not_asking : takes ≢ acquires
not_asking e = cc

not_ending : takes ≢ releases
not_ending e = cc

timer_asks : interrupted ≢ acquires
timer_asks e = cc

timer_ends : interrupted ≢ releases
timer_ends e = cc

-- 1 has printed the first of two characters, and 2 waits with a message of its own.
reached : (z : Terminal) × Prints tasks z × (z.system.point 1 ≡ holding) × (z.screen ≡ b'h' ∷ [])
unfolding start acquire take preempt intr_disable intr_set_status lock_init sema_down down_round
    lock_take process_activate put_back run_next schedule thread_block intr_timer_handler
reached =
    let p1 = calls (b'h' ∷ b'i' ∷ []) starts refl refl in
    let p2 = moves takes p1 not_asking not_ending refl refl in
    let p3 = shows b'h' (b'i' ∷ []) p2 refl refl in
    let p4 = moves interrupted p3 timer_asks timer_ends holding_differs refl in
    let p5 = calls (b'n' ∷ b'o' ∷ []) p4 refl refl in (_, p5, refl, refl)

messages_whole_example :
    ((t : Tid) → reached.0.system.point t ≡ holding → Partly reached.0 t)
    × (((t : Tid) → reached.0.system.point t ≢ holding)
        → reached.0.screen ≡ concat reached.0.printed)
messages_whole_example = messages_whole tasks tasks-IsValid refl (λ t. refl) reached.0 reached.1

abbrev taken : Console
taken = record {
  console_lock = record {
    holder = some 2;
    semaphore = record { value = 0; waiters = 4 ∷ [] };
    holder_repeat_nr = 1;
  };
  screen = [];
}

console_put-Waits_example :
    Returns (Waits taken four_tasks 2 (3 ∷ [])) (console_put_str 9 0x100 (λ a. 0) taken four_tasks)
    × Returns (Waits taken four_tasks 2 (3 ∷ [])) (console_put_int 255 taken four_tasks)
    × Returns (Waits taken four_tasks 2 (3 ∷ [])) (console_put_char b'x' taken four_tasks)
console_put-Waits_example =
    console_put-Waits taken four_tasks 2 1 2 (3 ∷ [])
      (record { owner = refl; down = refl; times = refl; taken = omega arith }) (omega arith) refl
      four_tasks-IsValid refl 9 0x100 (λ a. 0) 255 b'x'
