-- ===== src/Thread/Sleep.antt =====
-- `ticks_to_sleep` and `mtime_sleep` of device/timer.c. `thread_yield` is defined nowhere in the program: what the
-- counter shows at each test of the loop is an argument.
use os_learning.Base.{
  ℕ, zero, suc, ◌+◌, ◌-◌, ◌/◌, ◌%◌, ◌^◌, ◌<◌, ◌≤◌, ◌≡◌, refl, sym, ap, ◌∙◌, true, false, arith, ltb,
  if◌then◌else◌,
}
use os_learning.Base.Run.{Run, ok, panic, out_of_fuel, ◌>>=◌, ◌>>◌, assert}

-- `now k` is `ticks` at test `k` of the loop, which has `fuel` rounds left; the answer is the test that ends it.
unfoldable pub sleep_loop : (fuel : ℕ) (now : ℕ → ℕ) (start_tick sleep_ticks k : ℕ) → Run ℕ
sleep_loop zero now start_tick sleep_ticks k = out_of_fuel
sleep_loop (suc fuel) now start_tick sleep_ticks k =
    let rest = sleep_loop fuel now start_tick sleep_ticks (k + 1) in
    if ltb ((now k + 2 ^ 32 - start_tick) % 2 ^ 32) sleep_ticks then rest else ok k

unfoldable pub ticks_to_sleep : (fuel start_tick : ℕ) (now : ℕ → ℕ) (sleep_ticks : ℕ) → Run ℕ
unfolding sleep_loop
ticks_to_sleep fuel start_tick now sleep_ticks = sleep_loop fuel now start_tick sleep_ticks 0

-- The first part of `mtime_sleep`. `mil_second_per_init` stands for `1000 / 100` without parentheses, and so does the
-- STEP of `DIV_ROUND_UP`: the sum is divided by 1000 and then by 100.
unfoldable pub ticks_of : (m_seconds : ℕ) → Run ℕ
ticks_of m_seconds = do
  let sleep_ticks = (m_seconds + 1000 / 100 - 1) % 2 ^ 32 / 1000 / 100
  assert (ltb 0 sleep_ticks)
  ok sleep_ticks

unfoldable pub mtime_sleep : (fuel start_tick : ℕ) (now : ℕ → ℕ) (m_seconds : ℕ) → Run ℕ
unfolding ticks_of
mtime_sleep fuel start_tick now m_seconds = do
  sleep_ticks ← ticks_of m_seconds
  ticks_to_sleep fuel start_tick now sleep_ticks

-- the loop from test `k` on, `n` tests before its end
sleep_loop-ends :
    (n fuel start_tick sleep_ticks k : ℕ) (now : ℕ → ℕ) (passed : ℕ → ℕ)
    → start_tick < 2 ^ 32
    → n < fuel
    → ((j : ℕ) → now j ≡ (start_tick + passed j) % 2 ^ 32)
    → ((j : ℕ) → j < n → passed (k + j) < sleep_ticks)
    → sleep_ticks ≤ passed (k + n)
    → passed (k + n) < 2 ^ 32
    → sleep_ticks < 2 ^ 32
    → sleep_loop fuel now start_tick sleep_ticks k ≡ ok (k + n)
unfolding sleep_loop
sleep_loop-ends n zero start_tick sleep_ticks k now passed hs few shows before after fits small =
    absurd (omega arith)
sleep_loop-ends zero (suc fuel) start_tick sleep_ticks k now passed hs few shows before after fits
      small =
    let here : k + 0 ≡ k = omega arith in
    let seen : passed (k + 0) ≡ passed k = ap passed here in
    let over : ltb ((now k + 2 ^ 32 - start_tick) % 2 ^ 32) sleep_ticks ≡ false =
      ground (arith, shows k, seen, after, fits) in
    rw over (ap ok (sym here))
sleep_loop-ends (suc n) (suc fuel) start_tick sleep_ticks k now passed hs few shows before after
      fits small =
    let here : passed (k + 0) ≡ passed k = ap passed (omega arith) in
    let more : ltb ((now k + 2 ^ 32 - start_tick) % 2 ^ 32) sleep_ticks ≡ true =
      ground (arith, shows k, here, before 0 (omega arith)) in
    let next : (j : ℕ) → k + suc j ≡ k + 1 + j = λ j. omega arith in
    let seen : (j : ℕ) → passed (k + suc j) ≡ passed (k + 1 + j) = λ j. ap passed (next j) in
    rw more (
      sleep_loop-ends n fuel start_tick sleep_ticks (k + 1) now passed hs (omega arith) shows
        (λ j less. omega (arith, before (suc j) (omega arith), seen j))
        (omega (arith, after, seen n)) (omega (arith, fits, seen n)) small
      ∙ ap ok (sym (next n)))

-- If `ticks` shows `start_tick + passed j` modulo 2^32 at each test `j` of the loop, with fewer
-- than `sleep_ticks` passed before test `n`, and at least `sleep_ticks` and fewer than 2^32 at it,
-- `ticks_to_sleep` ends at test `n` in more than `n` rounds, also where `ticks` starts again at 0.
pub ticks_to_sleep-ends :
    (n fuel start_tick sleep_ticks : ℕ) (now : ℕ → ℕ) (passed : ℕ → ℕ)
    → start_tick < 2 ^ 32
    → n < fuel
    → ((j : ℕ) → now j ≡ (start_tick + passed j) % 2 ^ 32)
    → ((j : ℕ) → j < n → passed j < sleep_ticks)
    → sleep_ticks ≤ passed n
    → passed n < 2 ^ 32
    → ticks_to_sleep fuel start_tick now sleep_ticks ≡ ok n
unfolding ticks_to_sleep
ticks_to_sleep-ends n fuel start_tick sleep_ticks now passed hs few shows before after fits =
    let from : (j : ℕ) → 0 + j ≡ j = λ j. omega arith in
    sleep_loop-ends n fuel start_tick sleep_ticks 0 now passed hs few shows
      (λ j less. omega (arith, before j less, ap passed (from j)))
      (omega (arith, after, ap passed (from n))) (omega (arith, fits, ap passed (from n)))
      (omega arith)
    ∙ ap ok (from n)

-- For less than 99991 milliseconds the ASSERT of `mtime_sleep` fails, whatever `ticks` shows.
pub mtime_sleep-panic :
    (fuel start_tick : ℕ) (now : ℕ → ℕ) (m_seconds : ℕ)
    → m_seconds < 99991
    → mtime_sleep fuel start_tick now m_seconds ≡ panic
unfolding mtime_sleep
mtime_sleep-panic fuel start_tick now m_seconds short =
    let none : (m_seconds + 1000 / 100 - 1) % 2 ^ 32 / 1000 / 100 ≡ 0 = omega arith in rw none refl

pub ticks_of-panic : (m_seconds : ℕ) → m_seconds < 99991 → ticks_of m_seconds ≡ panic
unfolding ticks_of
ticks_of-panic m_seconds short =
    let none : (m_seconds + 1000 / 100 - 1) % 2 ^ 32 / 1000 / 100 ≡ 0 = omega arith in rw none refl
