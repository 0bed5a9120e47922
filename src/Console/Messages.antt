-- ===== src/Console/Messages.antt =====
-- Messages printed through device/console.c stay whole.
use mathlib.Core.List.{append-nil, append_assoc}
use mathlib.Core.Path.{subst}
use os_learning.Base.{
  ℕ, ◌≡◌, ◌≢◌, refl, sym, ap, ◌∙◌, ◌⊎◌, inl, inr, Bool, Bool-cases, true, false, List, [], ◌∷◌,
  ◌++◌, ◌==◌, update, arith,
}
use os_learning.Interrupt.{intr_on}
use os_learning.Thread.{Tid, Sched, IsValid, stack_magic_value}
use os_learning.Contention.System.{
  Point, outside, waiting, entered, holding, leaving, System, place,
}
use os_learning.Contention.Invariant.{is_inner}
use os_learning.Contention.Exclusion.{
  Action, acquires, resumes, takes, releases, signals, interrupted, May, start, Reach, begins, goes,
  Reach-Inv,
}
use os_learning.Contention.Moves.{is_holding, Lands, Moves, execute-Moves}
use os_learning.Console.Terminal.{
  Terminal, runs, concat, asks, puts, finishes, Prints, starts, calls, shows, ends, moves,
}

-- before the passage of `lock_acquire`
abbrev is_asking : Point → Bool
is_asking waiting = true
is_asking entered = true
is_asking _ = false

-- The holder's message is on the screen up to what is left of it.
abbrev pub Partly : Terminal → Tid → Type 0
Partly z t = (pre : List ℕ) × (z.message t ≡ pre ++ z.left t) × (z.screen ≡ concat z.printed ++ pre)

pub record Whole (z : Terminal) : Type 0 where
  pub fresh : (t : Tid) → is_asking (z.system.point t) ≡ true → z.left t ≡ z.message t
  pub partly : (t : Tid) → is_holding (z.system.point t) ≡ true → Partly z t
  pub none : ((t : Tid) → is_holding (z.system.point t) ≡ false) → z.screen ≡ concat z.printed

-- the contention for the lock behind it
contends : {s : Sched} {z : Terminal} → Prints s z → Reach s z.system
contends starts = begins
contends (calls xs p out run) = goes (contends p) acquires (inl out) run
contends (shows c cs p at more) = contends p
contends (ends p at done run) = goes (contends p) releases at run
contends (moves a p _ _ may run) = goes (contends p) a may run

concat-snoc : (xss : List (List ℕ)) (xs : List ℕ) → concat (xss ++ (xs ∷ [])) ≡ concat xss ++ xs
concat-snoc [] xs = append-nil xs
concat-snoc (ys ∷ xss) xs =
    ap (λ zs. ys ++ zs) (concat-snoc xss xs) ∙ sym (append_assoc ys (concat xss) xs)

-- for the thread that runs, and for the others
by_runs : (r : Tid) (P : Tid → Type 0) → P r → ((t : Tid) → t ≢ r → P t) → (t : Tid) → P t
by_runs r P h k t = elim (Bool-cases (t == r)) [
  | inl e ↦ let same : t ≡ r = ground arith in subst P (sym same) h
  | inr e ↦ k t (ground arith)
]

-- A step that changes who holds and who asks in nothing but the end of asking.
quiet :
    (z : Terminal) (y' : System)
    → ((t : Tid) → is_holding (y'.point t) ≡ is_holding (z.system.point t))
    → ((t : Tid) → is_asking (y'.point t) ≡ true → is_asking (z.system.point t) ≡ true)
    → Whole z
    → Whole (record z { system = y' })
quiet z y' same less w = record {
  fresh = λ t a. w.fresh t (less t a);
  partly = λ t h. w.partly t (sym (same t) ∙ h);
  none = λ all. w.none (λ t. sym (same t) ∙ all t);
}

-- A thread asks, and does not hold the lock.
calls-Whole :
    (z : Terminal) (y' : System) (xs : List ℕ)
    → is_holding (place z.system) ≡ false
    → is_holding (y'.point (runs z)) ≡ false
    → ((t : Tid) → t ≢ runs z → y'.point t ≡ z.system.point t)
    → Whole z
    → Whole (asks xs y' z)
calls-Whole z y' xs before after same w =
    let r : Tid = runs z in
    let self : (r == r) ≡ true = ground arith in
    record {
      fresh =
          by_runs r
            (λ t. is_asking (y'.point t) ≡ true → update z.left r xs t ≡ update z.message r xs t)
            (λ a. rw self refl)
            (λ t ne a.
              let other : (r == t) ≡ false = ground arith in
              rw other (w.fresh t (ap is_asking (sym (same t ne)) ∙ a)));
      partly =
          by_runs r (λ t. is_holding (y'.point t) ≡ true → Partly (asks xs y' z) t) (λ h. cc)
            (λ t ne h.
              let other : (r == t) ≡ false = ground arith in
              let (pre, m, s) = w.partly t (ap is_holding (sym (same t ne)) ∙ h) in
              (pre, rw other m, s));
      none = λ all. w.none (
          by_runs r (λ t. is_holding (z.system.point t) ≡ false) before
            (λ t ne. ap is_holding (sym (same t ne)) ∙ all t));
    }

-- The holder puts a character on the screen.
shows-Whole :
    (z : Terminal) (c : ℕ) (cs : List ℕ)
    → place z.system ≡ holding
    → z.left (runs z) ≡ c ∷ cs
    → ((t : Tid) → is_holding (z.system.point t) ≡ true → t ≡ runs z)
    → Whole z
    → Whole (puts c cs z)
shows-Whole z c cs at more alone w =
    let r : Tid = runs z in
    let self : (r == r) ≡ true = ground arith in
    let (pre, m, s) = w.partly r (rw at refl) in
    record {
      fresh =
          by_runs r (λ t. is_asking (z.system.point t) ≡ true → update z.left r cs t ≡ z.message t)
            (λ a. absurd (ground (arith, a, at)))
            (λ t ne a. let other : (r == t) ≡ false = ground arith in rw other (w.fresh t a));
      partly =
          by_runs r (λ t. is_holding (z.system.point t) ≡ true → Partly (puts c cs z) t)
            (λ h. (
              pre ++ (c ∷ []),
              rw self (m ∙ ap (λ l. pre ++ l) more ∙ sym (append_assoc pre (c ∷ []) cs)),
              ap (λ l. l ++ (c ∷ [])) s ∙ append_assoc (concat z.printed) pre (c ∷ []),
            ))
            (λ t ne h. absurd (ne (alone t h)));
      none = λ all. absurd (ground (arith, all r, at));
    }

-- The holder's message is printed whole, and the lock is given up.
ends-Whole :
    (z : Terminal) (y' : System)
    → place z.system ≡ holding
    → z.left (runs z) ≡ []
    → (y'.point (runs z) ≡ place z.system) ⊎ (y'.point (runs z) ≡ leaving)
    → ((t : Tid) → t ≢ runs z → y'.point t ≡ z.system.point t)
    → ((t : Tid) → is_holding (z.system.point t) ≡ true → t ≡ runs z)
    → Whole z
    → Whole (finishes y' z)
ends-Whole z y' at done (inl e) same alone w =
    let kept : is_holding (y'.point (runs z)) ≡ true = ap is_holding (e ∙ at) in
    let all = by_runs (runs z) (λ t. y'.point t ≡ z.system.point t) e same in
    rw kept (quiet z y' (λ t. ap is_holding (all t)) (λ t a. ap is_asking (sym (all t)) ∙ a) w)
ends-Whole z y' at done (inr e) same alone w =
    let r : Tid = runs z in
    let gone : is_holding (y'.point r) ≡ false = ap is_holding e in
    let (pre, m, s) = w.partly r (rw at refl) in
    let whole : z.message r ≡ pre = m ∙ ap (λ l. pre ++ l) done ∙ append-nil pre in
    rw gone (record {
      fresh =
          by_runs r (λ t. is_asking (y'.point t) ≡ true → z.left t ≡ z.message t)
            (λ a. absurd (ground (arith, a, e)))
            (λ t ne a. w.fresh t (ap is_asking (sym (same t ne)) ∙ a));
      partly =
          by_runs r
            (λ t.
              is_holding (y'.point t) ≡ true
              → Partly (record z { system = y'; printed = z.printed ++ (z.message r ∷ []) }) t)
            (λ h. cc) (λ t ne h. absurd (ne (alone t (ap is_holding (sym (same t ne)) ∙ h))));
      none = λ all.
          s
          ∙ ap (λ l. concat z.printed ++ l) (sym whole)
          ∙ sym (concat-snoc z.printed (z.message r));
    })

-- A thread becomes the holder.
takes-Whole :
    (z : Terminal) (y' : System)
    → place z.system ≡ entered
    → y'.point (runs z) ≡ holding
    → ((t : Tid) → t ≢ runs z → y'.point t ≡ z.system.point t)
    → ((t : Tid) → is_holding (z.system.point t) ≡ true → t ≡ runs z)
    → Whole z
    → Whole (record z { system = y' })
takes-Whole z y' at to same alone w =
    let r : Tid = runs z in
    let nobody =
      by_runs r (λ t. is_holding (z.system.point t) ≡ false) (ap is_holding at)
        (λ t ne. elim (Bool-cases (is_holding (z.system.point t))) [
          | inl h ↦ absurd (ne (alone t h))
          | inr h ↦ h
        ]) in
    record {
      fresh =
          by_runs r (λ t. is_asking (y'.point t) ≡ true → z.left t ≡ z.message t)
            (λ a. absurd (ground (arith, a, to)))
            (λ t ne a. w.fresh t (ap is_asking (sym (same t ne)) ∙ a));
      partly =
          by_runs r (λ t. is_holding (y'.point t) ≡ true → Partly (record z { system = y' }) t)
            (λ h. (
              [],
              sym (w.fresh r (ap is_asking at)),
              w.none nobody ∙ sym (append-nil (concat z.printed)),
            ))
            (λ t ne h. absurd (ne (alone t (ap is_holding (sym (same t ne)) ∙ h))));
      none = λ all. absurd (ground (arith, all r, to));
    }

module _ (s : Sched) (v : IsValid s) (on : s.intr ≡ intr_on)
    (marked : (t : Tid) → (s.tasks t).stack_magic ≡ stack_magic_value) where
  -- Who holds the lock while the running thread is inside is that thread.
  alone :
      {z : Terminal}
      → Prints s z
      → is_inner (place z.system) ≡ true
      → (t : Tid) → is_holding (z.system.point t) ≡ true
      → t ≡ runs z
  alone {z} p inner t h =
      (Reach-Inv s v on marked (contends p)).unique t (runs z) (holds_inner (z.system.point t) h)
        inner
    where
      holds_inner : (q : Point) → is_holding q ≡ true → is_inner q ≡ true
      holds_inner holding h = refl
      holds_inner outside h = cc
      holds_inner waiting h = cc
      holds_inner entered h = cc
      holds_inner leaving h = cc

  moves-Whole :
      (a : Action) {z : Terminal} {y' : System}
      → Prints s z
      → a ≢ acquires
      → a ≢ releases
      → May a z.system
      → Moves a z.system y'
      → Whole z
      → Whole (record z { system = y' })
  moves-Whole acquires p ne ne' may mv w = absurd (ne refl)
  moves-Whole releases p ne ne' may mv w = absurd (ne' refl)
  moves-Whole takes {z} {y'} p ne ne' may mv w =
      takes-Whole z y' may mv.lands mv.others (alone p (ap is_inner may)) w
  moves-Whole resumes {z} {y'} p ne ne' may mv w =
      quiet z y'
        (by_runs (runs z) (λ t. is_holding (y'.point t) ≡ is_holding (z.system.point t))
          (mv.lands ∙ sym (ap is_holding may)) (λ t d. ap is_holding (mv.others t d)))
        (by_runs (runs z) (λ t. is_asking (y'.point t) ≡ true → is_asking (z.system.point t) ≡ true)
          (λ a. ap is_asking may) (λ t d a. ap is_asking (sym (mv.others t d)) ∙ a))
        w
  moves-Whole signals {z} {y'} p ne ne' may mv w =
      quiet z y'
        (by_runs (runs z) (λ t. is_holding (y'.point t) ≡ is_holding (z.system.point t))
          (ap is_holding mv.lands ∙ sym (ap is_holding may)) (λ t d. ap is_holding (mv.others t d)))
        (by_runs (runs z) (λ t. is_asking (y'.point t) ≡ true → is_asking (z.system.point t) ≡ true)
          (λ a. absurd (ground (arith, a, mv.lands)))
          (λ t d a. ap is_asking (sym (mv.others t d)) ∙ a))
        w
  moves-Whole interrupted {z} {y'} p ne ne' may mv w =
      let all = by_runs (runs z) (λ t. y'.point t ≡ z.system.point t) mv.lands mv.others in
      quiet z y' (λ t. ap is_holding (all t)) (λ t a. ap is_asking (sym (all t)) ∙ a) w

  Prints-Whole : {z : Terminal} → Prints s z → Whole z
  unfolding start
  Prints-Whole starts = record { fresh = λ t a. refl; partly = λ t h. cc; none = λ all. refl }
  Prints-Whole (calls {z} {y'} xs p out run) =
      let mv = execute-Moves acquires z.system y' run in
      calls-Whole z y' xs (ap is_holding out) (lands y' mv.lands) mv.others (Prints-Whole p)
    where
      lands :
          (y' : System)
          → Lands acquires (place z.system) (y'.point (runs z))
          → is_holding (y'.point (runs z)) ≡ false
      lands y' (inl e) = ap is_holding (e ∙ out)
      lands y' (inr e) = e
  Prints-Whole (shows {z} c cs p at more) =
      shows-Whole z c cs at more (alone p (ap is_inner at)) (Prints-Whole p)
  Prints-Whole (ends {z} {y'} p at done run) =
      let mv = execute-Moves releases z.system y' run in
      ends-Whole z y' at done mv.lands mv.others (alone p (ap is_inner at)) (Prints-Whole p)
  Prints-Whole (moves {z} {y'} a p ne ne' may run) =
      moves-Whole a p ne ne' may (execute-Moves a z.system y' run) (Prints-Whole p)

  -- From a valid scheduler with interrupts on, every stack with its mark, threads print messages by
  -- calls of the console, interrupted by the timer at any character. In every state that they
  -- reach: while a thread holds the lock, the screen has the messages whose calls have given the
  -- lock up, each whole and in their order, and then the holder's up to what it has still to print;
  -- while none does, it has those messages and nothing else.
  pub messages_whole :
      (z : Terminal)
      → Prints s z
      → ((t : Tid) → z.system.point t ≡ holding → Partly z t)
        × (((t : Tid) → z.system.point t ≢ holding) → z.screen ≡ concat z.printed)
  messages_whole z p =
      let w = Prints-Whole p in
      (
        λ t h. w.partly t (ap is_holding h),
        λ all. w.none (λ t. not_held (z.system.point t) (all t)),
      )
    where
      not_held : (q : Point) → q ≢ holding → is_holding q ≡ false
      not_held holding ne = absurd (ne refl)
      not_held outside ne = refl
      not_held waiting ne = refl
      not_held entered ne = refl
      not_held leaving ne = refl
