-- ===== src/Retry/Drained.antt =====
-- src/XrdClPelican/RetryThread.cc: what becomes of the operations over the life of the thread.
use xrdcl_pelican.Prelude.{
  ℕ, ◌+◌, ◌≤◌, ◌&&◌, Bool, true, false, Option, none, some, List, [], ◌∷◌, ◌≡◌, refl, ap, sym, ◌∙◌,
  arith, inl, inr,
}
use mathlib.Core.Path.{subst}
use xrdcl_pelican.Prelude.Tests.{◌==◌, ltb, if◌then◌else◌, Bool-cases, leb→le, if_all, if_cases}
use xrdcl_pelican.Prelude.Lists.{All, All-map}
use xrdcl_pelican.Retry.{
  Entry, RetryState, new_state, start, shut_down, asked, state, push, submit, set_base_delay,
  take_due, popped, is_due, is_drained, returns,
}

-- The entry calls operation `n`.
abbrev pub calls : ℕ → Option ℕ → ℕ
calls n none = 0
calls n (some m) = if m == n then 1 else 0

-- How often the entries call operation `n`.
abbrev pub times : ℕ → List Entry → ℕ
times n [] = 0
times n (e ∷ es) = calls n e.operation + times n es

-- An entry that the thread took, at its time.
pub record Firing : Type 0 where
  pub time : ℕ
  pub entry : Entry

abbrev pub fired : ℕ → List Firing → ℕ
fired n [] = 0
fired n (f ∷ fs) = calls n f.entry.operation + fired n fs

abbrev pub IsInTime : Firing → Type 0
IsInTime f = f.entry.deadline ≤ f.time

-- The life of the thread: what was submitted, and what it took, the latest first.
pub data Runs : RetryState → List Entry → List Firing → Type 0 where
  begins : Runs new_state [] []
  starts :
      (s : RetryState) (sub : List Entry) (fs : List Firing)
      → Runs s sub fs
      → Runs (start (some s)) sub fs
  configures :
      (s : RetryState) (sub : List Entry) (fs : List Firing) (base : ℕ)
      → Runs s sub fs
      → Runs (set_base_delay (some s) base) sub fs
  submits :
      (s : RetryState) (sub : List Entry) (fs : List Firing) (now delay : ℕ) (operation : Option ℕ)
      → Runs s sub fs
      → Runs
          (submit (some s) now delay operation)
          (record { deadline = now + delay; operation = operation } ∷ sub)
          fs
  stops :
      (s s' : RetryState) (sub : List Entry) (fs : List Firing)
      → Runs s sub fs
      → shut_down (some s) ≡ some s'
      → Runs s' sub fs
  fires :
      (s s' : RetryState) (e : Entry) (sub : List Entry) (fs : List Firing) (now : ℕ)
      → Runs s sub fs
      → take_due s now ≡ (s', some e)
      → Runs s' sub (record { time = now; entry = e } ∷ fs)

times-push :
    (n : ℕ) (e : Entry) (q : List Entry) → times n (push e q) ≡ calls n e.operation + times n q
unfolding push
times-push n e [] = refl
times-push n e (x ∷ q) = elim (Bool-cases (ltb e.deadline x.deadline)) [
  | inl h ↦ rw h refl
  | inr h ↦ let ih = times-push n e q in rw (h, ih) (omega arith)
]

abbrev IsSorted : List Entry → Type 0
IsSorted [] = Unit
IsSorted (e ∷ es) = All (λ x. e.deadline ≤ x.deadline) es × IsSorted es

push-All : (P : Entry → Type 0) (e : Entry) (q : List Entry) → P e → All P q → All P (push e q)
unfolding push
push-All P e [] p a = (p, tt)
push-All P e (x ∷ q) p a =
    if_all (All P) (ltb e.deadline x.deadline) (p, a) (a.0, push-All P e q p a.1)

push-IsSorted : (e : Entry) (q : List Entry) → IsSorted q → IsSorted (push e q)
unfolding push
push-IsSorted e [] s = (tt, tt)
push-IsSorted e (x ∷ q) s =
    if_cases IsSorted (ltb e.deadline x.deadline)
      (λ t.
        let l : e.deadline ≤ x.deadline = ground arith in
        ((l, All-map _ _ q (λ y m. omega (arith, l, m)) s.0), s))
      (λ t.
        let l : x.deadline ≤ e.deadline = ground arith in
        (push-All (λ y. x.deadline ≤ y.deadline) e q l s.0, push-IsSorted e q s.1))

-- What a pass makes of the queue.
abbrev Taken : RetryState → ℕ → RetryState × Option Entry → Type 0
Taken s now (s', none) = s'.queue ≡ s.queue
Taken s now (s', some e) = (s.queue ≡ e ∷ s'.queue) × (e.deadline ≤ now)

popped-Taken :
    (s : RetryState) (now : ℕ) (q : List Entry)
    → s.queue ≡ q
    → is_due q now ≡ true
    → Taken s now (popped s q)
popped-Taken s now [] e h = refl
popped-Taken s now (x ∷ q) e h = (e, leb→le x.deadline now h)

pub take_due-Taken : (s : RetryState) (now : ℕ) → Taken s now (take_due s now)
unfolding take_due
take_due-Taken s now =
    if_cases (Taken s now) (is_due s.queue now) (λ h. popped-Taken s now s.queue refl h) (λ h. refl)

asked-queue : (s s' : RetryState) → asked s ≡ some s' → s'.queue ≡ s.queue
asked-queue s s' h = elim (Bool-cases s.started) [
  | inl e ↦
      ap (λ o. (state o).queue) (sym h)
      ∙ ap (λ b. (state (if b then some (record s { shutdown = true }) else none)).queue) e
  | inr e ↦ let bad : ⊥ = ground (arith, h, e) in elim bad [ ]
]

-- The ledger of the thread.
abbrev Ledger : RetryState → List Entry → List Firing → Type 0
Ledger s sub fs =
    ((n : ℕ) → times n sub ≡ times n s.queue + fired n fs) × IsSorted s.queue × All IsInTime fs

moved-Ledger :
    (s s' : RetryState) (sub : List Entry) (fs : List Firing)
    → s'.queue ≡ s.queue
    → Ledger s sub fs
    → Ledger s' sub fs
moved-Ledger s s' sub fs e l = rw e l

Runs-Ledger :
    (s : RetryState) (sub : List Entry) (fs : List Firing) → Runs s sub fs → Ledger s sub fs
unfolding start set_base_delay submit shut_down
Runs-Ledger _ _ _ begins = (λ n. refl, tt, tt)
Runs-Ledger _ _ _ (starts s sub fs r) = Runs-Ledger s sub fs r
Runs-Ledger _ _ _ (configures s sub fs base r) = Runs-Ledger s sub fs r
Runs-Ledger _ _ _ (submits s sub fs now delay operation r) =
    let e : Entry = record { deadline = now + delay; operation = operation } in
    let l = Runs-Ledger s sub fs r in
    (
      λ n. let t = times-push n e s.queue in let i = l.0 n in omega (arith, t, i),
      push-IsSorted e s.queue l.1,
      l.2,
    )
Runs-Ledger _ _ _ (stops s s' sub fs r h) =
    moved-Ledger s s' sub fs (asked-queue s s' h) (Runs-Ledger s sub fs r)
Runs-Ledger _ _ _ (fires s s' e sub fs now r h) =
    let t : Taken s now (s', some e) = subst (Taken s now) h (take_due-Taken s now) in
    let l = Runs-Ledger s sub fs r in
    (
      λ n. let i = l.0 n in let q = ap (times n) t.0 in omega (arith, i, q),
      (subst IsSorted t.0 l.1).1,
      (t.1, l.2),
    )

drained : (q : List Entry) → is_drained q ≡ true → q ≡ []
drained [] h = refl
drained (e ∷ q) h = let bad : ⊥ = ground (arith, h) in elim bad [ ]

and_right : (a b : Bool) → (a && b) ≡ true → b ≡ true
and_right true b h = h
and_right false b h = let bad : ⊥ = ground (arith, h) in elim bad [ ]

returns-queue : (s : RetryState) → returns s ≡ true → s.queue ≡ []
unfolding returns
returns-queue s h = drained s.queue (and_right s.shutdown (is_drained s.queue) h)

-- In each run of the thread, an entry that a pass takes has reached its deadline, and no entry that
-- still waits has an earlier one.
pub Runs-take_due :
    (s s' : RetryState) (e : Entry) (sub : List Entry) (fs : List Firing) (now : ℕ)
    → Runs s sub fs
    → take_due s now ≡ (s', some e)
    → (e.deadline ≤ now) × All (λ x. e.deadline ≤ x.deadline) s'.queue
Runs-take_due s s' e sub fs now r h =
    let t : Taken s now (s', some e) = subst (Taken s now) h (take_due-Taken s now) in
    (t.1, (subst IsSorted t.0 (Runs-Ledger s sub fs r).1).0)

-- Where the thread returns, on a shutdown, no operation was lost and none ran twice: each was
-- called as often as it had been submitted, and never before its deadline.
pub Runs-returns :
    (s : RetryState) (sub : List Entry) (fs : List Firing) (n : ℕ)
    → Runs s sub fs
    → returns s ≡ true
    → (fired n fs ≡ times n sub) × All IsInTime fs
Runs-returns s sub fs n r h =
    let l = Runs-Ledger s sub fs r in
    let i = l.0 n in
    let q : times n s.queue ≡ 0 = ap (times n) (returns-queue s h) in (omega (arith, i, q), l.2)
