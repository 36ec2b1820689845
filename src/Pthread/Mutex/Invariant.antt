-- ===== src/Pthread/Mutex/Invariant.antt =====
-- What every step of the lock of libc/src/pthread/mutex.c keeps.
use tiny_libc.Prelude.{
  ℕ, Bool-cases, ◌↔◌, ◌≤◌, ◌≡◌, ◌≢◌, ◌⊎◌, inl, inr, refl, arith, Bool, true, false, ◌==◌,
  if◌then◌else◌,
}
use tiny_libc.Pthread.Mutex.{
  Pc, idle, contended, sleeping, retry, holding, storing, waking, locked_wait, Move, acquire,
  waiters_known, announce, announced, freed, sleep, take_over, try_lock, unlock, unlock_waiters,
  release, System, update, is_sleeping, Step, move, wake_one, wake_none, Reach, start, later,
}

-- From a call that returned 0 up to the store of UNLOCKED.
abbrev pub owns : Pc → Bool
owns holding = true
owns storing = true
owns _ = false

-- A thread that will wake a sleeper, or will see that the word is LOCKED_WAIT before it sleeps itself.
abbrev pub is_alert : Pc → Bool
is_alert (contended _ c) = if c == locked_wait then false else true
is_alert (retry _) = true
is_alert storing = true
is_alert waking = true
is_alert _ = false

abbrev pub Heard : ℕ → (ℕ → Pc) → Type 0
Heard w pc = (w ≡ locked_wait) ⊎ ((j : ℕ) × (is_alert (pc j) ≡ true))

pub record Inv (w : ℕ) (pc : ℕ → Pc) : Type 0 where
  pub small : w ≤ 2
  pub unique : (i j : ℕ) → owns (pc i) ≡ true → owns (pc j) ≡ true → i ≡ j
  pub free : w ≡ 0 → (i : ℕ) → owns (pc i) ≡ false
  pub owned : w ≢ 0 → (i : ℕ) × (owns (pc i) ≡ true)
  pub heard : (i : ℕ) → is_sleeping (pc i) ≡ true → Heard w pc

-- How a step changes the ownership: not at all, or the thread gains it, or it gives it up.
data Change (w w' : ℕ) (p p' : Pc) : Type 0 where
  kept : owns p' ≡ owns p → ((w ≡ 0) ↔ (w' ≡ 0)) → Change w w' p p'
  gained : owns p ≡ false → owns p' ≡ true → w ≡ 0 → w' ≢ 0 → Change w w' p p'
  given_up : owns p ≡ true → owns p' ≡ false → w' ≡ 0 → Change w w' p p'

same_word : {w : ℕ} {p p' : Pc} → owns p' ≡ owns p → Change w w p p'
same_word e = kept e (λ z. z, λ z. z)

Move-Change :
    {w w' : ℕ} {p p' : Pc} → Move w p w' p' → w ≤ 2 → (owns p ≡ true → w ≢ 0) → Change w w' p p'
Move-Change (acquire e) small own = gained refl refl e (ground arith)
Move-Change (announce ne e) small own = kept refl (ground arith, ground arith)
Move-Change (take_over e) small own = gained refl refl e (ground arith)
Move-Change (try_lock e) small own = gained refl refl e (ground arith)
Move-Change (unlock e) small own = given_up refl refl (ground arith)
Move-Change (unlock_waiters ne) small own =
    kept refl (ground (arith, own refl), ground (arith, own refl))
Move-Change release small own = given_up refl refl refl
Move-Change _ small own = same_word refl

-- A thread goes to sleep only on LOCKED_WAIT.
sleeps-locked_wait :
    {w w' : ℕ} {p p' : Pc} → Move w p w' p' → is_sleeping p' ≡ true → w' ≡ locked_wait
sleeps-locked_wait (sleep e) h = e
sleeps-locked_wait _ h = cc

Move-le : {w w' : ℕ} {p p' : Pc} → Move w p w' p' → w ≤ 2 → (owns p ≡ true → w ≢ 0) → w' ≤ 2
Move-le (unlock e) small own = ground (arith, own refl)
Move-le (unlock_waiters e) small own = ground (arith, own refl)
Move-le _ small own = ground arith

-- No step ends both: the word that is LOCKED_WAIT, and the thread that is alert.
stays_heard :
    {w w' : ℕ} {p p' : Pc}
    → Move w p w' p'
    → w ≤ 2
    → (owns p ≡ true → w ≢ 0)
    → (w ≡ locked_wait) ⊎ (is_alert p ≡ true)
    → (w' ≡ locked_wait) ⊎ (is_alert p' ≡ true)
stays_heard (announce ne e) small own h = inl refl
stays_heard (take_over e) small own h = inl refl
stays_heard (unlock_waiters ne) small own h = inr refl
stays_heard release small own h = inr refl
stays_heard (waiters_known e) small own h = ground arith
stays_heard (announced ne ne' ne'') small own h = inl (omega arith)
stays_heard (freed ne e) small own h = inr refl
stays_heard (acquire e) small own h = ground arith
stays_heard (try_lock e) small own h = ground arith
stays_heard (unlock e) small own h = ground arith
stays_heard _ small own h = ground arith

module _ {w w' : ℕ} {pc : ℕ → Pc} {p' : Pc} (inv : Inv w pc) (i : ℕ)
    (mv : Move w (pc i) w' p') where
  open inv use {small, unique, free, owned, heard}

  holder_locks : owns (pc i) ≡ true → w ≢ 0
  holder_locks o e = cc (free e i)

  change : Change w w' (pc i) p'
  change = Move-Change mv small holder_locks

  unique_after :
      Change w w' (pc i) p'
      → (a b : ℕ) → owns (update pc i p' a) ≡ true
      → owns (update pc i p' b) ≡ true
      → a ≡ b
  unique_after (kept e z) a b qa qb = ground (arith, unique a b, unique i b, unique a i)
  unique_after (gained o o' z n) a b qa qb = ground (arith, free z a, free z b)
  unique_after (given_up o o' z) a b qa qb = ground (arith, unique a b)

  free_after : Change w w' (pc i) p' → w' ≡ 0 → (a : ℕ) → owns (update pc i p' a) ≡ false
  free_after (kept e z) h a = ground (arith, free (z.1 h) a, free (z.1 h) i)
  free_after (gained o o' z n) h a = absurd (n h)
  free_after (given_up o o' z) h a = ground (arith, unique i a)

  owned_after : Change w w' (pc i) p' → w' ≢ 0 → (a : ℕ) × (owns (update pc i p' a) ≡ true)
  owned_after (kept e z) h = let (a, o) = owned (λ q. h (z.0 q)) in (a, ground arith)
  owned_after (gained o o' z n) h = (i, ground arith)
  owned_after (given_up o o' z) h = absurd (h z)

  -- The step of `i` hands on what a sleeper relies on.
  hand_on : Heard w pc → Heard w' (update pc i p')
  hand_on (inl e) = elim (stays_heard mv small holder_locks (inl e)) [
    | inl e' ↦ inl e'
    | inr alert ↦ inr (i, ground arith)
  ]
  hand_on (inr (j, alert)) = elim (Bool-cases (j == i)) [
    | inl self ↦ elim (stays_heard mv small holder_locks (inr (ground arith))) [
      | inl e' ↦ inl e'
      | inr alert' ↦ inr (i, ground arith)
    ]
    | inr other ↦ inr (j, ground arith)
  ]

  Heard-after : (a : ℕ) → is_sleeping (update pc i p' a) ≡ true → Heard w' (update pc i p')
  Heard-after a h = elim (Bool-cases (a == i)) [
    | inl self ↦ inl (sleeps-locked_wait mv (ground arith))
    | inr other ↦ hand_on (heard a (ground arith))
  ]

  small_after : w' ≤ 2
  small_after = Move-le mv small holder_locks

  pub Move-Inv : Inv w' (update pc i p')
  Move-Inv = record {
    small = small_after;
    unique = unique_after change;
    free = free_after change;
    owned = owned_after change;
    heard = Heard-after;
  }

module _ {w : ℕ} {pc : ℕ → Pc} (inv : Inv w pc) where
  open inv use {small, unique, free, owned, heard}

  -- A wake-up of `j` by `i`.
  wake_one-Inv :
      (i j : ℕ) {timed : Bool}
      → pc i ≡ waking
      → pc j ≡ sleeping timed
      → Inv w (update (update pc i idle) j (retry timed))
  wake_one-Inv i j {timed} ei ej = record {
    small = small;
    unique = λ a b qa qb. ground (arith, unique a b);
    free = λ e a. ground (arith, free e a);
    owned = λ ne. let (a, o) = owned ne in (a, ground arith);
    heard = λ a h. inr (j, ground arith);
  }

  -- With no sleeper there is nobody to hear.
  wake_none-Inv :
      (i : ℕ) → pc i ≡ waking → ((j : ℕ) → is_sleeping (pc j) ≡ false) → Inv w (update pc i idle)
  wake_none-Inv i ei none_sleeps = record {
    small = small;
    unique = λ a b qa qb. ground (arith, unique a b);
    free = λ e a. ground (arith, free e a);
    owned = λ ne. let (a, o) = owned ne in (a, ground arith);
    heard = λ a h. absurd (ground (arith, none_sleeps a));
  }

pub Step-Inv : {s t : System} → Step s t → Inv s.word s.pc → Inv t.word t.pc
Step-Inv (move i mv) inv = Move-Inv inv i mv
Step-Inv (wake_one i j ei ej) inv = wake_one-Inv inv i j ei ej
Step-Inv (wake_none i ei none_sleeps) inv = wake_none-Inv inv i ei none_sleeps

pub Reach-Inv : {s : System} → Reach s → Inv s.word s.pc
Reach-Inv start = record {
  small = omega arith;
  unique = λ i j p q. cc;
  free = λ e i. refl;
  owned = λ ne. absurd (ne refl);
  heard = λ i h. cc;
}
Reach-Inv (later r st) = Step-Inv st (Reach-Inv r)
