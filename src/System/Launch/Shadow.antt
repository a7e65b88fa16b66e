-- ===== src/System/Launch/Shadow.antt =====
-- A launch as a run of `System` that goes on for ever: a thread that has its answer, and every thread
-- in period `end`, stays as it is and sends nothing from there on.
use dps_pos.Base.{
  ℕ, ◌+◌, ◌≡◌, ◌≢◌, refl, subst, [], Option, none, some, Bool, true, false, ◌||◌, ◌==◌,
  if◌then◌else◌, arith, Bool-cases, inl, inr,
}
use mathlib.Core.Path.{fun_ext}
use dps_pos.Parallel.Sharer.{SatResult}
use dps_pos.Solver.Import.Window.{Parcel}
use dps_pos.System.{Setup, System, Thread, Phase, working, importing, update}
use dps_pos.System.Launch.{
  Program, Stage, searching, taking, checking, told, reported, stopped, Worker, State,
}

abbrev pub is_some {ℓ} : {A : Type ℓ} → Option A → Bool
is_some none = false
is_some (some _) = true

module _ {L : Type 0} (c : Program L) (end : ℕ) where
  open c use {setup, answer, last_len}
  open setup use {num_threads, margin, first, work, held, absorb}

  stays : ℕ → L → Bool
  stays r l = is_some (answer l) || (r == end)

  pub shadow_work : ℕ × L → (ℕ × L) × Parcel
  unfolding stays
  shadow_work (r, l) =
      if stays r l
      then ((r, l), record { clauses = []; prd_len = last_len l })
      else ((r, (work l).0), (work l).1)

  abbrev pub shadow : Setup (ℕ × L)
  shadow = record {
    num_threads = num_threads;
    margin = margin;
    first = λ t. (0, first t);
    work = shadow_work;
    held = λ x. held x.1;
    absorb = λ x m. (x.0 + 1, absorb x.1 m);
  }

  pub work-searching :
      (r : ℕ) (l : L)
      → answer l ≡ none
      → r ≢ end
      → shadow_work (r, l) ≡ ((r, (work l).0), (work l).1)
  unfolding shadow_work stays
  work-searching r l a d = let e : (r == end) ≡ false = ground arith in rw (a, e) refl

  pub work-answer :
      (r : ℕ) (l : L) (status : SatResult)
      → answer l ≡ some status
      → shadow_work (r, l) ≡ ((r, l), record { clauses = []; prd_len = last_len l })
  unfolding shadow_work stays
  work-answer r l status a = rw a refl

  pub work-end :
      (l : L) → shadow_work (end, l) ≡ ((end, l), record { clauses = []; prd_len = last_len l })
  unfolding shadow_work stays
  work-end l = elim (Bool-cases (is_some (answer l))) [
    | inl has ↦ rw has refl
    | inr has ↦ let e : (end == end) ≡ true = ground arith in rw (has, e) refl
  ]

  abbrev pub phase_of : L → Stage → Phase
  phase_of l searching = working
  phase_of l (taking i m) = importing i m
  phase_of l checking = working
  phase_of l told = working
  phase_of l reported = working
  phase_of l stopped = importing 1 (held l)

  abbrev pub thread_of : Worker L → Thread (ℕ × L)
  thread_of x = record {
    local = (x.period, x.local);
    period = x.period;
    phase = phase_of x.local x.stage;
  }

  abbrev pub threads_of : (ℕ → Worker L) → ℕ → Thread (ℕ × L)
  threads_of f t = thread_of (f t)

  abbrev pub system_of : State L → System (ℕ × L)
  system_of s = record { queues = s.sharer.pcqm; threads = threads_of s.workers }

  pub threads_of-update :
      (f : ℕ → Worker L) (t : ℕ) (x : Worker L)
      → update (threads_of f) t (thread_of x) ≡ threads_of (update f t x)
  threads_of-update f t x =
      fun_ext (λ u. elim (Bool-cases (t == u)) [ inl e ↦ rw e refl | inr e ↦ rw e refl ])

  -- A step that the shadow does not see.
  pub threads_of_same :
      (f : ℕ → Worker L) (t : ℕ) (x : Worker L)
      → thread_of (f t) ≡ thread_of x
      → threads_of f ≡ threads_of (update f t x)
  threads_of_same f t x h = fun_ext (λ u. elim (Bool-cases (t == u)) [
    | inl e ↦ let k : t ≡ u = ground arith in rw e (subst (λ i. thread_of (f i) ≡ thread_of x) k h)
    | inr e ↦ rw e refl
  ])
