-- ===== src/System/Launch/Alone.antt =====
-- The steps of one thread, seen from its own state.
use dps_pos.Base.{
  ℕ, suc, ◌+◌, ◌-◌, ◌%◌, ◌<◌, ◌≤◌, ◌≡◌, ◌⊎◌, refl, sym, ap, subst, ◌∙◌, true, false, none, some,
  Bool, set, length, ◌==◌, if◌then◌else◌, arith, Bool-cases, inl, inr,
}
use mathlib.Core.Path.{fun_ext}
use dps_pos.Base.Result.{ok}
use dps_pos.Period.Queue.{PrdClausesQueue}
use dps_pos.Period.Manager
use dps_pos.Parallel.Sharer.{Sharer, SatResult, unknown, i_finished, should_be_terminated}
use dps_pos.Parallel.Sharer
use dps_pos.Base.Int.{pos}
use dps_pos.Solver.Import.{done, Imports, import_queue}
use dps_pos.System.{update, publish}
use dps_pos.System.Launch.{
  Program, State, Stage, searching, taking, checking, told, Worker, Step, finish, take, move, check,
  solve, give_up, close, reported, stopped,
}

-- The workers are `f`, but thread `t` is in state `v` at stage `g` of its period `r`.
abbrev pub with_worker : {L : Type 0} → Sharer → (ℕ → Worker L) → ℕ → L → ℕ → Stage → State L
with_worker x f t v r g = record {
  sharer = x;
  workers = update f t (record { local = v; period = r; stage = g });
}

module _ {L : Type 0} (c : Program L) where
  open c use {setup, answer, last_len}
  open setup use {num_threads, margin, work, held, absorb}

  pub update_twice :
      (f : ℕ → Worker L) (t : ℕ) (a b : Worker L) → update (update f t a) t b ≡ update f t b
  update_twice f t a b =
      fun_ext (λ u. elim (Bool-cases (t == u)) [ inl e ↦ rw e refl | inr e ↦ rw e refl ])

  pub update_here : (f : ℕ → Worker L) (t : ℕ) (a : Worker L) → update f t a t ≡ a
  update_here f t a = let e : (t == t) ≡ true = ground arith in rw e refl

  -- A step that thread `t` takes from its own state.
  from_own :
      (f : ℕ → Worker L) (x y : Sharer) (t : ℕ) (th : Worker L) (g : Worker L → Worker L)
      → Step c
          (record { sharer = x; workers = update f t th })
          (record { sharer = y; workers = update (update f t th) t (g (update f t th t)) })
      → Step c
          (record { sharer = x; workers = update f t th })
          (record { sharer = y; workers = update f t (g th) })
  from_own f x y t th g =
      subst
        (λ h.
          Step c (record { sharer = x; workers = update f t th })
            (record { sharer = y; workers = h }))
        (ap (λ z. update (update f t th) t (g z)) (update_here f t th) ∙ update_twice f t th (g th))

  pub take-at :
      (f : ℕ → Worker L) (x : Sharer) (t i r : ℕ) (v : L) (m m' : Imports) (q q' : PrdClausesQueue)
      → t < num_threads
      → i < num_threads
      → margin ≤ r
      → Manager.get x.pcqm ((t + i) % num_threads) ≡ ok q
      → import_queue (suc (length q.queue)) false t (r - margin) q m ≡ done (q', m')
      → Step c (with_worker x f t v r (taking i m)) (
          with_worker
            (record x { pcqm = set x.pcqm ((t + i) % num_threads) q' })
            f
            t
            v
            r
            (taking (suc i) m'))
  take-at f x t i r v m m' q q' l li lm at run =
      let th : Worker L = record { local = v; period = r; stage = taking i m } in
      let e : th ≡ update f t th t = sym (update_here f t th) in
      from_own f x (record x { pcqm = set x.pcqm ((t + i) % num_threads) q' }) t th
        (λ y. record { local = y.local; period = y.period; stage = taking (suc i) m' })
        (take t i l (ap (λ y. y.stage) (sym e)) li (subst (λ y. margin ≤ y.period) e lm) at (
          subst
            (λ y.
              import_queue (suc (length q.queue)) false t (y.period - margin) q m ≡ done (q', m'))
            e run))

  pub finish-at :
      (f : ℕ → Worker L) (x : Sharer) (t r : ℕ) (v : L) (q q' : PrdClausesQueue)
      → t < num_threads
      → answer v ≡ none
      → Manager.get x.pcqm t ≡ ok q
      → publish q (work v).1 ≡ ok q'
      → Step c (with_worker x f t v r searching) (
          with_worker
            (record x { pcqm = set x.pcqm t q' })
            f
            t
            ((work v).0)
            r
            (taking 1 (held (work v).0)))
  finish-at f x t r v q q' l a at run =
      let th : Worker L = record { local = v; period = r; stage = searching } in
      let e : th ≡ update f t th t = sym (update_here f t th) in
      from_own f x (record x { pcqm = set x.pcqm t q' }) t th
        (λ y. record {
          local = (work y.local).0;
          period = y.period;
          stage = taking 1 (held (work y.local).0);
        })
        (finish t l (ap (λ y. y.stage) (sym e)) (ap (λ y. answer y.local) (sym e) ∙ a) at
          (ap (λ y. publish q (work y.local).1) (sym e) ∙ run))

  pub move-at :
      (f : ℕ → Worker L) (x : Sharer) (t i r : ℕ) (v : L) (m : Imports)
      → t < num_threads
      → (num_threads ≤ i) ⊎ (r < margin)
      → Step c
          (with_worker x f t v r (taking i m))
          (with_worker x f t (absorb v m) (r + 1) checking)
  move-at f x t i r v m l d =
      let th : Worker L = record { local = v; period = r; stage = taking i m } in
      let e : th ≡ update f t th t = sym (update_here f t th) in
      from_own f x x t th
        (λ y. record { local = absorb y.local m; period = y.period + 1; stage = checking })
        (move t i l (ap (λ y. y.stage) (sym e))
          (subst (λ y. (num_threads ≤ i) ⊎ (y.period < margin)) e d))

  pub check-at :
      (f : ℕ → Worker L) (x : Sharer) (t r : ℕ) (v : L)
      → t < num_threads
      → Step c
          (with_worker x f t v r checking)
          (with_worker x f t v r (if should_be_terminated x r then told else searching))
  check-at f x t r v l =
      let th : Worker L = record { local = v; period = r; stage = checking } in
      let e : th ≡ update f t th t = sym (update_here f t th) in
      from_own f x x t th
        (λ y. record {
          local = y.local;
          period = y.period;
          stage = if should_be_terminated x y.period then told else searching;
        })
        (check t l (ap (λ y. y.stage) (sym e)))

  pub solve-at :
      (f : ℕ → Worker L) (x : Sharer) (t r : ℕ) (v : L) (status : SatResult) (y : Sharer × Bool)
      → t < num_threads
      → answer v ≡ some status
      → i_finished x status r (pos t) ≡ ok y
      → Step c (with_worker x f t v r searching) (with_worker y.0 f t v r reported)
  solve-at f x t r v status y l a run =
      let th : Worker L = record { local = v; period = r; stage = searching } in
      let e : th ≡ update f t th t = sym (update_here f t th) in
      from_own f x y.0 t th (λ y. record { local = y.local; period = y.period; stage = reported })
        (solve t l (ap (λ y. y.stage) (sym e)) (ap (λ y. answer y.local) (sym e) ∙ a)
          (ap (λ z. i_finished x status z.period (pos t)) (sym e) ∙ run))

  pub give_up-at :
      (f : ℕ → Worker L) (x : Sharer) (t r : ℕ) (v : L) (y : Sharer × Bool)
      → t < num_threads
      → i_finished x unknown r (pos t) ≡ ok y
      → Step c (with_worker x f t v r told) (with_worker y.0 f t v r reported)
  give_up-at f x t r v y l run =
      let th : Worker L = record { local = v; period = r; stage = told } in
      let e : th ≡ update f t th t = sym (update_here f t th) in
      from_own f x y.0 t th (λ y. record { local = y.local; period = y.period; stage = reported })
        (give_up t l (ap (λ y. y.stage) (sym e))
          (ap (λ z. i_finished x unknown z.period (pos t)) (sym e) ∙ run))

  pub close-at :
      (f : ℕ → Worker L) (x : Sharer) (t r : ℕ) (v : L) (y : Sharer)
      → t < num_threads
      → Sharer.complete_curr_period x t (last_len v) ≡ ok y
      → Step c (with_worker x f t v r reported) (with_worker y f t v r stopped)
  close-at f x t r v y l run =
      let th : Worker L = record { local = v; period = r; stage = reported } in
      let e : th ≡ update f t th t = sym (update_here f t th) in
      from_own f x y t th (λ y. record { local = y.local; period = y.period; stage = stopped })
        (close t l (ap (λ y. y.stage) (sym e))
          (ap (λ z. Sharer.complete_curr_period x t (last_len z.local)) (sym e) ∙ run))
