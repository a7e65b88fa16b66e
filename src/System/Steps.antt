-- ===== src/System/Steps.antt =====
-- Every step of every thread keeps the invariant.
use dps_pos.Base.{
  ℕ, suc, ◌+◌, ◌-◌, ◌%◌, ◌^◌, ◌<◌, ◌≤◌, ◌≡◌, ◌≢◌, refl, sym, ap, subst, ◌∙◌, false, length, set,
  ltb, arith, Bool-cases, inl, inr, ◌⊎◌, length-set,
}
use dps_pos.Base.Result.{ok}
use dps_pos.Period.Queue.{PrdClausesQueue}
use dps_pos.Period.Manager
use dps_pos.Solver.Import.{Imports, done, import_queue}
use dps_pos.System.{Setup, System, Thread, working, importing, update, publish}
use dps_pos.System.Ring.{dist, dist_ring, ring_ne, ring_lt, dist_inj, dist_range}
use dps_pos.System.Rounds.{
  state_at, export_at, gather, state_at-suc, work-export_at, gather_none, gather_one,
}
use dps_pos.System.Publish.{Published, publish_lem}
use dps_pos.System.Invariant.{
  closed, closed_by, next_of, OnCourse, Holds, HoldsIn, Holds-same, Holds-update, Holds-Published,
  Holds-Taken, import_one, Valid, next_update, closed_update,
}
use dps_pos.System.Update.{at_get, course_update, queue_update, update_self}

same_ok : (q r : PrdClausesQueue) → ok q ≡ ok r → q ≡ r
same_ok q r e = cc

module _ {L : Type 0} (c : Setup L) where
  open c use {num_threads, margin, first, work, held, absorb}

  pub finish-Valid :
      (s : System L) (t : ℕ) (q q' : PrdClausesQueue)
      → Valid c s
      → t < num_threads
      → (s.threads t).phase ≡ working
      → (s.threads t).period + 2 < 2 ^ 64
      → Manager.get s.queues t ≡ ok q
      → publish q (work (s.threads t).local).1 ≡ ok q'
      → Valid c (record {
        queues = set s.queues t q';
        threads = update s.threads t (record {
          local = (work (s.threads t).local).0;
          period = (s.threads t).period;
          phase = importing 1 (held (work (s.threads t).local).0);
        });
      })
  finish-Valid s t q q' v l e room at run =
      let r = (s.threads t).period in
      let th : Thread L = record {
        local = (work (s.threads t).local).0;
        period = r;
        phase = importing 1 (held (work (s.threads t).local).0);
      } in
      let begun : (s.threads t).local ≡ state_at c r t =
        subst (λ p. OnCourse c t r (s.threads t).local p) e (v.on_course t) in
      let (q0, at0, h0) = v.queue_of t l in
      let nexts : ℕ → ℕ = λ j. next_of margin (s.threads j) (dist num_threads j t) in
      let k0 : closed_by (s.threads t) ≡ r = ap (closed r) e in
      let h : Holds c t r nexts q =
        Holds-same c t (closed_by (s.threads t)) r nexts nexts q k0 (λ j a b. refl)
          (subst (HoldsIn c s.threads t) (at_get s.queues t q0 q at0 at) h0) in
      let (q2, run2, p) =
        publish_lem r t q (work (s.threads t).local).1 h.valid (sym h.size) (omega arith) h.own
          h.at_open in
      let p' : Published r q (export_at c r t) q' =
        subst (λ x. Published r q x q') (work-export_at c r t _ begun)
          (subst (Published r q _) (same_ok q2 q' (sym run2 ∙ run)) p) in
      let ht : HoldsIn c (update s.threads t th) t q' =
        Holds-same c t (suc r) (closed_by (update s.threads t th t)) nexts
          (λ j. next_of margin (update s.threads t th j) (dist num_threads j t)) q'
          (sym (ap closed_by (update_self c s.threads t th)))
          (λ j a d. next_update c s.threads t th t j (λ x. absurd (d (sym x))))
          (Holds-Published c t r nexts q q' h p') in
      let later_next : (d : ℕ) → next_of margin (s.threads t) d ≡ next_of margin th d =
        λ d. rw e refl in
      record {
        num_queues = length-set s.queues t q' ∙ v.num_queues;
        queue_of = queue_update c s t q' (update s.threads t th) v l ht (λ u x a d hx.
            Holds-update c s.threads t th u x hx (λ y. absurd (d y)) (λ y. later_next _));
        on_course =
            course_update c s t th v
              (ap (λ x. (work x).0) begun, omega arith, (λ x. refl), λ x. refl);
      }

  pub take-Valid :
      (s : System L) (t i : ℕ) (m m' : Imports) (q q' : PrdClausesQueue)
      → Valid c s
      → t < num_threads
      → (s.threads t).phase ≡ importing i m
      → i < num_threads
      → margin ≤ (s.threads t).period
      → Manager.get s.queues ((t + i) % num_threads) ≡ ok q
      → import_queue (suc (length q.queue)) false t ((s.threads t).period - margin) q m
        ≡ done (q', m')
      → Valid c (record {
        queues = set s.queues ((t + i) % num_threads) q';
        threads = update s.threads t (record {
          local = (s.threads t).local;
          period = (s.threads t).period;
          phase = importing (suc i) m';
        });
      })
  take-Valid s t i m m' q q' v l e li lm at run =
      let r = (s.threads t).period in
      let w = (t + i) % num_threads in
      let th : Thread L = record {
        local = (s.threads t).local;
        period = r;
        phase = importing (suc i) m';
      } in
      let (begun, pos, early, full) : OnCourse c t r (s.threads t).local (importing i m) =
        subst (λ p. OnCourse c t r (s.threads t).local p) e (v.on_course t) in
      let lw : w < num_threads = ring_lt num_threads t i l li in
      let away : t ≢ w = λ x. ring_ne num_threads t i l li pos (sym x) in
      let far : dist num_threads t w ≡ i = dist_ring num_threads t i l li pos in
      let (q0, at0, h0) = v.queue_of w lw in
      let nexts : ℕ → ℕ = λ j. next_of margin (s.threads j) (dist num_threads j w) in
      let nexts' : ℕ → ℕ = λ j. next_of margin (update s.threads t th j) (dist num_threads j w) in
      let h : HoldsIn c s.threads w q =
        subst (HoldsIn c s.threads w) (at_get s.queues w q0 q at0 at) h0 in
      let k = closed_by (s.threads w) in
      let due : nexts t ≡ r - margin = rw e (ground (arith, far)) in
      let (got, taken) = import_one c w k t (r - margin) nexts q q' m m' h l away due run in
      let now : nexts' t ≡ suc (r - margin) =
        ap (λ x. next_of margin x (dist num_threads t w)) (update_self c s.threads t th)
        ∙ ground (arith, far) in
      let ht : HoldsIn c (update s.threads t th) w q' =
        Holds-same c w k (closed_by (update s.threads t th w)) nexts' nexts' q'
          (closed_update c s.threads t th w (λ x. absurd (away x))) (λ j a b. refl)
          (Holds-Taken c w k t (r - margin) nexts nexts' q q' h away taken now
            (λ j d. sym (next_update c s.threads t th w j (λ x. absurd (d (sym x)))))) in
      record {
        num_queues = length-set s.queues w q' ∙ v.num_queues;
        queue_of = queue_update c s w q' (update s.threads t th) v lw ht (λ u x a d hx.
            Holds-update c s.threads t th u x hx (λ _. ap (closed r) e)
              (λ y.
                let other : dist num_threads t u ≢ i = λ z. d (
                  dist_inj num_threads t w u l lw a (λ k. away (sym k)) (λ k. y (sym k))
                    (far ∙ sym z)) in
                rw e (ground arith)));
        on_course = course_update c s t th v (
          begun,
          omega arith,
          (λ x. absurd (omega arith)),
          λ x.
              let left : num_threads - i ≡ suc (num_threads - suc i) = omega arith in
              ap (gather c (export_at c (r - margin)) t (suc i) (num_threads - suc i)) got
              ∙ sym (gather_one c (export_at c (r - margin)) t i (num_threads - suc i) m)
              ∙ sym (ap (λ j. gather c (export_at c (r - margin)) t i j m) left)
              ∙ full x,
        );
      }

  -- A period that ends takes the thread to the state of the next round.
  round_end :
      (t r i : ℕ) (l : L) (m : Imports)
      → OnCourse c t r l (importing i m)
      → (num_threads ≤ i) ⊎ (r < margin)
      → absorb l m ≡ state_at c (r + 1) t
  round_end t r i l m (begun, pos, early, full) h =
      let one_more : r + 1 ≡ suc r = omega arith in
      let goal : absorb l m ≡ state_at c (suc r) t = elim (Bool-cases (ltb r margin)) [
        | inl low ↦
            ap (absorb l) (early (ground arith))
            ∙ ap (λ x. absorb x (held x)) begun
            ∙ sym (state_at-suc c r t ∙ (rw low refl))
        | inr high ↦
            let none_left : num_threads - i ≡ 0 = ground (arith, h) in
            ap (absorb l) (
              sym (gather_none c (export_at c (r - margin)) t i m)
              ∙ ap (λ j. gather c (export_at c (r - margin)) t i j m) (sym none_left)
              ∙ full (ground arith))
            ∙ ap
                (λ x. absorb x (gather c (export_at c (r - margin)) t 1 (num_threads - 1) (held x)))
                begun
            ∙ sym (state_at-suc c r t ∙ (rw high refl))
      ] in
      goal ∙ ap (λ k. state_at c k t) (sym one_more)

  pub move-Valid :
      (s : System L) (t i : ℕ) (m : Imports)
      → Valid c s
      → t < num_threads
      → (s.threads t).phase ≡ importing i m
      → (num_threads ≤ i) ⊎ ((s.threads t).period < margin)
      → Valid c (record {
        queues = s.queues;
        threads = update s.threads t (record {
          local = absorb (s.threads t).local m;
          period = (s.threads t).period + 1;
          phase = working;
        });
      })
  move-Valid s t i m v l e done_or_early =
      let r = (s.threads t).period in
      let th : Thread L = record {
        local = absorb (s.threads t).local m;
        period = r + 1;
        phase = working;
      } in
      let (begun, pos, early, full) : OnCourse c t r (s.threads t).local (importing i m) =
        subst (λ p. OnCourse c t r (s.threads t).local p) e (v.on_course t) in
      record {
        num_queues = v.num_queues;
        queue_of = λ u a.
            let (q, at, hx) = v.queue_of u a in
            (
              q,
              at,
              Holds-update c s.threads t th u q hx (λ _. ap (closed r) e ∙ omega arith)
                  (λ y.
                    let range = dist_range num_threads t u l a y in
                    rw e (ground (arith, range.0, range.1))),
            );
        on_course =
            course_update c s t th v (round_end t r i _ m (begun, pos, early, full) done_or_early);
      }
