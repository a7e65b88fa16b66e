-- ===== src/System/Launch/Plain.antt =====
-- What the plain rounds, in which no thread ever stops, say of the answers of a launch.
use dps_pos.Base.{
  ℕ, zero, suc, ◌+◌, ◌*◌, ◌-◌, ◌%◌, ◌<◌, ◌≤◌, ◌^◌, ◌≡◌, ◌≢◌, refl, sym, ap, subst, ◌∙◌, [], ◌∷◌,
  Option, none, some, ltb, ◌==◌, if◌then◌else◌, arith, Bool-cases, inl, inr,
}
use dps_pos.Parallel.Sharer.{SatResult, unknown}
use dps_pos.Solver.Import.{Imports}
use dps_pos.Solver.Import.Window.{Parcel, receive}
use dps_pos.System.Rounds.{
  state_at, export_at, gather, state_at-suc, state_at_zero, work-export_at, gather_none, gather_one,
}
use dps_pos.System.Launch.{Program}
use dps_pos.System.Launch.Shadow.{shadow_work, work-searching}
use dps_pos.System.Launch.Answer.{Follows}
use dps_pos.System.Launch.Invariant.{end, to_end, found_at, Quiet, Expected}

module _ {L : Type 0} (c : Program L) (first w : ℕ) (status : SatResult) where
  open c use {setup, answer, late_answer, last_len}
  open setup use {num_threads, margin, work, held, absorb}

  -- How the search of thread `t` ends in period `p` of the plain rounds.
  abbrev pub answer_at : ℕ → ℕ → Option SatResult
  answer_at p t = answer (state_at setup p t)

  -- Thread `w` has the first answer of the plain rounds, in period `first`: of all answers it is that
  -- of the least period, and within it of the least thread. It is a known one, and no thread
  -- contradicts it up to the margin, nor with an answer that it still comes to in the period in
  -- which all are told to stop. The period numbers fit their words.
  pub record FirstAnswer : Type 0 where
    pub is_thread : w < num_threads
    pub known : status ≢ unknown
    pub room : first + 2 * margin + 4 < 2 ^ 64
    pub answers : answer_at first w ≡ some status
    pub none_before : (p t : ℕ) → t < num_threads → p < first → answer_at p t ≡ none
    pub none_below : (t : ℕ) → t < w → answer_at first t ≡ none
    pub agree :
        (p t : ℕ) (x : SatResult)
        → t < num_threads
        → p ≤ first + margin
        → answer_at p t ≡ some x
        → x ≡ status
    pub late_agree :
        (t : ℕ) (x : SatResult)
        → t < num_threads
        → ((p : ℕ) → p ≤ first + margin → answer_at p t ≡ none)
        → late_answer (state_at (to_end c first w status) (end c first w status) t).1 ≡ some x
        → x ≡ status

  gather_same :
      (out out' : ℕ → Parcel) (t i k : ℕ) (m : Imports)
      → ((u : ℕ) → u < num_threads → out' u ≡ out u)
      → 0 < num_threads
      → gather (to_end c first w status) out' t i k m ≡ gather setup out t i k m
  gather_same out out' t i zero m h z =
      gather_none (to_end c first w status) out' t i m ∙ sym (gather_none setup out t i m)
  gather_same out out' t i (suc k) m h z =
      gather_one (to_end c first w status) out' t i k m
      ∙ ap (λ e. gather (to_end c first w status) out' t (suc i) k (receive (e ∷ []) m))
          (h ((t + i) % num_threads) (omega arith))
      ∙ gather_same out out' t (suc i) k _ h z
      ∙ sym (gather_one setup out t i k m)

  abbrev SilentBefore : ℕ → ℕ → Type 0
  SilentBefore p t = (r : ℕ) → r < p → answer_at r t ≡ none

  same_export :
      (p t : ℕ)
      → answer_at p t ≡ none
      → p < end c first w status
      → state_at (to_end c first w status) p t ≡ (p, state_at setup p t)
      → export_at (to_end c first w status) p t ≡ export_at setup p t
  same_export p t a low e =
      sym (work-export_at (to_end c first w status) p t (p, state_at setup p t) (sym e))
      ∙ ap (λ y. y.1)
          (work-searching c (end c first w status) p (state_at setup p t) a (omega (arith, low)))
      ∙ work-export_at setup p t (state_at setup p t) refl

  -- What thread `t` takes over at the end of its period `p`, and the state that it has then.
  exchanged : ℕ → ℕ → L → Imports
  exchanged p t l =
      if ltb p margin
      then held l
      else gather (to_end c first w status) (export_at (to_end c first w status) (p - margin)) t 1
          (num_threads - 1) (held l)

  after_exchange : ℕ → ℕ → ℕ × L → ℕ × L
  unfolding exchanged
  after_exchange p t x = (x.0 + 1, absorb x.1 (exchanged p t x.1))

  follows :
      (p t : ℕ) (x : SatResult)
      → FirstAnswer
      → t < num_threads
      → answer_at p t ≡ some x
      → Follows first w margin status p t
  follows p t x f l e = elim (Bool-cases (ltb p first)) [
    | inl before ↦ let a : answer_at p t ≡ none = f.none_before p t l (ground arith) in absurd (cc)
    | inr later ↦ elim (Bool-cases (ltb first p)) [
      | inl after ↦ inl (ground arith)
      | inr now ↦
          let k : p ≡ first = ground arith in
          inr (
            sym k,
            elim (Bool-cases (ltb t w)) [
              | inl below ↦
                  let a : answer_at first t ≡ none = f.none_below t (ground arith) in
                  let b : answer_at first t ≡ some x = subst (λ r. answer_at r t ≡ some x) k e in
                  absurd (cc)
              | inr above ↦ ground arith
            ],
          )
    ]
  ]

  -- Until it has its answer, a thread of the launch is where the plain rounds have it.
  same_state :
      (b p t : ℕ)
      → FirstAnswer
      → p < b
      → p ≤ first + margin
      → t < num_threads
      → SilentBefore p t
      → state_at (to_end c first w status) p t ≡ (p, state_at setup p t)
  unfolding exchanged after_exchange
  same_state zero p t f h low l silent = absurd (omega arith)
  same_state (suc b) zero t f h low l silent =
      state_at_zero (to_end c first w status) t ∙ ap (λ x. (0, x)) (sym (state_at_zero setup t))
  same_state (suc b) (suc p) t f h low l silent =
      let here = same_state b p t f (omega arith) (omega arith) l (λ r k. silent r (omega arith)) in
      let worked =
        ap (shadow_work c (end c first w status)) here
        ∙ work-searching c (end c first w status) p (state_at setup p t) (silent p (omega arith))
            (omega (arith, low)) in
      let one_more : p + 1 ≡ suc p = omega arith in
      state_at-suc (to_end c first w status) p t
      ∙ ap (λ y. after_exchange p t y.0) worked
      ∙ ap
          (λ r.
            (r, absorb (work (state_at setup p t)).0 (exchanged p t (work (state_at setup p t)).0)))
          one_more
      ∙ ap (λ m. (suc p, absorb (work (state_at setup p t)).0 m))
          (elim (Bool-cases (ltb p margin)) [
            | inl early ↦ rw early refl
            | inr in_time ↦ rw in_time (
                gather_same (export_at setup (p - margin))
                  (export_at (to_end c first w status) (p - margin)) t 1 (num_threads - 1)
                  (held (work (state_at setup p t)).0)
                  (λ u a.
                    let silent_there : SilentBefore (p - margin) u =
                      λ r k. f.none_before r u a (ground arith) in
                    same_export (p - margin) u (f.none_before (p - margin) u a (ground arith))
                      (ground arith)
                      (same_state b (p - margin) u f (omega arith) (omega arith) a silent_there))
                  (omega (arith, l)))
          ])
      ∙ ap (λ x. (suc p, x)) (sym (state_at-suc setup p t))

  silent_as_quiet :
      (p t : ℕ)
      → FirstAnswer
      → p ≤ first + margin + 1
      → t < num_threads
      → Quiet c first w status p t
      → SilentBefore p t
  unfolding found_at
  silent_as_quiet zero t f low l quiet r h = absurd (omega arith)
  silent_as_quiet (suc p) t f low l quiet r h =
      let before = silent_as_quiet p t f (omega arith) l (λ i k. quiet i (omega arith)) in
      elim (Bool-cases (r == p)) [
        | inl now ↦
            let k : p ≡ r = ground arith in
            subst (λ i. answer_at i t ≡ none) k
              (sym (
                  ap (λ y. answer y.1)
                    (same_state (suc p) p t f (omega arith) (omega arith) l before))
                ∙ quiet p (omega arith))
        | inr sooner ↦ before r (ground arith)
      ]

  found_as_answer :
      (p t : ℕ)
      → FirstAnswer
      → p ≤ first + margin
      → t < num_threads
      → SilentBefore p t
      → found_at c first w status p t ≡ answer_at p t
  unfolding found_at
  found_as_answer p t f low l silent =
      ap (λ y. answer y.1) (same_state (suc p) p t f (omega arith) low l silent)

  pub FirstAnswer-Expected : FirstAnswer → Expected c first w status
  FirstAnswer-Expected f = record {
    is_thread = f.is_thread;
    known = f.known;
    room = f.room;
    answers =
        found_as_answer first w f (omega arith) f.is_thread (λ r h. f.none_before r w f.is_thread h)
        ∙ f.answers;
    later_answers = λ p t x l low quiet found.
        let answered : answer_at p t ≡ some x =
          sym (found_as_answer p t f low l (silent_as_quiet p t f (omega (arith, low)) l quiet))
          ∙ found in
        (f.agree p t x l low answered, follows p t x f l answered);
    late_agree = λ t x l quiet late.
        let silent = silent_as_quiet (end c first w status) t f (omega arith) l quiet in
        f.late_agree t x l (λ p h. silent p (omega arith)) late;
  }
