-- ===== src/Parallel/Sharer/Winner.antt =====
-- Which report wins: `IFinished` over all reports of a run, in the order in which they arrive.
use dps_pos.Base.{
  ℕ, ◌+◌, ◌<◌, ◌≤◌, ◌≡◌, ◌≢◌, refl, subst, ◌⊎◌, inl, inr, ◌↔◌, List, [], ◌∷◌, Bool, true, false,
  ◌&&◌, ◌||◌, ltb, ◌==◌, if◌then◌else◌, Bool-cases, All, arith,
}
use dps_pos.Base.Int.{ℤ, pos_part, neg_part, ltb_ℤ, eq_of_parts}
use dps_pos.Base.Result.{Result, ok, ◌>>=◌}
use dps_pos.Parallel.Sharer.{Sharer, SatResult, sat, unsat, unknown, i_finished, is_better}

-- A report: the period in which the thread stopped, and the thread.
pub record Report : Type 0 where
  pub prd : ℕ
  pub thn : ℤ

-- The reports of threads that all have the answer `status`, in order of arrival.
pub finish_all : SatResult → Sharer → List Report → Result Sharer
finish_all status s [] = ok s
finish_all status s (r ∷ rs) = i_finished s status r.prd r.thn >>= λ t. finish_all status (t.0) rs

-- Earlier period first, then smaller thread number.
abbrev before : Report → Report → Bool
before a b = ltb a.prd b.prd || ((a.prd == b.prd) && ltb_ℤ a.thn b.thn)

-- `a` is `b` or comes before it.
abbrev pub AtMost : Report → Report → Type 0
AtMost a b =
    (a.prd < b.prd)
    ⊎ ((a.prd ≡ b.prd) × (pos_part a.thn + neg_part b.thn ≤ pos_part b.thn + neg_part a.thn))

abbrev pub Has : Report → List Report → Type 0
Has r [] = ⊥
Has r (x ∷ xs) = (x ≡ r) ⊎ Has r xs

best : Report → List Report → Report
best w [] = w
best w (r ∷ rs) = best (if before r w then r else w) rs

abbrev won : SatResult → Sharer → Report → Sharer
won status s w = record s {
  sol_found = true;
  winner_id = w.thn;
  winner_period = w.prd;
  final_result = status;
}

AtMost-trans : (a b c : Report) → AtMost a b → AtMost b c → AtMost a c
AtMost-trans a b c h k = ground arith

AtMost-antisym : (a b : Report) → AtMost a b → AtMost b a → a ≡ b
AtMost-antisym a b h k = ground (arith, eq_of_parts a.thn b.thn)

-- The one report that is kept comes from the list and is at most each of its reports.
record IsBest (w b : Report) (rs : List Report) : Type 0 where
  from : (w ≡ b) ⊎ Has b rs
  below_w : AtMost b w
  below : All (AtMost b) rs

Has-later : (w b r : Report) (rs : List Report) → (w ≡ b) ⊎ Has b rs → (w ≡ b) ⊎ Has b (r ∷ rs)
Has-later w b r rs (inl e) = inl e
Has-later w b r rs (inr h) = inr (inr h)

All-Has : (P : Report → Type 0) (rs : List Report) (r : Report) → All P rs → Has r rs → P r
All-Has P [] r h k = absurd k
All-Has P (x ∷ rs) r h (inl e) = subst P e h.0
All-Has P (x ∷ rs) r h (inr k) = All-Has P rs r h.1 k

at_most :
    (w b : Report) (rs : List Report) → IsBest w b rs → (c : Report) → Has c (w ∷ rs) → AtMost b c
at_most w b rs m c h = All-Has (AtMost b) (w ∷ rs) c (m.below_w, m.below) h

best-IsBest : (w : Report) (rs : List Report) → IsBest w (best w rs) rs
unfolding best
best-IsBest w [] = record { from = inl refl; below_w = inr (refl, omega arith); below = tt }
best-IsBest w (r ∷ rs) = elim (Bool-cases (before r w)) [
  | inl e ↦
      let b = best-IsBest r rs in
      rw e (record {
        from = inr b.from;
        below_w = AtMost-trans _ r w b.below_w (ground arith);
        below = (b.below_w, b.below);
      })
  | inr e ↦
      let b = best-IsBest w rs in
      rw e (record {
        from = Has-later w _ r rs b.from;
        below_w = b.below_w;
        below = (AtMost-trans _ w r b.below_w (ground arith), b.below);
      })
]

step_won :
    (status : SatResult) (s : Sharer) (w r : Report)
    → status ≢ unknown
    → i_finished (won status s w) status r.prd r.thn
      ≡ ok (won status s (if before r w then r else w), before r w)
unfolding i_finished is_better
step_won sat s w r k = elim (Bool-cases (before r w)) [ inl e ↦ rw e | inr e ↦ rw e ]
step_won unsat s w r k = elim (Bool-cases (before r w)) [ inl e ↦ rw e | inr e ↦ rw e ]
step_won unknown s w r k = absurd (k refl)

first_won :
    (status : SatResult) (s : Sharer) (r : Report)
    → s.sol_found ≡ false
    → s.final_result ≡ unknown
    → i_finished s status r.prd r.thn ≡ ok (won status s r, true)
unfolding i_finished is_better
first_won status s r e f = ground arith

finish_all-won :
    (status : SatResult) (s : Sharer) (w : Report) (rs : List Report)
    → status ≢ unknown
    → finish_all status (won status s w) rs ≡ ok (won status s (best w rs))
unfolding finish_all best
finish_all-won status s w [] k = refl
finish_all-won status s w (r ∷ rs) k =
    rw (step_won status s w r k, finish_all)
      (finish_all-won status s (if before r w then r else w) rs k)

best-eq :
    (w v b c : Report) (rs ts : List Report)
    → ((r : Report) → Has r (w ∷ rs) ↔ Has r (v ∷ ts))
    → IsBest w b rs
    → IsBest v c ts
    → b ≡ c
best-eq w v b c rs ts same_reports m n =
    AtMost-antisym b c (at_most w b rs m c ((same_reports c).1 n.from))
      (at_most v c ts n b ((same_reports b).0 m.from))

-- When the threads that finish agree on a known answer, the winner is the report of the earliest
-- period and, within it, of the smallest thread number; the answer is theirs.
pub finish_all-IsBest :
    (status : SatResult) (s : Sharer) (r : Report) (rs : List Report)
    → status ≢ unknown
    → s.sol_found ≡ false
    → s.final_result ≡ unknown
    → (b : Report) × (finish_all status s (r ∷ rs) ≡ ok (won status s b))
      × Has b (r ∷ rs)
      × All (AtMost b) (r ∷ rs)
unfolding finish_all
finish_all-IsBest status s r rs k e f =
    let m = best-IsBest r rs in
    (
      best r rs,
      rw (first_won status s r e f, finish_all) (finish_all-won status s r rs k),
      m.from,
      (m.below_w, m.below),
    )

-- So the order in which the threads report makes no difference to the state that is left: any two
-- non-empty sequences of the same reports leave the same winner and the same answer.
pub finish_all_order :
    (status : SatResult) (s : Sharer) (r t : Report) (rs ts : List Report)
    → status ≢ unknown
    → s.sol_found ≡ false
    → s.final_result ≡ unknown
    → ((x : Report) → Has x (r ∷ rs) ↔ Has x (t ∷ ts))
    → finish_all status s (r ∷ rs) ≡ finish_all status s (t ∷ ts)
unfolding finish_all
finish_all_order status s r t rs ts k e f same_reports = rw (
  first_won status s r e f,
  first_won status s t e f,
  finish_all-won status s r rs k,
  finish_all-won status s t ts k,
  best-eq r t (best r rs) (best t ts) rs ts same_reports (best-IsBest r rs) (best-IsBest t ts),
)
