-- ===== src/System/Launch/Close.antt =====
-- The last period of a thread that ends: it is completed with no clause.
use dps_pos.Base.{ℕ, ◌≡◌, refl, sym, ap, ◌∙◌, List, [], ◌∷◌, some, get_elem?, set}
use dps_pos.Base.Result.{Result, ok, fault}
use dps_pos.Period.PrdClauses.{PrdClauses}
use dps_pos.Period.Queue.{PrdClausesQueue, last, set_last, complete_addition}
use dps_pos.Period.Manager.{get_at}
use dps_pos.Parallel.Sharer.{Sharer}
use dps_pos.Parallel.Sharer
use dps_pos.System.{publish, add_clauses}

set_last-last : (xs : List PrdClauses) (p : PrdClauses) → last xs ≡ ok p → set_last xs p ≡ xs
unfolding last set_last
set_last-last [] p e = refl
set_last-last (x ∷ []) p e = let k : x ≡ p = cc in ap (λ y. y ∷ []) (sym k)
set_last-last (x ∷ y ∷ xs) p e = ap (◌∷◌ x) (set_last-last (y ∷ xs) p e)

complete_addition-last :
    (q : PrdClausesQueue) (len : ℕ) → last q.queue ≡ fault → complete_addition q len ≡ fault
unfolding complete_addition
complete_addition-last q len e = rw e refl

publish_same :
    (q : PrdClausesQueue) (len : ℕ) (r : Result PrdClauses)
    → last q.queue ≡ r
    → publish q (record { clauses = []; prd_len = len }) ≡ complete_addition q len
unfolding publish add_clauses
publish_same q len (ok p) e = rw (e, set_last-last q.queue p e) refl
publish_same q len fault e = rw (e, complete_addition-last q len e) refl

-- To complete a period is to publish nothing.
pub publish_none :
    (q : PrdClausesQueue) (len : ℕ)
    → publish q (record { clauses = []; prd_len = len }) ≡ complete_addition q len
publish_none q len = publish_same q len (last q.queue) refl

pub complete_curr_period_lem :
    (x : Sharer) (t len : ℕ) (q q' : PrdClausesQueue)
    → get_elem? x.pcqm t ≡ some q
    → publish q (record { clauses = []; prd_len = len }) ≡ ok q'
    → Sharer.complete_curr_period x t len ≡ ok (record x { pcqm = set x.pcqm t q' })
unfolding Sharer.complete_curr_period
complete_curr_period_lem x t len q q' at run =
    rw (get_at x.pcqm t q at) (rw (sym (publish_none q len) ∙ run) refl)
