-- ===== src/Period/Buffer/Tests.antt =====
-- Runs of the buffer, and its theorems at a buffer of three clauses.
use dps_pos.Base.{◌≡◌, refl, ◌++◌, ◌∷◌, ◌<◌, ◌^◌, [], List, length, u32, arith}
use dps_pos.Base.Int.{pos}
use dps_pos.Base.Result.{ok}
use dps_pos.Period.Clause.{Clause, literals}
use dps_pos.Period.PrdClauses.{PrdClauses}
use dps_pos.Period.PrdClauses
use dps_pos.Period.Buffer.{ClauseBuffer, init, add_clause, export_to}
use dps_pos.Period.Buffer.Order.{contents, flat, upto, above}
use dps_pos.Period.Buffer.Contract.{
  IsBuffer, Limited, init-IsBuffer, add_clause-IsBuffer, export_to-IsBuffer,
}

abbrev unit : Clause
unit = pos 3 ∷ []

abbrev binary : Clause
binary = pos 1 ∷ pos 2 ∷ []

abbrev ternary : Clause
ternary = pos 4 ∷ pos 5 ∷ pos 6 ∷ []

three : ClauseBuffer
unfolding add_clause init
three = add_clause (add_clause (add_clause init ternary 3) unit 1) binary 2

three_contents : contents three ≡ unit ∷ binary ∷ ternary ∷ []
unfolding three contents flat
three_contents = refl

three-IsBuffer : IsBuffer three
unfolding three
three-IsBuffer =
    (add_clause-IsBuffer _ binary 2
      (add_clause-IsBuffer _ unit 1 (add_clause-IsBuffer init ternary 3 init-IsBuffer).0).0).0

-- A limit of two literals lets the second clause through, and not the third.
limit_two :
    (b : ClauseBuffer) × (d : PrdClauses) × (export_to three (PrdClauses.init 0 0) 2 ≡ ok (b, d, 2))
    × (b.keys ≡ 2 ∷ 3 ∷ [])
    × (contents b ≡ ternary ∷ [])
unfolding three export_to PrdClauses.add_clause PrdClauses.init contents flat
limit_two = (_, _, refl, refl, refl)

add_clause-IsBuffer_example :
    IsBuffer (add_clause three unit 1)
    × (contents (add_clause three unit 1)
        ≡ flat (upto 1 three.keys) three.db ++ (unit ∷ flat (above 1 three.keys) three.db))
    × (contents three ≡ flat (upto 1 three.keys) three.db ++ flat (above 1 three.keys) three.db)
add_clause-IsBuffer_example = add_clause-IsBuffer three unit 1 three-IsBuffer

few : literals (contents three) < 2 ^ 32
unfolding three contents flat literals
few = omega arith

export_to-IsBuffer_example :
    (sent : List Clause) × (b' : ClauseBuffer) × (dest' : PrdClauses) × (export_to three
        (PrdClauses.init 0 0)
        2
      ≡ ok (b', dest', u32 (length sent)))
    × (contents three ≡ sent ++ contents b')
    × (dest'.clauses ≡ (PrdClauses.init 0 0).clauses ++ sent)
    × Limited 2 sent b'
    × IsBuffer b'
unfolding PrdClauses.init
export_to-IsBuffer_example =
    export_to-IsBuffer three (PrdClauses.init 0 0) 2 three-IsBuffer refl few
