-- ===== src/Tests/Evaluator.antt =====
-- Comparisons of integers, with `double`s compared as bytes.
use deltabase_c.Prelude.{◌∷◌, [], ◌≡◌, refl, ◌||◌}
use deltabase_c.Types.Value.{DataToken, integer}
use deltabase_c.Evaluator.{
  Doubles, evaluate, same_string, string_gr, string_gre, lt_op, gr_op, gre_op, lte_op, eq_op,
}
use deltabase_c.Evaluator.Orders.{string_gre_lem, evaluate-gre_op, evaluate-lt_op}
use deltabase_c.Tests.Storage.{seven}

abbrev as_bytes : Doubles
as_bytes = record { eq = same_string; gr = string_gr; gre = string_gre }

abbrev nine : DataToken
nine = record { bytes = 9 ∷ 0 ∷ 0 ∷ 0 ∷ []; type = integer }

evaluate-gre_op_example :
    evaluate as_bytes nine seven gre_op
    ≡ (evaluate as_bytes nine seven gr_op || evaluate as_bytes nine seven eq_op)
evaluate-gre_op_example = evaluate-gre_op as_bytes nine seven string_gre_lem refl refl

evaluate-lt_op_example :
    (evaluate as_bytes nine seven lt_op ≡ evaluate as_bytes nine seven gr_op)
    × (evaluate as_bytes nine seven lte_op ≡ evaluate as_bytes nine seven gre_op)
evaluate-lt_op_example = evaluate-lt_op as_bytes nine seven
