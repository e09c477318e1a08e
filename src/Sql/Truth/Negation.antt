-- ===== src/Sql/Truth/Negation.antt =====
-- The opposite comparison is the negation, also where NULL makes it unknown.
use hands_on_sqldb_in_cpp.Prelude.{◌≡◌, arith}
use hands_on_sqldb_in_cpp.Sql.Types.{Value}
use hands_on_sqldb_in_cpp.Sql.Truth.{truth_not, CompareOp, flip_compare_op, sql_compare_op}

-- For every operator and all values, the flipped operator gives the negation of the comparison in
-- three-valued logic: where one is unknown, so is the other.
pub sql_compare_op-flip :
    (op : CompareOp) (a b : Value)
    → sql_compare_op (flip_compare_op op) a b ≡ truth_not (sql_compare_op op a b)
unfolding sql_compare_op
sql_compare_op-flip op a b = ground (arith)
