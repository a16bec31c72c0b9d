-- ===== src/Sql/Ast.antt =====
-- types/include/ast_tree.hpp: the syntax trees. A node of an expression holds a token or a binary
-- expression; a statement is the node at the root of a tree, with the variants that stand there.
use deltabase_c.Prelude.{ℕ, List, Option, Bool, none, some}
use deltabase_c.Evaluator.{
  AstOperator, undefined, or, and, not_op, eq_op, neq_op, gr_op, gre_op, lt_op, lte_op, is_op,
  assign,
}
use deltabase_c.Sql.Dictionary.{SqlToken}

-- `ast_operators_priorities().at(op)`, which throws on an operator that the map has not.
unfoldable pub ast_operators_priorities : AstOperator → Option ℕ
ast_operators_priorities undefined = none
ast_operators_priorities or = some 1
ast_operators_priorities and = some 2
ast_operators_priorities not_op = some 3
ast_operators_priorities eq_op = some 4
ast_operators_priorities neq_op = some 4
ast_operators_priorities gr_op = some 4
ast_operators_priorities gre_op = some 4
ast_operators_priorities lt_op = some 4
ast_operators_priorities lte_op = some 4
ast_operators_priorities is_op = some 4
ast_operators_priorities assign = some 4

-- `prefix_expr` is a binary expression whose left pointer is null.
mutual
  pub data AstNode : Type 0 where
    identifier_node : SqlToken → AstNode
    literal_node : SqlToken → AstNode
    binary_expr_node : BinaryExpr → AstNode

  pub data BinaryExpr : Type 0 where
    binary_expr : (op : AstOperator) → (left right : AstNode) → BinaryExpr
    prefix_expr : (op : AstOperator) → (right : AstNode) → BinaryExpr

pub record TableIdentifier : Type 0 where
  pub table_name : SqlToken
  pub schema_name : Option SqlToken

pub record SelectStatement : Type 0 where
  pub table : TableIdentifier
  pub columns : List SqlToken
  pub where_expr : Option BinaryExpr
  pub limit : Option ℕ

pub record ValuesExpr : Type 0 where
  pub values : List SqlToken

pub record InsertStatement : Type 0 where
  pub table : TableIdentifier
  pub columns : List SqlToken
  pub values : List ValuesExpr

pub record UpdateStatement : Type 0 where
  pub table : TableIdentifier
  pub assignments : List BinaryExpr
  pub where_expr : Option BinaryExpr

pub record DeleteStatement : Type 0 where
  pub table : TableIdentifier
  pub where_expr : Option BinaryExpr

pub record ColumnDefinition : Type 0 where
  pub name : SqlToken
  pub type : SqlToken
  pub constraints : List SqlToken

pub record CreateTableStatement : Type 0 where
  pub table : TableIdentifier
  pub columns : List ColumnDefinition

pub record AddColumnOperation : Type 0 where
  pub column : ColumnDefinition

pub record AlterTableStatement : Type 0 where
  pub table : TableIdentifier
  pub operations : List AddColumnOperation

pub record CreateSchemaStatement : Type 0 where
  pub name : SqlToken

-- `is_unique` has no initialiser: `none` is the value that it happens to have.
pub record CreateIndexStatement : Type 0 where
  pub table : TableIdentifier
  pub index_name : SqlToken
  pub column_name : SqlToken
  pub is_unique : Option Bool

pub record DropIndexStatement : Type 0 where
  pub table : TableIdentifier
  pub index_name : SqlToken

pub record CreateDbStatement : Type 0 where
  pub name : SqlToken

pub data Statement : Type 0 where
  select : SelectStatement → Statement
  insert : InsertStatement → Statement
  update : UpdateStatement → Statement
  delete : DeleteStatement → Statement
  create_table : CreateTableStatement → Statement
  create_database : CreateDbStatement → Statement
  create_schema : CreateSchemaStatement → Statement
  create_index : CreateIndexStatement → Statement
  drop_index : DropIndexStatement → Statement
  alter_table : AlterTableStatement → Statement
