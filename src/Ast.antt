-- ===== src/Ast.antt =====
-- The syntax tree that the parser hands over: src/parser/ast_visitor.rs, lines 3-112. How the
-- visitor fills it from the entities of libclang is in `Extraction`.
use rustycpp.Common.{ℕ, String, Bool, Option, List}

pub record SourceLocation : Type 0 where
  pub file : String
  pub line : ℕ
  pub column : ℕ

pub record Variable : Type 0 where
  pub name : String
  pub type_name : String
  pub is_reference : Bool
  pub is_pointer : Bool
  pub is_const : Bool
  pub is_unique_ptr : Bool
  pub is_shared_ptr : Bool
  pub location : SourceLocation

-- `Args` is `Vec<Expression>`.
mutual
  pub data Expression : Type 0 where
    variable : String → Expression
    move dereference address_of : Expression → Expression
    function_call : String → Args → Expression
    literal : String → Expression
    binary_op : Expression → String → Expression → Expression

  pub data Args : Type 0 where
    none : Args
    arg : Expression → Args → Args

-- `Body` is `Vec<Statement>`, and `ElseBody` is `Option<Vec<Statement>>`.
mutual
  pub data Statement : Type 0 where
    variable_decl : Variable → Statement
    assignment : String → Expression → SourceLocation → Statement
    reference_binding : String → Expression → Bool → SourceLocation → Statement
    return : Option Expression → Statement
    function_call : String → Args → SourceLocation → Statement
    block : Body → Statement
    enter_scope exit_scope enter_loop exit_loop enter_unsafe exit_unsafe : Statement
    if_else : Expression → Body → ElseBody → SourceLocation → Statement

  pub data Body : Type 0 where
    nil : Body
    cons : Statement → Body → Body

  pub data ElseBody : Type 0 where
    absent : ElseBody
    present : Body → ElseBody

pub record Function : Type 0 where
  pub name : String
  pub parameters : List Variable
  pub return_type : String
  pub body : Body
  pub location : SourceLocation

pub record CppAst : Type 0 where
  pub functions : List Function
  pub global_variables : List Variable
