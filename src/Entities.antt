-- ===== src/Entities.antt =====
-- What the visitors of src/parser/ ask of libclang: an entity with its kind, its answers and its
-- children, which form a finite tree. The kinds are those that the visitors tell apart.
use rustycpp.Common.{ℕ, String, Bool, Option}

pub data EntityKind : Type 0 where
  function_decl method var_decl parm_decl decl_stmt compound_stmt binary_operator : EntityKind
  call_expr return_stmt for_stmt while_stmt do_stmt if_stmt decl_ref_expr : EntityKind
  unexposed_expr integer_literal unary_operator other : EntityKind

pub data TypeKind : Type 0 where
  l_value_reference r_value_reference pointer other : TypeKind

-- `pointee` says whether the type that is pointed to is const, where there is one.
pub record TypeInfo : Type 0 where
  pub kind : TypeKind
  pub display_name : String
  pub is_const_qualified : Bool
  pub pointee : Option Bool

pub record FileLocation : Type 0 where
  pub file : Option String
  pub line : ℕ
  pub column : ℕ
  pub is_in_main_file : Bool

pub record Answers : Type 0 where
  pub name : Option String
  pub location : Option FileLocation
  pub type_info : Option TypeInfo
  pub result_type : Option TypeInfo
  pub comment : Option String
  pub is_definition : Bool

mutual
  pub data Entity : Type 0 where
    entity : EntityKind → Answers → Children → Entity

  pub data Children : Type 0 where
    none : Children
    child : Entity → Children → Children

abbrev pub kind_of : Entity → EntityKind
kind_of (entity kind answers children) = kind

abbrev pub answers_of : Entity → Answers
answers_of (entity kind answers children) = answers
