-- ===== src/Scoped/Reading.antt =====
-- A reader of the markers that src/parser/block_scope_tracker.rs, `convert_scoped_to_ir`, writes.
use mathlib.Core.List.{append_assoc, append-nil}
use rustycpp.Common.{
  ◌∙◌, ◌≡◌, refl, Bool, true, false, Option, none, some, List, [], ◌∷◌, ◌++◌, if◌then◌else◌,
}
use rustycpp.Scoped.{
  ScopedStatement, ScopedStatements, OptionalStatement, IrScopedStatement, in_scope,
  convert_scoped_to_ir, convert_all, convert_else,
}

pub data Bracket : Type 0 where
  scope conditional loop : Bracket

-- what is nested in what; the last shape comes last
mutual
  pub data Shape : Type 0 where
    leaf : Shape
    within : Bracket → Shapes → Shape

  pub data Shapes : Type 0 where
    empty : Shapes
    then : Shapes → Shape → Shapes

abbrev pub one : Shape → Shapes
one s = Shapes.then Shapes.empty s

-- the nesting of a statement, its expressions left out
abbrev mutual
  pub shape_of : ScopedStatement → Shape
  shape_of (ScopedStatement.statement _) = Shape.leaf
  shape_of (ScopedStatement.block statements) =
      Shape.within Bracket.scope (add_shapes Shapes.empty statements)
  shape_of (ScopedStatement.conditional _ then_branch else_branch) =
      Shape.within Bracket.conditional
        (add_else (one (Shape.within Bracket.scope (one (shape_of then_branch)))) else_branch)
  shape_of (ScopedStatement.loop _ _ body) =
      Shape.within Bracket.loop (one (Shape.within Bracket.scope (one (shape_of body))))

  pub add_shapes : Shapes → ScopedStatements → Shapes
  add_shapes shapes ScopedStatements.nil = shapes
  add_shapes shapes (ScopedStatements.cons s statements) =
      add_shapes (Shapes.then shapes (shape_of s)) statements

  pub add_else : Shapes → OptionalStatement → Shapes
  add_else shapes OptionalStatement.absent = shapes
  add_else shapes (OptionalStatement.present s) =
      Shapes.then shapes (Shape.within Bracket.scope (one (shape_of s)))

abbrev pub same_bracket : Bracket → Bracket → Bool
same_bracket Bracket.scope Bracket.scope = true
same_bracket Bracket.conditional Bracket.conditional = true
same_bracket Bracket.loop Bracket.loop = true
same_bracket _ _ = false

-- The brackets that are open, each with what was read before it, and what was read since.
abbrev pub Open : Type 0
Open = List (Bracket × Shapes)

abbrev close : Bracket → Shapes → Open → Option (Open × Shapes)
close b shapes [] = none
close b shapes ((c, before) ∷ outer) =
    if same_bracket b c then some (outer, Shapes.then before (Shape.within b shapes)) else none

abbrev continue_with : (Open → Shapes → Option Shapes) → Option (Open × Shapes) → Option Shapes
continue_with onward none = none
continue_with onward (some (open_brackets, shapes)) = onward open_brackets shapes

abbrev finish : Open → Shapes → Option Shapes
finish [] shapes = some shapes
finish (_ ∷ _) shapes = none

-- `none` where a bracket is closed that is not the last one opened, or is left open
abbrev pub read : List IrScopedStatement → Open → Shapes → Option Shapes
read [] open_brackets shapes = finish open_brackets shapes
read (IrScopedStatement.statement _ ∷ rest) open_brackets shapes =
    read rest open_brackets (Shapes.then shapes Shape.leaf)
read (IrScopedStatement.enter_scope ∷ rest) open_brackets shapes =
    read rest ((Bracket.scope, shapes) ∷ open_brackets) Shapes.empty
read (IrScopedStatement.exit_scope ∷ rest) open_brackets shapes =
    continue_with (read rest) (close Bracket.scope shapes open_brackets)
read (IrScopedStatement.begin_conditional ∷ rest) open_brackets shapes =
    read rest ((Bracket.conditional, shapes) ∷ open_brackets) Shapes.empty
read (IrScopedStatement.end_conditional ∷ rest) open_brackets shapes =
    continue_with (read rest) (close Bracket.conditional shapes open_brackets)
read (IrScopedStatement.begin_loop ∷ rest) open_brackets shapes =
    read rest ((Bracket.loop, shapes) ∷ open_brackets) Shapes.empty
read (IrScopedStatement.end_loop ∷ rest) open_brackets shapes =
    continue_with (read rest) (close Bracket.loop shapes open_brackets)

-- what is in a scope, read in front of anything
in_scope-rest :
    (a rest : List IrScopedStatement)
    → in_scope a ++ rest
      ≡ IrScopedStatement.enter_scope ∷ (a ++ (IrScopedStatement.exit_scope ∷ rest))
in_scope-rest a rest = rw (append_assoc a (IrScopedStatement.exit_scope ∷ []) rest) refl

-- statements that are read as one shape
abbrev ReadsAs : List IrScopedStatement → Shape → Type 0
ReadsAs a shape =
    (rest : List IrScopedStatement) (open_brackets : Open) (shapes : Shapes)
    → read (a ++ rest) open_brackets shapes ≡ read rest open_brackets (Shapes.then shapes shape)

in_scope-ReadsAs :
    (a : List IrScopedStatement) (shape : Shape)
    → ReadsAs a shape
    → ReadsAs (in_scope a) (Shape.within Bracket.scope (one shape))
in_scope-ReadsAs a shape h rest open_brackets shapes =
    rw (in_scope-rest a rest) (
      h (IrScopedStatement.exit_scope ∷ rest) ((Bracket.scope, shapes) ∷ open_brackets)
        Shapes.empty)

mutual
  unfolding convert_scoped_to_ir

  read-convert :
      (s : ScopedStatement) (rest : List IrScopedStatement) (open_brackets : Open) (shapes : Shapes)
      → read (convert_scoped_to_ir s ++ rest) open_brackets shapes
        ≡ read rest open_brackets (Shapes.then shapes (shape_of s))
  read-convert (ScopedStatement.statement s) rest open_brackets shapes = refl
  read-convert (ScopedStatement.block statements) rest open_brackets shapes =
      rw (in_scope-rest (convert_all statements) rest) (
        read-convert_all statements (IrScopedStatement.exit_scope ∷ rest)
          ((Bracket.scope, shapes) ∷ open_brackets) Shapes.empty)
  read-convert (ScopedStatement.loop kind condition body) rest open_brackets shapes =
      rw
        (append_assoc (in_scope (convert_scoped_to_ir body)) (IrScopedStatement.end_loop ∷ []) rest)
        (in_scope-ReadsAs (convert_scoped_to_ir body) (shape_of body)
          (λ r o x. read-convert body r o x) (IrScopedStatement.end_loop ∷ rest)
          ((Bracket.loop, shapes) ∷ open_brackets) Shapes.empty)
  read-convert (ScopedStatement.conditional condition then_branch else_branch) rest open_brackets
        shapes =
      let inside = (Bracket.conditional, shapes) ∷ open_brackets in
      let first = one (Shape.within Bracket.scope (one (shape_of then_branch))) in
      let last = IrScopedStatement.end_conditional ∷ [] in
      rw
        (append_assoc (in_scope (convert_scoped_to_ir then_branch))
          (convert_else else_branch ++ last) rest)
        (in_scope-ReadsAs (convert_scoped_to_ir then_branch) (shape_of then_branch)
            (λ r o x. read-convert then_branch r o x) ((convert_else else_branch ++ last) ++ rest)
            inside Shapes.empty
          ∙ rw (append_assoc (convert_else else_branch) last rest) (
              read-convert_else else_branch (IrScopedStatement.end_conditional ∷ rest) inside
                first))

  read-convert_all :
      (ss : ScopedStatements) (rest : List IrScopedStatement) (open_brackets : Open)
      (shapes : Shapes)
      → read (convert_all ss ++ rest) open_brackets shapes
        ≡ read rest open_brackets (add_shapes shapes ss)
  read-convert_all ScopedStatements.nil rest open_brackets shapes = refl
  read-convert_all (ScopedStatements.cons s ss) rest open_brackets shapes =
      rw (append_assoc (convert_scoped_to_ir s) (convert_all ss) rest) (
        read-convert s (convert_all ss ++ rest) open_brackets shapes
        ∙ read-convert_all ss rest open_brackets (Shapes.then shapes (shape_of s)))

  read-convert_else :
      (e : OptionalStatement) (rest : List IrScopedStatement) (open_brackets : Open)
      (shapes : Shapes)
      → read (convert_else e ++ rest) open_brackets shapes
        ≡ read rest open_brackets (add_else shapes e)
  read-convert_else OptionalStatement.absent rest open_brackets shapes = refl
  read-convert_else (OptionalStatement.present s) rest open_brackets shapes =
      in_scope-ReadsAs (convert_scoped_to_ir s) (shape_of s) (λ r o x. read-convert s r o x) rest
        open_brackets shapes

-- The nesting of blocks, conditionals and loops can be read back from the markers that a statement
-- is converted to: they are well nested and show the same tree.
pub read-convert_scoped_to_ir :
    (s : ScopedStatement) → read (convert_scoped_to_ir s) [] Shapes.empty ≡ some (one (shape_of s))
read-convert_scoped_to_ir s =
    rw (← append-nil (convert_scoped_to_ir s)) (read-convert s [] [] Shapes.empty)
