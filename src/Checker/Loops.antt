-- ===== src/Checker/Loops.antt =====
-- Loops of a block: src/analysis/mod.rs, `check_function`, lines 181-247. The search for the end
-- of a loop, and the totality of the loop over the statements.
use rustycpp.Common.{
  ℕ, zero, suc, ◌-◌, ◌≤◌, ◌≡◌, inl, inr, refl, ap, arith, Bool, true, false, Bool-cases, eqb, ok,
}
use rustycpp.Ir.{append, IrStatement, Block, nil, cons}
use rustycpp.Checker.{
  Checker, process_statement, process_loop, find_loop_end, take_block, drop_block, loop_depth_after,
  check_statements, block_length, is_enter_loop,
}

-- The markers of loops are nested: from `depth` open loops, all loops are closed at the end.
abbrev pub IsNested : ℕ → Block → Type 0
IsNested zero nil = Unit
IsNested (suc depth) nil = ⊥
IsNested depth (cons IrStatement.enter_loop b) = IsNested (suc depth) b
IsNested zero (cons IrStatement.exit_loop b) = ⊥
IsNested (suc depth) (cons IrStatement.exit_loop b) = IsNested depth b
IsNested depth (cons _ b) = IsNested depth b

find_loop_end-closed : (b : Block) → find_loop_end b 0 ≡ 0
unfolding find_loop_end
find_loop_end-closed nil = refl
find_loop_end-closed (cons s b) = refl

find_loop_end-nested :
    (depth : ℕ) (body rest : Block)
    → IsNested depth body
    → find_loop_end (append body (cons IrStatement.exit_loop rest)) (suc depth)
      ≡ suc (block_length body)
unfolding find_loop_end
find_loop_end-nested zero nil rest h = ap suc (find_loop_end-closed rest)
find_loop_end-nested (suc depth) nil rest h = absurd h
find_loop_end-nested depth (cons IrStatement.enter_loop b) rest h =
    ground (arith, find_loop_end-nested (suc depth) b rest h)
find_loop_end-nested zero (cons IrStatement.exit_loop b) rest h = absurd h
find_loop_end-nested (suc depth) (cons IrStatement.exit_loop b) rest h =
    ground (arith, find_loop_end-nested depth b rest h)
find_loop_end-nested depth (cons s b) rest h = ground (arith, find_loop_end-nested depth b rest h)

eqb-suc : (n : ℕ) → eqb (suc n) 0 ≡ false
eqb-suc n = ground arith

take_block-append : (body rest : Block) → take_block (block_length body) (append body rest) ≡ body
unfolding take_block
take_block-append nil rest = refl
take_block-append (cons s b) rest = ap (cons s) (take_block-append b rest)

drop_block-append :
    (s : IrStatement) (body rest : Block)
    → drop_block (suc (block_length body)) (append body (cons s rest)) ≡ rest
unfolding drop_block
drop_block-append s nil rest = refl
drop_block-append s (cons _ b) rest = drop_block-append s b rest

-- A loop with nested markers is processed as its body, up to the matching end, and what follows
-- that end is checked next.
pub check_statements-loop :
    (fuel : ℕ) (body rest : Block) (c : Checker)
    → IsNested 0 body
    → check_statements
        (suc fuel)
        (cons IrStatement.enter_loop (append body (cons IrStatement.exit_loop rest)))
        c
      ≡ check_statements fuel rest (process_loop body c)
unfolding check_statements
check_statements-loop fuel body rest c h =
    let tail = append body (cons IrStatement.exit_loop rest) in
    let found = find_loop_end-nested 0 body rest h in
    let one : suc (block_length body) - 1 ≡ block_length body = omega arith in
    rw (
      found,
      one,
      take_block-append body (cons IrStatement.exit_loop rest),
      drop_block-append IrStatement.exit_loop body rest,
      eqb-suc (block_length body),
    )

-- the last statement opens a loop
abbrev pub ends_in_loop : Block → Bool
ends_in_loop nil = false
ends_in_loop (cons s nil) = is_enter_loop s
ends_in_loop (cons s (cons r b)) = ends_in_loop (cons r b)

ends_in_loop-drop :
    (n : ℕ) (b : Block) → ends_in_loop b ≡ false → ends_in_loop (drop_block n b) ≡ false
unfolding drop_block
ends_in_loop-drop zero b h = h
ends_in_loop-drop (suc n) nil h = refl
ends_in_loop-drop (suc zero) (cons s nil) h = refl
ends_in_loop-drop (suc (suc n)) (cons s nil) h = refl
ends_in_loop-drop (suc n) (cons s (cons r b)) h = ends_in_loop-drop n (cons r b) h

length-drop_block : (n : ℕ) (b : Block) → block_length (drop_block n b) ≤ block_length b
unfolding drop_block
length-drop_block zero b = omega arith
length-drop_block (suc n) nil = omega arith
length-drop_block (suc n) (cons s b) = omega (arith, length-drop_block n b)

ends_in_loop-rest :
    (s : IrStatement) (b : Block) → ends_in_loop (cons s b) ≡ false → ends_in_loop b ≡ false
ends_in_loop-rest s nil h = refl
ends_in_loop-rest s (cons r b) h = h

-- a search that passes nothing: the loop was opened by the last statement
find_loop_end-pos :
    (s : IrStatement) (b : Block)
    → is_enter_loop s ≡ true
    → ends_in_loop (cons s b) ≡ false
    → eqb (find_loop_end b 1) 0 ≡ false
unfolding find_loop_end
find_loop_end-pos s nil e h = cc
find_loop_end-pos s (cons r b) e h = eqb-suc (find_loop_end b (loop_depth_after r 1))

-- A block that does not end by opening a loop is checked to its end, with as much fuel as it has
-- statements.
pub check_statements_total :
    (fuel : ℕ) (b : Block) (c : Checker)
    → block_length b ≤ fuel
    → ends_in_loop b ≡ false
    → (c' : Checker) × (check_statements fuel b c ≡ ok c')
unfolding check_statements
check_statements_total zero nil c h e = (c, refl)
check_statements_total (suc fuel) nil c h e = (c, refl)
check_statements_total zero (cons s rest) c h e = absurd (omega arith)
check_statements_total (suc fuel) (cons s rest) c h e = elim (Bool-cases (is_enter_loop s)) [
  | inl opens ↦
      let n = find_loop_end rest 1 in
      let (c', done) =
        check_statements_total fuel (drop_block n rest) (process_loop (take_block (n - 1) rest) c)
          (omega (arith, length-drop_block n rest))
          (ends_in_loop-drop n rest (ends_in_loop-rest s rest e)) in
      (c', rw (opens, find_loop_end-pos s rest opens e) done)
  | inr plain ↦
      let (c', done) =
        check_statements_total fuel rest (process_statement s c) (omega arith)
          (ends_in_loop-rest s rest e) in
      (c', rw plain done)
]
