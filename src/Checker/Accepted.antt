-- ===== src/Checker/Accepted.antt =====
-- Whole blocks with loops that src/analysis/mod.rs, `check_function`, accepts.
use rustycpp.Common.{
  subst, StringSet, ℕ, zero, suc, ◌-◌, ◌≤◌, ◌≡◌, ◌∙◌, arith, inl, inr, Bool-cases, [], Map, eqb, ok,
}
use rustycpp.Ir.{IrStatement, Block, nil, cons, OwnershipState}
use rustycpp.Tracker.{clear_loop_locals, enter_loop}
use rustycpp.Tracker.Frame.{clear_loop_locals-SameFrame, exit_loop-SameFrame, exit_loop-tables}
use rustycpp.Tracker.Exclusive.{IsExclusive, clear_loop_locals-IsExclusive}
use rustycpp.Checker.{
  StringSet, Checker, with_tracker, process_statement, process_block, process_loop, second_round,
  loop_locals, take_block, drop_block, find_loop_end, check_statements, is_enter_loop,
}
use rustycpp.Checker.Growth.{error_count, process_statement-grows, process_block-grows}
use rustycpp.Checker.SafeCode.{
  IsSafeCode, IsSafeBlock, unsafe_depth-process_block, unsafe_depth-process_statement,
}
use rustycpp.Checker.Exclusive.{accepted_block-IsExclusive, accepted_statement-IsExclusive}
use rustycpp.Checker.Rounds.{noticed, noticed-grows, second_round-grows, process_loop-grows}

IsSafeBlock-take : (n : ℕ) (b : Block) → IsSafeBlock b → IsSafeBlock (take_block n b)
unfolding take_block IsSafeBlock
IsSafeBlock-take zero b h = tt
IsSafeBlock-take (suc n) nil h = tt
IsSafeBlock-take (suc n) (cons s b) (h, k) = (h, IsSafeBlock-take n b k)

IsSafeBlock-drop : (n : ℕ) (b : Block) → IsSafeBlock b → IsSafeBlock (drop_block n b)
unfolding drop_block IsSafeBlock
IsSafeBlock-drop zero b h = h
IsSafeBlock-drop (suc n) nil h = tt
IsSafeBlock-drop (suc n) (cons s b) (h, k) = IsSafeBlock-drop n b k

-- What an accepted step keeps: the code stays outside unsafe blocks, with exclusive borrows.
pub record IsSound (c : Checker) : Type 0 where
  pub outside : c.tracker.unsafe_depth ≡ 0
  pub exclusive : IsExclusive c.tracker.borrows

statement-IsSound :
    (s : IrStatement) (c : Checker)
    → IsSafeCode s
    → error_count (process_statement s c) ≡ error_count c
    → IsSound c
    → IsSound (process_statement s c)
statement-IsSound s c safe e h = record {
  outside = unsafe_depth-process_statement s c safe ∙ h.outside;
  exclusive = accepted_statement-IsExclusive s c safe h.outside e h.exclusive;
}

block-IsSound :
    (b : Block) (c : Checker)
    → IsSafeBlock b
    → error_count (process_block b c) ≡ error_count c
    → IsSound c
    → IsSound (process_block b c)
block-IsSound b c safe e h = record {
  outside = unsafe_depth-process_block b c safe ∙ h.outside;
  exclusive = accepted_block-IsExclusive b c safe h.outside e h.exclusive;
}

second_round-IsSound :
    (b : Block) (state : Map OwnershipState) (c : Checker)
    → IsSafeBlock b
    → error_count (second_round b state c) ≡ error_count c
    → IsSound c
    → IsSound (second_round b state c)
unfolding second_round IsSafeBlock
second_round-IsSound nil state c safe e h = h
second_round-IsSound (cons s rest) state c (safe, safe_rest) e h =
    let c' = noticed s state c in
    let c'' = process_statement s c' in
    let a = noticed-grows s state c in
    let b = process_statement-grows s c' in
    let d = second_round-grows rest state c'' in
    second_round-IsSound rest state c'' safe_rest (omega arith) (
      statement-IsSound s c' safe (omega arith)
        (record { outside = h.outside; exclusive = h.exclusive }))

clear_loop_locals-IsSound :
    (c : Checker) (vars : StringSet)
    → IsSound c
    → IsSound (with_tracker c (clear_loop_locals c.tracker vars))
clear_loop_locals-IsSound c vars h = record {
  outside = (clear_loop_locals-SameFrame c.tracker vars).unsafe ∙ h.outside;
  exclusive = clear_loop_locals-IsExclusive c.tracker vars h.exclusive;
}

process_loop-IsSound :
    (body : Block) (c : Checker)
    → IsSafeBlock body
    → error_count (process_loop body c) ≡ error_count c
    → IsSound c
    → IsSound (process_loop body c)
unfolding process_loop enter_loop
process_loop-IsSound body c safe e h =
    let locals = loop_locals body [] in
    let entered = with_tracker c (enter_loop c.tracker) in
    let first = process_block body entered in
    let state = first.tracker.ownership in
    let cleared = with_tracker first (clear_loop_locals first.tracker locals) in
    let second = second_round body state cleared in
    let grows = process_block-grows body entered in
    let grows' = second_round-grows body state cleared in
    let one =
      block-IsSound body entered safe (omega arith)
        (record { outside = h.outside; exclusive = h.exclusive }) in
    let two =
      second_round-IsSound body state cleared safe (omega arith)
        (clear_loop_locals-IsSound first locals one) in
    let three = clear_loop_locals-IsSound second locals two in
    let t = clear_loop_locals second.tracker locals in
    record {
      outside = (exit_loop-SameFrame t).unsafe ∙ three.outside;
      exclusive = rw ((exit_loop-tables t).0) three.exclusive;
    }

check_statements-grows :
    (fuel : ℕ) (b : Block) (c c' : Checker)
    → check_statements fuel b c ≡ ok c'
    → error_count c ≤ error_count c'
unfolding check_statements
check_statements-grows zero nil c c' e = ground arith
check_statements-grows (suc fuel) nil c c' e = ground arith
check_statements-grows zero (cons s rest) c c' e = cc
check_statements-grows (suc fuel) (cons s rest) c c' e =
    let n = find_loop_end rest 1 in
    let body = take_block (n - 1) rest in
    ground (
      arith,
      process_statement-grows s c,
      process_loop-grows body c,
      check_statements-grows fuel (drop_block n rest) (process_loop body c) c',
      check_statements-grows fuel rest (process_statement s c) c',
    )

-- A block with loops and conditionals, without unsafe markers, that is checked without a new
-- error, from outside unsafe blocks and from exclusive borrows, stays outside them and leaves
-- borrows exclusive: no source has a mutable borrow beside an immutable one.
pub check_statements-IsSound :
    (fuel : ℕ) (b : Block) (c c' : Checker)
    → IsSafeBlock b
    → check_statements fuel b c ≡ ok c'
    → error_count c' ≡ error_count c
    → IsSound c
    → IsSound c'
unfolding check_statements IsSafeBlock
check_statements-IsSound zero nil c c' safe e q h = let same : c ≡ c' = cc in subst IsSound same h
check_statements-IsSound (suc fuel) nil c c' safe e q h =
    let same : c ≡ c' = cc in subst IsSound same h
check_statements-IsSound zero (cons s rest) c c' safe e q h = cc
check_statements-IsSound (suc fuel) (cons s rest) c c' (safe, safe_rest) e q h =
    let n = find_loop_end rest 1 in
    let body = take_block (n - 1) rest in
    elim (Bool-cases (is_enter_loop s)) [
      | inl opens ↦ elim (Bool-cases (eqb n 0)) [
        | inl stuck ↦ cc (rw (opens, stuck) at e)
        | inr found ↦
            let e' : check_statements fuel (drop_block n rest) (process_loop body c) ≡ ok c' =
              rw (opens, found) at e in
            let a = process_loop-grows body c in
            let b = check_statements-grows fuel (drop_block n rest) (process_loop body c) c' e' in
            check_statements-IsSound fuel (drop_block n rest) (process_loop body c) c'
              (IsSafeBlock-drop n rest safe_rest) e' (omega arith)
              (process_loop-IsSound body c (IsSafeBlock-take (n - 1) rest safe_rest) (omega arith)
                h)
      ]
      | inr plain ↦
          let e' : check_statements fuel rest (process_statement s c) ≡ ok c' = rw plain at e in
          let a = process_statement-grows s c in
          let b = check_statements-grows fuel rest (process_statement s c) c' e' in
          check_statements-IsSound fuel rest (process_statement s c) c' safe_rest e' (omega arith)
            (statement-IsSound s c safe (omega arith) h)
    ]
