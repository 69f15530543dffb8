-- ===== src/Scopes/Unknown.antt =====
-- Names that the analysis of a block in src/analysis/scope_lifetime.rs never comes to know, and the
-- borrows from them.
use rustycpp.Common.{
  arith, String, ◌==◌, eq_iff, Bool, true, false, ◌||◌, Bool-cases, Option, none, some, [], ◌≡◌,
  ◌≢◌, refl, inl, inr, append_empty, StringSet, contains, add, contains-add,
}
use rustycpp.Ir.{Block, IrStatement}
use rustycpp.Annotations.{LifetimeAnnotation, FunctionSignature, HeaderCache, get_signature}
use rustycpp.Scopes.Known.{know_result, know_call, know_statement, know_block}

-- a name that the block may make known
abbrev pub binds : IrStatement → String → Bool
binds (IrStatement.borrow _ to _) x = to == x
binds (IrStatement.call_expr _ _ (some result)) x = result == x
binds _ x = false

abbrev pub block_binds : Block → String → Bool
block_binds Block.nil x = false
block_binds (Block.cons s b) x = binds s x || block_binds b x

abbrev pub borrows : IrStatement → String → Bool
borrows (IrStatement.borrow from _ _) x = from == x
borrows _ x = false

abbrev pub block_borrows : Block → String → Bool
block_borrows Block.nil x = false
block_borrows (Block.cons s b) x = borrows s x || block_borrows b x

pub unknown-add :
    (known : StringSet) (y x : String)
    → contains known x ≡ false
    → (y == x) ≡ false
    → contains (add known y) x ≡ false
unknown-add known y x h p = ground (arith, contains-add known y x, h, p)

unknown-call :
    (result : String) (s : Option FunctionSignature) (known : StringSet) (x : String)
    → contains known x ≡ false
    → (result == x) ≡ false
    → contains (know_call (some result) s known) x ≡ false
unknown-call result none known x h p = h
unknown-call result (some s) known x h p = by_lifetime s.return_lifetime
  where
    by_lifetime :
        (l : Option LifetimeAnnotation) → contains (know_result (some result) l known) x ≡ false
    by_lifetime none = h
    by_lifetime (some (LifetimeAnnotation.lifetime _)) = h
    by_lifetime (some (LifetimeAnnotation.ref _)) = unknown-add known result x h p
    by_lifetime (some (LifetimeAnnotation.mut_ref _)) = unknown-add known result x h p
    by_lifetime (some LifetimeAnnotation.owned) = unknown-add known result x h p

nothing_known : (s : Option FunctionSignature) (known : StringSet) → know_call none s known ≡ known
nothing_known none known = refl
nothing_known (some s) known = refl

unknown-statement :
    (cache : HeaderCache) (s : IrStatement) (known : StringSet) (x : String)
    → binds s x ≡ false
    → contains known x ≡ false
    → contains (know_statement cache s known).1 x ≡ false
unknown-statement cache (IrStatement.borrow from to kind) known x p h =
    elim (Bool-cases (contains known from)) [
      | inl q ↦ rw q (unknown-add known to x h p)
      | inr q ↦ rw q h
    ]
unknown-statement cache (IrStatement.call_expr func args none) known x p h =
    rw (nothing_known (get_signature cache func) known) h
unknown-statement cache (IrStatement.call_expr func args (some result)) known x p h =
    unknown-call result (get_signature cache func) known x h p
unknown-statement cache _ known x p h = h

pub unknown-block :
    (cache : HeaderCache) (b : Block) (known : StringSet) (x : String)
    → block_binds b x ≡ false
    → contains known x ≡ false
    → contains (know_block cache b known).1 x ≡ false
unknown-block cache Block.nil known x p h = h
unknown-block cache (Block.cons s b) known x p h =
    let here : binds s x ≡ false = ground (arith, p) in
    let rest : block_binds b x ≡ false = ground (arith, p) in
    unknown-block cache b (know_statement cache s known).1 x rest
      (unknown-statement cache s known x here h)

reported-statement :
    (cache : HeaderCache) (s : IrStatement) (known : StringSet) (x : String)
    → borrows s x ≡ true
    → contains known x ≡ false
    → (know_statement cache s known).0 ≢ []
reported-statement cache (IrStatement.borrow from to kind) known x p h e =
    let same : from ≡ x = (eq_iff from x).0 p in
    let q : contains known from ≡ false = rw same h in cc (rw q at e)
reported-statement cache _ known x p h e = cc

pub reported-block :
    (cache : HeaderCache) (b : Block) (known : StringSet) (x : String)
    → block_borrows b x ≡ true
    → block_binds b x ≡ false
    → contains known x ≡ false
    → (know_block cache b known).0 ≢ []
reported-block cache Block.nil known x r p h e = cc
reported-block cache (Block.cons s b) known x r p h e =
    let (none_here, none_there) =
      append_empty (know_statement cache s known).0
        (know_block cache b (know_statement cache s known).1).0 e in
    let here : binds s x ≡ false = ground (arith, p) in
    let rest : block_binds b x ≡ false = ground (arith, p) in
    elim (Bool-cases (borrows s x)) [
      | inl q ↦ reported-statement cache s known x q h none_here
      | inr q ↦
          let later : block_borrows b x ≡ true = ground (arith, r, q) in
          reported-block cache b (know_statement cache s known).1 x later rest
            (unknown-statement cache s known x here h) none_there
    ]
