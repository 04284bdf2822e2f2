-- ===== src/Expression/Evaluator/Nodes.antt =====
-- `compile` and the loop over the nodes (src/expression.cpp): the nodes of an expression run after
-- any others, and find the columns of their operands among the values.
use vectorized_query_engine.Base.{
  ℕ, zero, suc, ◌≡◌, refl, sym, ap, ◌∙◌, false, some, List, [], ◌∷◌, ◌++◌, length, length-append,
  get_elem?, ◌==◌, if◌then◌else◌, arith,
}
use mathlib.Core.List.{append_assoc, append-nil}
use vectorized_query_engine.Base.Results.{ok, >>=-eq-ok}
use vectorized_query_engine.Vector.Batch.{Batch}
use vectorized_query_engine.Vector.Column.{Column}
use vectorized_query_engine.Vector.Value.{DataType, Schema, Value, column_index}
use vectorized_query_engine.Expression.{
  ExprKind, ExprPtr, missing, node, expression_type, kind_index,
}
use vectorized_query_engine.Expression.Evaluator.{
  Setting, Node, compile, run_node, run_nodes, at_index, last_column,
}

get_elem?-append {ℓ} :
    {A : Type ℓ} (xs ys : List A) (i : ℕ) {x : A}
    → get_elem? xs i ≡ some x
    → get_elem? (xs ++ ys) i ≡ some x
get_elem?-append [] ys i h = cc
get_elem?-append (x ∷ xs) ys zero h = h
get_elem?-append (x ∷ xs) ys (suc i) h = get_elem?-append xs ys i h

get_elem?-last {ℓ} :
    {A : Type ℓ} (xs : List A) (n : ℕ) (x : A) → n ≡ length xs → get_elem? (xs ++ x ∷ []) n ≡ some x
get_elem?-last [] zero x h = refl
get_elem?-last [] (suc n) x h = absurd (omega (arith, h))
get_elem?-last (y ∷ xs) zero x h = absurd (omega (arith, h))
get_elem?-last (y ∷ xs) (suc n) x h = get_elem?-last xs n x (omega (arith, h))

last_column-end : (cs : List Column) (c : Column) → last_column (cs ++ c ∷ []) ≡ ok c
last_column-end [] c = refl
last_column-end (d ∷ []) c = refl
last_column-end (d ∷ e ∷ cs) c = last_column-end (e ∷ cs) c

pub at_index-found :
    (cs : List Column) (i : ℕ) {c : Column} → get_elem? cs i ≡ some c → at_index cs i ≡ ok c
at_index-found cs i h = rw (at_index, h)

-- The node of e, with the places of its operands.
abbrev pub node_of : ExprPtr → ℕ → ℕ → ℕ → DataType → Node
node_of e i j at t = record { expression = e; left = i; right = j; column_index = at; type = t }

module _ (g : Setting) (b : Batch) where
  run_nodes-append :
      (ns ms : List Node) (vs : List Column) {ws : List Column}
      → run_nodes g b ns vs ≡ ok ws
      → run_nodes g b (ns ++ ms) vs ≡ run_nodes g b ms ws
  unfolding run_nodes
  run_nodes-append [] ms vs h = ground arith
  run_nodes-append (n ∷ ns) ms vs h =
      let (c, ec, k) = >>=-eq-ok (run_node g b n vs) _ h in
      rw ec (run_nodes-append ns ms (vs ++ c ∷ []) k)

  -- The nodes that `compile` adds for e to any others, run on values for those, leave a column with
  -- P as the last value.
  abbrev pub Compiles : Schema → ExprPtr → (Column → Type 0) → Type 0
  Compiles s e P =
      (pre : List Node)
      → (ns : List Node) × (at : ℕ) × (compile e s pre ≡ ok (pre ++ ns, at))
        × ((values : List Column)
            → length values ≡ length pre
            → (cs : List Column) × (run_nodes g b ns values ≡ ok (values ++ cs))
              × (length cs ≡ length ns)
              × (c : Column) × (get_elem? (values ++ cs) at ≡ some c)
              × (last_column (values ++ cs) ≡ ok c)
              × P c)

  -- One node after those of its operands.
  add_node :
      {P : Column → Type 0} (ns : List Node) (n : Node) (at : ℕ) (values cs : List Column)
      {c : Column}
      → run_nodes g b ns values ≡ ok (values ++ cs)
      → length cs ≡ length ns
      → at ≡ length (values ++ cs)
      → run_node g b n (values ++ cs) ≡ ok c
      → P c
      → (ds : List Column) × (run_nodes g b (ns ++ n ∷ []) values ≡ ok (values ++ ds))
        × (length ds ≡ length (ns ++ n ∷ []))
        × (d : Column) × (get_elem? (values ++ ds) at ≡ some d)
        × (last_column (values ++ ds) ≡ ok d)
        × P d
  unfolding run_nodes
  add_node ns n at values cs {c} run long place h pc =
      let assoc = append_assoc values cs (c ∷ []) in
      (
        cs ++ c ∷ [],
        run_nodes-append ns (n ∷ []) values run ∙ rw h (ap ok assoc),
        rw (length-append cs (c ∷ []), length-append ns (n ∷ []), long),
        c,
        ap (λ l. get_elem? l at) (sym assoc) ∙ get_elem?-last (values ++ cs) at c place,
        ap last_column (sym assoc) ∙ last_column-end (values ++ cs) c,
        pc,
      )

  -- What `compile` makes of a node, from what it makes of the operands.
  compile-operator :
      (k : ExprKind) (id : ℕ) (v : Value) (u : DataType) (l r : ExprPtr) (s : Schema) {t : DataType}
      (pre : List Node) {p q : List Node} {i j : ℕ}
      → kind_index k == 0 ≡ false
      → expression_type (node k id v u l r) s ≡ ok t
      → compile l s pre ≡ ok (p, i)
      → compile r s p ≡ ok (q, j)
      → compile (node k id v u l r) s pre
        ≡ ok (q ++ node_of (node k id v u l r) i j 0 t ∷ [], length q)
  unfolding compile
  compile-operator k id v u l r s pre kind typed left right = rw (typed, left, right, kind)

  -- An operator with one operand, whose column has P.
  pub unary-Compiles :
      (s : Schema) {P Q : Column → Type 0} (k : ExprKind) (id : ℕ) (v : Value) (u t : DataType)
      (l : ExprPtr)
      → kind_index k == 0 ≡ false
      → expression_type (node k id v u l missing) s ≡ ok t
      → Compiles s l P
      → ((values : List Column) (i j : ℕ) (a : Column)
          → get_elem? values i ≡ some a
          → P a
          → (c : Column) × (run_node g b (node_of (node k id v u l missing) i j 0 t) values ≡ ok c)
            × Q c)
      → Compiles s (node k id v u l missing) Q
  unfolding compile
  unary-Compiles s k id v u t l kind typed left runs pre =
      let (ns, i, el, run) = left pre in
      let e = node k id v u l missing in
      let n = node_of e i 0 0 t in
      (
        ns ++ n ∷ [],
        length (pre ++ ns),
        compile-operator k id v u l missing s pre kind typed el refl
            ∙ ap (λ x. ok (x, length (pre ++ ns))) (append_assoc pre ns (n ∷ [])),
        λ values long.
            let (cs, er, many, a, found, last, pa) = run values long in
            let (c, ec, qc) = runs (values ++ cs) i 0 a found pa in
            add_node ns n (length (pre ++ ns)) values cs er many
              (omega (arith, length-append pre ns, length-append values cs, long, many)) ec qc,
      )

  -- An operator with two.
  pub binary-Compiles :
      (s : Schema) {P P' Q : Column → Type 0} (k : ExprKind) (id : ℕ) (v : Value) (u t : DataType)
      (l r : ExprPtr)
      → kind_index k == 0 ≡ false
      → expression_type (node k id v u l r) s ≡ ok t
      → Compiles s l P
      → Compiles s r P'
      → ((values : List Column) (i j : ℕ) (a c : Column)
          → get_elem? values i ≡ some a
          → P a
          → get_elem? values j ≡ some c
          → P' c
          → (d : Column) × (run_node g b (node_of (node k id v u l r) i j 0 t) values ≡ ok d) × Q d)
      → Compiles s (node k id v u l r) Q
  binary-Compiles s k id v u t l r kind typed left right runs pre =
      let (ns, i, el, run) = left pre in
      let (ms, j, er, run') = right (pre ++ ns) in
      let n = node_of (node k id v u l r) i j 0 t in
      let q = (pre ++ ns) ++ ms in
      (
        (ns ++ ms) ++ n ∷ [],
        length q,
        compile-operator k id v u l r s pre kind typed el er
            ∙ ap (λ x. ok (x, length q))
                (rw (append_assoc pre ns ms, append_assoc pre (ns ++ ms) (n ∷ []))),
        λ values long.
            let (cs, ec, many, a, found, last, pa) = run values long in
            let (ds, ed, many', c, found', last', pc) =
              run' (values ++ cs)
                (rw (length-append values cs, length-append pre ns, long, many)) in
            let assoc = append_assoc values cs ds in
            let (d, ee, qd) =
              runs ((values ++ cs) ++ ds) i j a c (get_elem?-append (values ++ cs) ds i found) pa
                found' pc in
            add_node (ns ++ ms) n (length q) values (cs ++ ds)
              (run_nodes-append ns ms values ec ∙ ed ∙ ap ok assoc)
              (rw (length-append cs ds, length-append ns ms, many, many'))
              (omega (
                arith,
                length-append (pre ++ ns) ms,
                length-append pre ns,
                length-append values (cs ++ ds),
                length-append cs ds,
                long,
                many,
                many',
              ))
              (rw (← assoc) ee) qd,
      )

  -- A node without operands.
  pub leaf-Compiles :
      (s : Schema) {Q : Column → Type 0} (k : ExprKind) (id : ℕ) (v : Value) (u t : DataType)
      (at : ℕ)
      → (if kind_index k == 0 then column_index s id else ok 0) ≡ ok at
      → expression_type (node k id v u missing missing) s ≡ ok t
      → (c : Column)
      → ((values : List Column)
          → run_node g b (node_of (node k id v u missing missing) 0 0 at t) values ≡ ok c)
      → Q c
      → Compiles s (node k id v u missing missing) Q
  unfolding compile
  leaf-Compiles s k id v u t at place typed c run qc pre =
      let n = node_of (node k id v u missing missing) 0 0 at t in
      (
        n ∷ [],
        length pre,
        rw (typed, place),
        λ values long.
            add_node [] n (length pre) values [] (unfold run_nodes in rw append-nil) refl
              (rw append-nil (sym long)) (run (values ++ [])) qc,
      )
