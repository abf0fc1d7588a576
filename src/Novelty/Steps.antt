-- ===== src/Novelty/Steps.antt =====
-- Single rounds of the loops of `isPlainChunk` and `collapseCurrent`.
use ramose.Base.{ℕ, ◌≡◌, true, false, Option, none, some, List, ◌∷◌, ◌++◌, append_assoc, arith}
use ramose.Datom.{Datom}
use ramose.Novelty.Collapse.{
  same_fact, visible, plain_after, emit, continues, collapse_loop, collapse_from,
}

module _ (as_of : Option ℕ) where
  pub collapse_skip :
      (p : Option Datom) (d : Datom) (ds : List Datom)
      → visible as_of d ≡ false
      → collapse_from as_of p (d ∷ ds) ≡ collapse_from as_of p ds
  unfolding collapse_from
  collapse_skip p d ds v = rw (v, collapse_loop)

  pub collapse_cont :
      (p d : Datom) (ds : List Datom)
      → visible as_of d ≡ true
      → same_fact p d ≡ true
      → collapse_from as_of (some p) (d ∷ ds) ≡ collapse_from as_of (some d) ds
  unfolding collapse_from continues
  collapse_cont p d ds v e = rw (v, collapse_loop) (rw e)

  pub collapse_new :
      (p d : Datom) (ds : List Datom)
      → visible as_of d ≡ true
      → same_fact p d ≡ false
      → collapse_from as_of (some p) (d ∷ ds) ≡ emit (some p) ++ collapse_from as_of (some d) ds
  unfolding collapse_from continues
  collapse_new p d ds v e =
      let r = collapse_loop as_of (some d) ds in
      rw (v, collapse_loop) (rw e (append_assoc (emit (some p)) r.0 (emit r.1)))

  pub collapse_first :
      (d : Datom) (ds : List Datom)
      → visible as_of d ≡ true
      → collapse_from as_of none (d ∷ ds) ≡ collapse_from as_of (some d) ds
  unfolding collapse_from continues emit
  collapse_first d ds v = rw (v, collapse_loop)

  pub plain_parts :
      (p d : Datom) (ds : List Datom)
      → plain_after as_of p (d ∷ ds) ≡ true
      → (d.op ≡ true)
        × (visible as_of d ≡ true)
        × (same_fact p d ≡ false)
        × (plain_after as_of d ds ≡ true)
  unfolding plain_after
  plain_parts p d ds h = (ground arith, ground arith, ground arith, ground arith)

  pub loop_skip :
      (p : Option Datom) (d : Datom) (ds : List Datom)
      → visible as_of d ≡ false
      → collapse_loop as_of p (d ∷ ds) ≡ collapse_loop as_of p ds
  loop_skip p d ds v = unfold collapse_loop in rw v

  pub loop_cont :
      (p : Option Datom) (d : Datom) (ds : List Datom)
      → visible as_of d ≡ true
      → continues p d ≡ true
      → collapse_loop as_of p (d ∷ ds) ≡ collapse_loop as_of (some d) ds
  loop_cont p d ds v e = unfold collapse_loop in rw v (rw e)

  pub loop_new :
      (p : Option Datom) (d : Datom) (ds : List Datom)
      → visible as_of d ≡ true
      → continues p d ≡ false
      → collapse_loop as_of p (d ∷ ds)
        ≡ (emit p ++ (collapse_loop as_of (some d) ds).0, (collapse_loop as_of (some d) ds).1)
  loop_new p d ds v e = unfold collapse_loop in rw v (rw e)
