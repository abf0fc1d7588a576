-- ===== src/Novelty/Runs.antt =====
-- The methods of `Novelty` in novelty.ts, called one after another with any predicates: what each index
-- holds in the end.
use ramose.Base.{
  ℕ, ◌≤◌, ◌≡◌, ◌↔◌, ◌⊎◌, refl, inl, inr, Bool, true, false, List, [], ◌∷◌, arith, ltb, lt→ltb,
  ltb→lt, keep,
}
use ramose.Base.Sorted.{In, In-keep}
use ramose.Datom.{Datom, IndexId, eavt, aevt, avet, vaet}
use ramose.Novelty.{
  SortedNovelty, Novelty, by_index, empty_novelty, add, add_if_any, add_all, raise_max,
  drop_through, drop_all_through, clear, clear_all,
}
use ramose.Novelty.Flush.{IsValid, Holds, drop_through_lem}
use ramose.Novelty.Coherent.{
  Holds-add, Holds-add_if_any, add-IsValid, add_if_any-IsValid, raise_max-ge, raise_max-bound,
}

-- The methods of `Novelty` that change it. `add` takes the two predicates anew at each call.
pub data NoveltyOp : Type 0 where
  adding : List Datom → (ℕ → Bool) → (ℕ → Bool) → NoveltyOp
  dropping : ℕ → NoveltyOp
  clearing : NoveltyOp

unfoldable pub apply_op : Novelty → NoveltyOp → Novelty
apply_op n (adding ds in_avet in_vaet) = add_all ds in_avet in_vaet n
apply_op n (dropping t) = drop_all_through t n
apply_op n clearing = clear_all n

unfoldable pub run_ops : Novelty → List NoveltyOp → Novelty
unfolding apply_op
run_ops n [] = n
run_ops n (op ∷ ops) = let rest = run_ops (apply_op n op) ops in rest

-- Whether an index takes the datoms of an attribute, at a call with these predicates.
abbrev pub takes : IndexId → (ℕ → Bool) → (ℕ → Bool) → ℕ → Bool
takes eavt in_avet in_vaet a = true
takes aevt in_avet in_vaet a = true
takes avet in_avet in_vaet a = in_avet a
takes vaet in_avet in_vaet a = in_vaet a

-- The call gives the datom to the index.
abbrev pub Gives : IndexId → NoveltyOp → Datom → Type 0
Gives i (adding ds in_avet in_vaet) d = In d ds × (takes i in_avet in_vaet d.a ≡ true)
Gives i (dropping t) d = ⊥
Gives i clearing d = ⊥

-- The call does not take the datom away.
abbrev pub spares : Datom → NoveltyOp → Bool
spares d (adding ds in_avet in_vaet) = true
spares d (dropping t) = ltb t d.t
spares d clearing = false

abbrev pub IsSpared : Datom → List NoveltyOp → Type 0
IsSpared d [] = Unit
IsSpared d (op ∷ ops) = (spares d op ≡ true) × IsSpared d ops

-- Some call gives the datom to the index, and no later one takes it away.
abbrev pub Leaves : IndexId → List NoveltyOp → Datom → Type 0
Leaves i [] d = ⊥
Leaves i (op ∷ ops) d = (Gives i op d × IsSpared d ops) ⊎ Leaves i ops d

-- Each base is strictly sorted in its order, and no datom is newer than the recorded maximum.
pub record IsSound (n : Novelty) : Type 0 where
  pub valid : (i : IndexId) → IsValid (by_index n i)
  pub bounded : (i : IndexId) (d : Datom) → Holds d (by_index n i) → d.t ≤ n.max_t

-- What an index holds behind a call.
abbrev Step : IndexId → NoveltyOp → SortedNovelty → SortedNovelty → Type 0
Step i op n n' = (d : Datom) → Holds d n' ↔ ((Holds d n × (spares d op ≡ true)) ⊎ Gives i op d)

add_step :
    (ds : List Datom) (n : SortedNovelty) (d : Datom)
    → Holds d (add ds n) ↔ ((Holds d n × (true ≡ true)) ⊎ (In d ds × (true ≡ true)))
add_step ds n d =
    let (to, from) = Holds-add ds n d in
    (
      λ m. elim (to m) [ inl h ↦ inl (h, refl) | inr h ↦ inr (h, refl) ],
      elim [ inl h ↦ from (inl h.0) | inr h ↦ from (inr h.0) ],
    )

add_if_any_step :
    (f : ℕ → Bool) (ds : List Datom) (n : SortedNovelty) (d : Datom)
    → Holds d (add_if_any (keep (λ x. f x.a) ds) n)
      ↔ ((Holds d n × (true ≡ true)) ⊎ (In d ds × (f d.a ≡ true)))
add_if_any_step f ds n d =
    let (to, from) = Holds-add_if_any (keep (λ x. f x.a) ds) n d in
    let k = In-keep (λ x. f x.a) d ds in
    (
      λ m. elim (to m) [ inl h ↦ inl (h, refl) | inr h ↦ inr (k.0 h) ],
      elim [ inl h ↦ from (inl h.0) | inr h ↦ from (inr (k.1 h)) ],
    )

add_all-Step :
    (ds : List Datom) (f g : ℕ → Bool) (n : Novelty) (i : IndexId)
    → Step i (adding ds f g) (by_index n i) (by_index (add_all ds f g n) i)
unfolding add_all by_index
add_all-Step [] f g n i d = (λ m. inl (m, refl), elim [ inl h ↦ h.0 | inr h ↦ absurd h.0 ])
add_all-Step (x ∷ ds) f g n eavt d = add_step (x ∷ ds) n.by_eavt d
add_all-Step (x ∷ ds) f g n aevt d = add_step (x ∷ ds) n.by_aevt d
add_all-Step (x ∷ ds) f g n avet d = add_if_any_step f (x ∷ ds) n.by_avet d
add_all-Step (x ∷ ds) f g n vaet d = add_if_any_step g (x ∷ ds) n.by_vaet d

drop_all_through-index :
    (t : ℕ) (n : Novelty) (i : IndexId)
    → by_index (drop_all_through t n) i ≡ drop_through t (by_index n i)
unfolding drop_all_through by_index
drop_all_through-index t n eavt = refl
drop_all_through-index t n aevt = refl
drop_all_through-index t n avet = refl
drop_all_through-index t n vaet = refl

clear_all-index : (n : Novelty) (i : IndexId) → by_index (clear_all n) i ≡ clear (by_index n i)
unfolding clear_all by_index
clear_all-index n eavt = refl
clear_all-index n aevt = refl
clear_all-index n avet = refl
clear_all-index n vaet = refl

drop-Step :
    (t : ℕ) (n : SortedNovelty) (i : IndexId) → IsValid n → Step i (dropping t) n (drop_through t n)
drop-Step t n i v d =
    let (to, from) = (drop_through_lem t n v).1 d in
    (
      λ m. inl ((to m).0, lt→ltb _ _ (to m).1),
      elim [ inl h ↦ from (h.0, ltb→lt _ _ h.1) | inr h ↦ absurd h ],
    )

clear-Step : (n : SortedNovelty) (i : IndexId) → Step i clearing n (clear n)
unfolding clear
clear-Step n i d = (
  elim [ inl h ↦ absurd h | inr h ↦ absurd h ],
  elim [ inl h ↦ absurd (ground (arith, h.1)) | inr h ↦ absurd h ],
)

apply_op-Step :
    (n : Novelty) (op : NoveltyOp) (i : IndexId)
    → IsValid (by_index n i)
    → Step i op (by_index n i) (by_index (apply_op n op) i)
unfolding apply_op
apply_op-Step n (adding ds f g) i v = add_all-Step ds f g n i
apply_op-Step n (dropping t) i v = rw (drop_all_through-index t n i) (drop-Step t _ i v)
apply_op-Step n clearing i v = rw (clear_all-index n i) (clear-Step _ i)

max_t-add_all :
    (ds : List Datom) (f g : ℕ → Bool) (n : Novelty)
    → (add_all ds f g n).max_t ≡ raise_max n.max_t ds
unfolding add_all raise_max
max_t-add_all [] f g n = refl
max_t-add_all (d ∷ ds) f g n = refl

add_all-IsValid :
    (ds : List Datom) (f g : ℕ → Bool) (n : Novelty)
    → ((i : IndexId) → IsValid (by_index n i))
    → (i : IndexId) → IsValid (by_index (add_all ds f g n) i)
unfolding add_all by_index
add_all-IsValid [] f g n v i = v i
add_all-IsValid (x ∷ ds) f g n v eavt = add-IsValid (x ∷ ds) n.by_eavt (v eavt)
add_all-IsValid (x ∷ ds) f g n v aevt = add-IsValid (x ∷ ds) n.by_aevt (v aevt)
add_all-IsValid (x ∷ ds) f g n v avet = add_if_any-IsValid _ n.by_avet (v avet)
add_all-IsValid (x ∷ ds) f g n v vaet = add_if_any-IsValid _ n.by_vaet (v vaet)

clear-IsValid : (n : SortedNovelty) → IsValid (clear n)
unfolding clear
clear-IsValid n = record { sorted = tt }

apply_op-IsValid :
    (n : Novelty) (op : NoveltyOp)
    → ((i : IndexId) → IsValid (by_index n i))
    → (i : IndexId) → IsValid (by_index (apply_op n op) i)
unfolding apply_op
apply_op-IsValid n (adding ds f g) v i = add_all-IsValid ds f g n v i
apply_op-IsValid n (dropping t) v i =
    rw (drop_all_through-index t n i) (drop_through_lem t (by_index n i) (v i)).0
apply_op-IsValid n clearing v i = rw (clear_all-index n i) (clear-IsValid (by_index n i))

-- The maximum does not fall, and covers what the call gives.
apply_op-max :
    (n : Novelty) (op : NoveltyOp)
    → (n.max_t ≤ (apply_op n op).max_t)
      × ((i : IndexId) (d : Datom) → Gives i op d → d.t ≤ (apply_op n op).max_t)
unfolding apply_op drop_all_through clear_all
apply_op-max n (adding ds f g) =
    rw (max_t-add_all ds f g n) (raise_max-ge n.max_t ds, λ i d m. raise_max-bound n.max_t ds d m.0)
apply_op-max n (dropping t) = (omega arith, λ i d m. absurd m)
apply_op-max n clearing = (omega arith, λ i d m. absurd m)

apply_op-IsSound : (n : Novelty) (op : NoveltyOp) → IsSound n → IsSound (apply_op n op)
apply_op-IsSound n op s = record {
  valid = apply_op-IsValid n op s.valid;
  bounded = λ i d m.
      let (rises, covers) = apply_op-max n op in
      elim ((apply_op-Step n op i (s.valid i) d).0 m) [
        | inl h ↦ omega (arith, s.bounded i d h.0, rises)
        | inr h ↦ covers i d h
      ];
}

-- From a novelty whose bases are strictly sorted and whose recorded maximum bounds its datoms,
-- every sequence of adding datoms (each time with predicates of its own), dropping through a
-- transaction and clearing leaves such a novelty. Each of the four indexes then holds exactly the
-- datoms that it held and no call took away, and those that some call gave it and no later call
-- took away: a call of adding gives EAVT and AEVT all its datoms, and AVET and VAET those whose
-- attribute its own predicate accepts; dropping takes those up to its transaction, and clearing
-- takes all.
pub run_ops-IsSound :
    (ops : List NoveltyOp) (n : Novelty)
    → IsSound n
    → IsSound (run_ops n ops)
      × ((i : IndexId) (d : Datom)
          → Holds d (by_index (run_ops n ops) i)
            ↔ ((Holds d (by_index n i) × IsSpared d ops) ⊎ Leaves i ops d))
unfolding run_ops
run_ops-IsSound [] n s = (s, λ i d. (λ m. inl (m, tt), elim [ inl h ↦ h.0 | inr h ↦ absurd h ]))
run_ops-IsSound (op ∷ ops) n s =
    let (sound, held) = run_ops-IsSound ops (apply_op n op) (apply_op-IsSound n op s) in
    (
      sound,
      λ i d.
          let (to, from) = held i d in
          let (back, forth) = apply_op-Step n op i (s.valid i) d in
          (
            λ m. elim (to m) [
              | inl h ↦ elim (back h.0) [
                | inl k ↦ inl (k.0, (k.1, h.1))
                | inr k ↦ inr (inl (k, h.1))
              ]
              | inr h ↦ inr (inr h)
            ],
            elim [
              | inl h ↦ from (inl (forth (inl (h.0, h.1.0)), h.1.1))
              | inr (inl h) ↦ from (inl (forth (inr h.0), h.1))
              | inr (inr h) ↦ from (inr h)
            ],
          ),
    )

empty-IsValid : (i : IndexId) → IsValid (by_index empty_novelty i)
unfolding by_index
empty-IsValid eavt = record { sorted = tt }
empty-IsValid aevt = record { sorted = tt }
empty-IsValid avet = record { sorted = tt }
empty-IsValid vaet = record { sorted = tt }

empty-Holds : (i : IndexId) (d : Datom) → ¬ Holds d (by_index empty_novelty i)
unfolding by_index
empty-Holds eavt d = elim [ inl h ↦ h | inr h ↦ h ]
empty-Holds aevt d = elim [ inl h ↦ h | inr h ↦ h ]
empty-Holds avet d = elim [ inl h ↦ h | inr h ↦ h ]
empty-Holds vaet d = elim [ inl h ↦ h | inr h ↦ h ]

pub empty-IsSound : IsSound empty_novelty
empty-IsSound = record { valid = empty-IsValid; bounded = λ i d m. absurd (empty-Holds i d m) }
