-- ===== src/Novelty.antt =====
-- packages/ramose/src/internal/core/novelty.ts: the datoms newer than the index root. The merge
-- with a tree scan and the collapse into present facts are the modules `Merge` and `Collapse`.
mod Sort
pub mod Flush
pub mod Collapse
pub mod Facts
pub mod Steps
pub mod Present
pub mod View
pub mod Merge
pub mod Coherent
pub mod Runs
pub mod Indexes
pub mod Chunks
unfoldable pub use Sort.{sort_by, dedup_after, dedup}
use ramose.Base.{
  ℕ, ◌+◌, Bool, true, false, Option, none, some, List, [], ◌∷◌, ◌++◌, Ordering, ltb, leb, length,
  if◌then◌else◌, keep,
}
use ramose.Datom.{Datom, IndexId, eavt, aevt, avet, vaet, Prefix, comparator_for}
use ramose.Tree.{Chunk, lower_bound, upper_bound, sorted_union}

-- One index: `base` is sorted, `pending` was added since the last read.
pub record SortedNovelty : Type 0 where
  pub index : IndexId
  pub base : List Datom
  pub pending : List Datom

abbrev pub new_novelty : IndexId → SortedNovelty
new_novelty i = record { index = i; base = []; pending = [] }

unfoldable pub size : SortedNovelty → ℕ
size n = length n.base + length n.pending

unfoldable pub add : List Datom → SortedNovelty → SortedNovelty
add datoms n = record n { pending = n.pending ++ datoms }

-- `this.base.length === 0 ? dp : sortedUnion(this.cmp, this.base, dp)`
unfoldable pub absorb : IndexId → List Datom → List Datom → List Datom
absorb i [] dp = dp
absorb i (d ∷ ds) dp = sorted_union (comparator_for i) (d ∷ ds) dp

unfoldable pub flush_pending : SortedNovelty → List Datom → SortedNovelty
flush_pending n [] = n
flush_pending n (d ∷ ds) = record n {
  base =
      absorb n.index n.base
        (dedup (comparator_for n.index) (sort_by (comparator_for n.index) (d ∷ ds)));
  pending = [];
}

-- The state that `flush` leaves; what it returns is its `base`.
unfoldable pub flush : SortedNovelty → SortedNovelty
unfolding flush_pending absorb
flush n = flush_pending n n.pending

-- `all()`, with the state behind it.
unfoldable pub all : SortedNovelty → SortedNovelty × List Datom
all n = let n' = flush n in (n', n'.base)

range_in : IndexId → List Datom → Prefix → Option Chunk
range_in i [] p = none
range_in i (d ∷ ds) p =
    let s = lower_bound i (d ∷ ds) p in
    let e = upper_bound i (d ∷ ds) p in
    if leb (length (d ∷ ds)) s
    then none
    else if leb e s
    then none
    else some (record { datoms = d ∷ ds; start = s; end = e })

unfoldable pub range : SortedNovelty → Prefix → SortedNovelty × Option Chunk
unfolding range_in
range n p = let n' = flush n in (n', range_in n'.index n'.base p)

unfoldable pub drop_through : ℕ → SortedNovelty → SortedNovelty
drop_through max_t n = let n' = flush n in record n' { base = keep (λ d. ltb max_t d.t) n'.base }

unfoldable pub clear : SortedNovelty → SortedNovelty
clear n = record n { base = []; pending = [] }

-- All four indexes.
pub record Novelty : Type 0 where
  pub by_eavt : SortedNovelty
  pub by_aevt : SortedNovelty
  pub by_avet : SortedNovelty
  pub by_vaet : SortedNovelty
  pub count_field : ℕ
  pub max_t : ℕ

-- `byIndex[index]`
unfoldable pub by_index : Novelty → IndexId → SortedNovelty
by_index n eavt = n.by_eavt
by_index n aevt = n.by_aevt
by_index n avet = n.by_avet
by_index n vaet = n.by_vaet

abbrev pub empty_novelty : Novelty
empty_novelty = record {
  by_eavt = new_novelty eavt;
  by_aevt = new_novelty aevt;
  by_avet = new_novelty avet;
  by_vaet = new_novelty vaet;
  count_field = 0;
  max_t = 0;
}

-- `if (d.t > this._maxT) this._maxT = d.t;`, for every datom
unfoldable pub raise_max : ℕ → List Datom → ℕ
raise_max m [] = m
raise_max m (d ∷ ds) = raise_max (if ltb m d.t then d.t else m) ds

-- `if (av.length) this.byIndex[2].add(av);`
unfoldable pub add_if_any : List Datom → SortedNovelty → SortedNovelty
unfolding add
add_if_any [] n = n
add_if_any (d ∷ ds) n = add (d ∷ ds) n

unfoldable pub add_all : List Datom → (ℕ → Bool) → (ℕ → Bool) → Novelty → Novelty
unfolding add_if_any add raise_max
add_all [] in_avet in_vaet n = n
add_all (d ∷ ds) in_avet in_vaet n = record {
  by_eavt = add (d ∷ ds) n.by_eavt;
  by_aevt = add (d ∷ ds) n.by_aevt;
  by_avet = add_if_any (keep (λ x. in_avet x.a) (d ∷ ds)) n.by_avet;
  by_vaet = add_if_any (keep (λ x. in_vaet x.a) (d ∷ ds)) n.by_vaet;
  count_field = n.count_field + length (d ∷ ds);
  max_t = raise_max n.max_t (d ∷ ds);
}

unfoldable pub count : Novelty → ℕ
unfolding size
count n = size n.by_eavt

unfoldable pub drop_all_through : ℕ → Novelty → Novelty
unfolding drop_through size
drop_all_through max_t n =
    let e = drop_through max_t n.by_eavt in
    record n {
      by_eavt = e;
      by_aevt = drop_through max_t n.by_aevt;
      by_avet = drop_through max_t n.by_avet;
      by_vaet = drop_through max_t n.by_vaet;
      count_field = size e;
    }

unfoldable pub clear_all : Novelty → Novelty
unfolding clear
clear_all n = record n {
  by_eavt = clear n.by_eavt;
  by_aevt = clear n.by_aevt;
  by_avet = clear n.by_avet;
  by_vaet = clear n.by_vaet;
  count_field = 0;
}
