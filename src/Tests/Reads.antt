-- ===== src/Tests/Reads.antt =====
-- The theorems on orders, searches, novelty and views, on the small history.
use ramose.Base.{
  ℕ, ◌<◌, ◌^◌, max, ◌≡◌, ◌↔◌, ◌⊎◌, refl, Bool, true, false, some, List, [], ◌∷◌, arith, Ordering,
  ◌==◌, keep, slice, length, concat,
}
use ramose.Base.Order.{IsWeakOrder}
use ramose.Base.Sorted.{In, IsSorted}
use ramose.Datom.{
  Datom, IndexId, eavt, avet, comparator_for, cmp_eavt, tag, compare_prefix, compare_value,
  compare_payload, value_equals, long, str,
}
use ramose.Datom.Order.{comparator_for-IsWeakOrder, comparator_for-eq}
use ramose.Datom.Ranges.{IsMonotone, compare_prefix-IsMonotone}
use ramose.Datom.Values.{value_equals-compare}
use ramose.Base.Int.{pos, compare_ℤ}
use ramose.Tree.{
  lower_bound, upper_bound, lower_bound_from, upper_bound_from, sorted_union, chunk_datoms,
}
use ramose.Tree.Bounds.{is_eq, slice-bounds, bounds_from}
use ramose.Tree.Union.{sorted_union_lem}
use ramose.Novelty.{
  by_index, range, flush, all, drop_through, empty_novelty, flush_pending, absorb, sort_by, dedup,
  dedup_after,
}
use ramose.Novelty.Flush.{IsValid, Holds, Finds, range_lem, all_lem, drop_through_lem}
use ramose.Novelty.Collapse.{visible, collapse_current, same_fact}
use ramose.Novelty.Present.{present, superseded, collapse_current-present}
use ramose.Novelty.View.{current_view}
use ramose.Tree.Chunks.{stream}
use ramose.Novelty.View.Stream.{current_view-present}
use ramose.Novelty.Merge.{merge_chunks}
use ramose.Novelty.Merge.Whole.{merge_chunks-union}
use ramose.Novelty.Runs.{
  NoveltyOp, adding, dropping, run_ops, IsSpared, Leaves, IsSound, run_ops-IsSound, empty-IsSound,
}
use ramose.Tests.Data.{
  fact, gone, history, history-IsSorted, leaf, part, newer, leaf-IsChunk, part-IsChunk,
  newer-IsChunk, stream-IsSorted, one_entity, novelty, novelty-IsValid,
}

-- The present facts of the history, at its end and as of transaction 100.
present_facts : present history ≡ fact 1 7 101 ∷ fact 2 5 102 ∷ []
unfolding present superseded same_fact value_equals compare_ℤ
present_facts = refl

current_view-present_example :
    concat (current_view (leaf ∷ part ∷ []) (some 101))
    ≡ present (keep (visible (some 101)) (stream (leaf ∷ part ∷ [])))
current_view-present_example =
    current_view-present eavt (some 101) (leaf ∷ part ∷ []) (leaf-IsChunk, (part-IsChunk, tt))
      stream-IsSorted

collapse_current-present_example :
    collapse_current (some 100) history ≡ present (keep (visible (some 100)) history)
collapse_current-present_example = collapse_current-present eavt (some 100) history history-IsSorted

merge_chunks-union_example :
    stream (merge_chunks (comparator_for eavt) (leaf ∷ part ∷ []) (some newer))
    ≡ sorted_union (comparator_for eavt) (stream (leaf ∷ part ∷ [])) (chunk_datoms newer)
merge_chunks-union_example =
    merge_chunks-union (comparator_for eavt) (comparator_for-IsWeakOrder eavt) (leaf ∷ part ∷ [])
      newer (leaf-IsChunk, (part-IsChunk, tt)) newer-IsChunk stream-IsSorted

-- Attribute 10 is added before and after it takes part in AVET.
abbrev never : ℕ → Bool
never a = false

abbrev indexed : ℕ → Bool
indexed a = a == 10

abbrev calls : List NoveltyOp
calls = adding history never never ∷ dropping 100 ∷ adding (gone 1 7 103 ∷ []) indexed never ∷ []

run_ops-IsSound_example :
    IsSound (run_ops empty_novelty calls)
    × ((i : IndexId) (d : Datom)
        → Holds d (by_index (run_ops empty_novelty calls) i)
          ↔ ((Holds d (by_index empty_novelty i) × IsSpared d calls) ⊎ Leaves i calls d))
run_ops-IsSound_example = run_ops-IsSound calls empty_novelty empty-IsSound

short_enough : length (flush novelty).base < 2 ^ 31
unfolding flush flush_pending absorb sort_by dedup dedup_after sorted_union comparator_for cmp_eavt
    compare_value compare_payload compare_ℤ tag
short_enough = omega arith

range_lem_example :
    ((range novelty one_entity).0 ≡ flush novelty)
    × Finds
        (flush novelty).base
        (keep (λ d. is_eq (compare_prefix eavt d one_entity)) (flush novelty).base)
        (range novelty one_entity).1
range_lem_example = range_lem novelty one_entity novelty-IsValid short_enough

slice-bounds_example :
    slice history (lower_bound eavt history one_entity) (upper_bound eavt history one_entity)
    ≡ keep (λ d. is_eq (compare_prefix eavt d one_entity)) history
slice-bounds_example = slice-bounds eavt history one_entity history-IsSorted (omega arith)

bounds_from_example :
    (lower_bound_from (compare_prefix eavt) history one_entity 2
      ≡ max 2 (lower_bound eavt history one_entity))
    × (upper_bound_from (compare_prefix eavt) history one_entity 2
        ≡ max 2 (upper_bound eavt history one_entity))
bounds_from_example =
    bounds_from eavt history one_entity history-IsSorted (omega arith) 2 (omega arith)

sorted_union_lem_example :
    IsSorted (comparator_for eavt) (sorted_union (comparator_for eavt) history novelty.base)
    × ((x : Datom)
        → In x (sorted_union (comparator_for eavt) history novelty.base)
          ↔ (In x history ⊎ In x novelty.base))
sorted_union_lem_example =
    sorted_union_lem (comparator_for-IsWeakOrder eavt) (comparator_for-eq eavt) history novelty.base
      history-IsSorted novelty-IsValid.sorted

all_lem_example :
    IsSorted (comparator_for eavt) (all novelty).1
    × ((d : Datom) → In d (all novelty).1 ↔ Holds d novelty)
    × IsValid (all novelty).0
    × ((d : Datom) → Holds d (all novelty).0 ↔ Holds d novelty)
    × ((all novelty).0.pending ≡ [])
all_lem_example = all_lem novelty novelty-IsValid

drop_through_lem_example :
    IsValid (drop_through 100 novelty)
    × ((d : Datom) → Holds d (drop_through 100 novelty) ↔ (Holds d novelty × (100 < d.t)))
drop_through_lem_example = drop_through_lem 100 novelty novelty-IsValid

comparator_for-IsWeakOrder_example : IsWeakOrder (comparator_for avet)
comparator_for-IsWeakOrder_example = comparator_for-IsWeakOrder avet

same_datom : comparator_for eavt (fact 1 5 100) (fact 1 5 100) ≡ Ordering.eq
unfolding comparator_for cmp_eavt compare_value compare_payload compare_ℤ
same_datom = refl

comparator_for-eq_example : fact 1 5 100 ≡ fact 1 5 100
comparator_for-eq_example = comparator_for-eq eavt (fact 1 5 100) (fact 1 5 100) same_datom

compare_prefix-IsMonotone_example :
    IsMonotone (comparator_for eavt) (λ d. compare_prefix eavt d one_entity)
compare_prefix-IsMonotone_example = compare_prefix-IsMonotone eavt one_entity

value_equals-compare_example :
    ((value_equals (long (pos 5)) (str []) ≡ true)
      ↔ (compare_value (long (pos 5)) (str []) ≡ Ordering.eq))
    × ((value_equals (long (pos 5)) (str []) ≡ true) ↔ (long (pos 5) ≡ str []))
value_equals-compare_example = value_equals-compare (long (pos 5)) (str [])
