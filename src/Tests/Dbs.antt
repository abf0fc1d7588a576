-- ===== src/Tests/Dbs.antt =====
-- A snapshot over the stored tree of `Tests.Trees`, and its reads.
use ramose.Base.{
  ◌≤◌, ◌<◌, ◌^◌, ◌≡◌, refl, false, some, List, All, arith, keep, length, concat, get_elem?,
}
use ramose.Base.Int.{compare_ℤ}
use ramose.Datom.{
  Datom, eavt, aevt, avet, vaet, comparator_for, cmp_eavt, tag, compare_value, compare_payload,
}
use ramose.Tree.{sorted_union}
use ramose.Novelty.{flush, new_novelty, flush_pending, absorb, sort_by, dedup, dedup_after}
use ramose.Novelty.Collapse.{visible}
use ramose.Novelty.Present.{present}
use ramose.Novelty.View.Arrays.{AreArrays}
use ramose.Schema.Projection.{empty_schema}
use ramose.Novelty.{by_index}
use ramose.Db.{Roots, root_for, Db, effective_t, datoms, datoms_array, first, history}
use ramose.Db.Reads.{matches, IsIndexed, contents, datoms-present, first-datoms_array}
use ramose.Db.History.{datoms-history}
use ramose.Db.Repeat.{datoms-datoms}
use ramose.Tests.Data.{novelty, novelty-IsValid, one_entity}
use ramose.Tests.Data
use ramose.Tests.Trees.{counting, nodes, root, root-IsTree}

abbrev roots : Roots
roots = record { t = 102; eavt_root = root; aevt_root = root; avet_root = root; vaet_root = root }

abbrev snapshot : Db counting
snapshot = record {
  state = nodes;
  roots = roots;
  novelty = record {
    by_eavt = novelty;
    by_aevt = new_novelty aevt;
    by_avet = new_novelty avet;
    by_vaet = new_novelty vaet;
    count_field = 2;
    max_t = 103;
  };
  basis_t = 103;
  schema = empty_schema;
  next_eid = 10;
  as_of_t = some 102;
  is_history = false;
}

abbrev past : Db counting
past = history snapshot

base_short : length (flush novelty).base < 2 ^ 31
unfolding flush flush_pending absorb sort_by dedup dedup_after sorted_union comparator_for cmp_eavt
    compare_value compare_payload compare_ℤ tag
base_short = omega arith

novelty_old : All (λ d. d.t ≤ 103) (flush novelty).base
unfolding flush flush_pending absorb sort_by dedup dedup_after sorted_union comparator_for cmp_eavt
    compare_value compare_payload compare_ℤ tag
novelty_old = (omega arith, (omega arith, (omega arith, (omega arith, tt))))

snapshot-IsIndexed : IsIndexed counting snapshot eavt Data.history 1 10
unfolding root_for by_index
snapshot-IsIndexed = record {
  tree = root-IsTree;
  some_datom = λ k. omega arith;
  tree_sorted = Data.history-IsSorted;
  tree_short = omega arith;
  novelty_index = refl;
  novelty_valid = novelty-IsValid;
  novelty_short = base_short;
  enough = omega arith;
}

past-IsIndexed : IsIndexed counting past eavt Data.history 1 10
unfolding root_for by_index history
past-IsIndexed = record {
  tree = root-IsTree;
  some_datom = λ k. omega arith;
  tree_sorted = Data.history-IsSorted;
  tree_short = omega arith;
  novelty_index = refl;
  novelty_valid = novelty-IsValid;
  novelty_short = base_short;
  enough = omega arith;
}

datoms-present_example :
    (arrs : List (List Datom)) × ((datoms 10 eavt one_entity snapshot).0 ≡ some arrs)
    × (concat arrs
        ≡ present (
            keep
              (visible (some (effective_t snapshot)))
              (keep (matches eavt one_entity) (contents snapshot eavt Data.history))))
    × AreArrays arrs
datoms-present_example =
    datoms-present snapshot eavt one_entity Data.history 1 10 snapshot-IsIndexed refl

datoms-history_example :
    (arrs : List (List Datom)) × ((datoms 10 eavt one_entity past).0 ≡ some arrs)
    × (concat arrs
        ≡ keep
            (visible (some (effective_t past)))
            (keep (matches eavt one_entity) (contents past eavt Data.history)))
unfolding history by_index
datoms-history_example =
    datoms-history past eavt one_entity Data.history 1 10 past-IsIndexed refl
      (omega arith, (omega arith, (omega arith, (omega arith, tt)))) novelty_old

first-datoms_array_example :
    (ys : List Datom) × ((datoms_array 10 eavt one_entity snapshot).0 ≡ some ys)
    × ((first 10 eavt one_entity snapshot).0 ≡ some (get_elem? ys 0))
first-datoms_array_example =
    first-datoms_array snapshot eavt one_entity Data.history 1 10 snapshot-IsIndexed refl

datoms-datoms_example :
    (datoms 10 eavt one_entity (datoms 10 aevt one_entity snapshot).1).0
    ≡ (datoms 10 eavt one_entity snapshot).0
datoms-datoms_example = datoms-datoms snapshot aevt eavt one_entity one_entity 10 10
