-- ===== src/Novelty/Coherent.antt =====
-- `add` of `Novelty` in novelty.ts, with predicates that do not change: the four indexes hold the same
-- datoms, as the predicates let them. Runs with changing predicates are in Novelty/Runs.
use ramose.Base.{
  ℕ, ◌≤◌, ◌≡◌, ◌↔◌, ◌⊎◌, inl, inr, Bool, true, List, [], ◌∷◌, arith, ltb, keep, if◌then◌else◌,
}
use ramose.Base.Sorted.{In, In-append, In-keep}
use ramose.Datom.{Datom}
use ramose.Novelty.{SortedNovelty, Novelty, empty_novelty, add, add_if_any, add_all, raise_max}
use ramose.Novelty.Flush.{IsValid, Holds}

pub Holds-add :
    (ds : List Datom) (n : SortedNovelty) (d : Datom) → Holds d (add ds n) ↔ (Holds d n ⊎ In d ds)
unfolding add
Holds-add ds n d =
    let q = In-append d n.pending ds in (λ m. grind (arith, m, q.0), λ m. grind (arith, m, q.1))

pub Holds-add_if_any :
    (ds : List Datom) (n : SortedNovelty) (d : Datom)
    → Holds d (add_if_any ds n) ↔ (Holds d n ⊎ In d ds)
unfolding add_if_any
Holds-add_if_any [] n d = (inl, elim [ inl h ↦ h | inr h ↦ absurd h ])
Holds-add_if_any (x ∷ ds) n d = Holds-add (x ∷ ds) n d

pub add-IsValid : (ds : List Datom) (n : SortedNovelty) → IsValid n → IsValid (add ds n)
unfolding add
add-IsValid ds n v = record { sorted = v.sorted }

pub add_if_any-IsValid :
    (ds : List Datom) (n : SortedNovelty) → IsValid n → IsValid (add_if_any ds n)
unfolding add_if_any
add_if_any-IsValid [] n v = v
add_if_any-IsValid (x ∷ ds) n v = add-IsValid (x ∷ ds) n v

pub raise_max-ge : (m : ℕ) (ds : List Datom) → m ≤ raise_max m ds
unfolding raise_max
raise_max-ge m [] = omega arith
raise_max-ge m (d ∷ ds) = ground (arith, raise_max-ge (if ltb m d.t then d.t else m) ds)

pub raise_max-bound : (m : ℕ) (ds : List Datom) (d : Datom) → In d ds → d.t ≤ raise_max m ds
unfolding raise_max
raise_max-bound m [] d h = absurd h
raise_max-bound m (x ∷ ds) d (inl e) =
    ground (arith, raise_max-ge (if ltb m x.t then x.t else m) ds)
raise_max-bound m (x ∷ ds) d (inr h) = raise_max-bound (if ltb m x.t then x.t else m) ds d h

module _ (in_avet in_vaet : ℕ → Bool) where
  -- EAVT and AEVT hold the same datoms; AVET and VAET hold those whose attribute takes part.
  pub record IsCoherent (n : Novelty) : Type 0 where
    pub eavt_valid : IsValid n.by_eavt
    pub aevt_valid : IsValid n.by_aevt
    pub avet_valid : IsValid n.by_avet
    pub vaet_valid : IsValid n.by_vaet
    pub aevt_same : (d : Datom) → Holds d n.by_aevt ↔ Holds d n.by_eavt
    pub avet_part : (d : Datom) → Holds d n.by_avet ↔ (Holds d n.by_eavt × (in_avet d.a ≡ true))
    pub vaet_part : (d : Datom) → Holds d n.by_vaet ↔ (Holds d n.by_eavt × (in_vaet d.a ≡ true))
    pub max_bound : (d : Datom) → Holds d n.by_eavt → d.t ≤ n.max_t

  pub add_all-IsCoherent :
      (ds : List Datom) (n : Novelty) → IsCoherent n → IsCoherent (add_all ds in_avet in_vaet n)
  unfolding add_all
  add_all-IsCoherent [] n v = v
  add_all-IsCoherent (x ∷ xs) n v =
      let ds = x ∷ xs in
      record {
        eavt_valid = add-IsValid ds n.by_eavt v.eavt_valid;
        aevt_valid = add-IsValid ds n.by_aevt v.aevt_valid;
        avet_valid = add_if_any-IsValid _ n.by_avet v.avet_valid;
        vaet_valid = add_if_any-IsValid _ n.by_vaet v.vaet_valid;
        aevt_same = λ d.
            let p = Holds-add ds n.by_eavt d in
            let q = Holds-add ds n.by_aevt d in
            let r = v.aevt_same d in
            (λ m. grind (arith, q.0 m, r.0, p.1), λ m. grind (arith, p.0 m, r.1, q.1));
        avet_part = λ d. part_add in_avet n.by_avet n.by_eavt ds d (v.avet_part d);
        vaet_part = λ d. part_add in_vaet n.by_vaet n.by_eavt ds d (v.vaet_part d);
        max_bound = λ d m. elim ((Holds-add ds n.by_eavt d).0 m) [
          | inl h ↦ omega (arith, v.max_bound d h, raise_max-ge n.max_t ds)
          | inr h ↦ raise_max-bound n.max_t ds d h
        ];
      }
    where
      part_add :
          (f : ℕ → Bool) (part full : SortedNovelty) (ds : List Datom) (d : Datom)
          → Holds d part ↔ (Holds d full × (f d.a ≡ true))
          → Holds d (add_if_any (keep (λ y. f y.a) ds) part)
            ↔ (Holds d (add ds full) × (f d.a ≡ true))
      part_add f part full ds d h =
          let p = Holds-add ds full d in
          let q = Holds-add_if_any (keep (λ y. f y.a) ds) part d in
          let k = In-keep (λ y. f y.a) d ds in
          (
            λ m. elim (q.0 m) [
              | inl u ↦ (p.1 (inl (h.0 u).0), (h.0 u).1)
              | inr u ↦ (p.1 (inr (k.0 u).0), (k.0 u).1)
            ],
            λ m. elim (p.0 m.0) [
              | inl u ↦ q.1 (inl (h.1 (u, m.1)))
              | inr u ↦ q.1 (inr (k.1 (u, m.1)))
            ],
          )

  pub empty-IsCoherent : IsCoherent empty_novelty
  empty-IsCoherent = record {
    eavt_valid = record { sorted = tt };
    aevt_valid = record { sorted = tt };
    avet_valid = record { sorted = tt };
    vaet_valid = record { sorted = tt };
    aevt_same = λ d. (λ m. m, λ m. m);
    avet_part = λ d. (elim [ inl h ↦ absurd h | inr h ↦ absurd h ], λ m. m.0);
    vaet_part = λ d. (elim [ inl h ↦ absurd h | inr h ↦ absurd h ], λ m. m.0);
    max_bound = elim_none;
  }
    where
      elim_none : (d : Datom) → Holds d empty_novelty.by_eavt → d.t ≤ 0
      elim_none d (inl h) = absurd h
      elim_none d (inr h) = absurd h
