-- ===== src/Upstream/Subsets/Hosts/Update.antt =====
-- subsetlbimpl.go: the hosts of a subset after an update.
use psh_mosn.Base.{
  ◌≡◌, refl, ap, ◌∙◌, inl, inr, Bool, true, false, not, ◌&&◌, ◌||◌, Bool-cases, Option, none, some,
  List, [], ◌∷◌, ◌++◌, arith, by_true, by_false,
}
use psh_mosn.Base.Strings.{str_eq_iff}
use psh_mosn.Upstream.{Host, health}
use psh_mosn.Upstream.Cluster.Matching.{
  same_address, listed, without, where_is, Distinct, listed_same, Distinct-without,
}
use psh_mosn.Upstream.Subsets.Hosts.{add_missing, remove_each, update_host_subset}
use psh_mosn.Upstream.Subsets.Hosts.Removal.{remove_loop-without, listed-append}

Distinct-append :
    (hs : List Host) (h : Host) → Distinct hs → listed hs h ≡ false → Distinct (hs ++ h ∷ [])
Distinct-append [] h d e = (refl, tt)
Distinct-append (x ∷ hs) h d e = (
  listed-append hs (h ∷ []) x
      ∙ ground (
        arith,
        d.0,
        str_eq_iff h.address_string x.address_string,
        str_eq_iff x.address_string h.address_string,
      ),
  Distinct-append hs h d.1 (ground arith),
)

-- What is known of the hosts in the end: `present` says which addresses there are.
abbrev Holds : (Host → Bool) → List Host → Type 0
Holds present hs = Distinct hs × ((a : Host) → listed hs a ≡ present a)

Holds-change :
    (p q : Host → Bool) (hs : List Host) → ((a : Host) → p a ≡ q a) → Holds p hs → Holds q hs
Holds-change p q hs same h = (h.0, λ a. h.1 a ∙ same a)

-- A host whose address is there already adds none.
listed_already :
    (hs : List Host) (h a : Host) (rest : Bool)
    → listed hs h ≡ true
    → (listed hs a || rest) ≡ (listed hs a || (same_address a h || rest))
listed_already hs h a rest e = elim (Bool-cases (same_address a h)) [
  | inl same ↦ let there = listed_same a h hs same ∙ e in ground arith
  | inr other ↦ ground arith
]

add_missing-Holds :
    (hs added : List Host)
    → Distinct hs
    → Holds (λ a. listed hs a || listed added a) (add_missing hs added)
add_missing-Holds hs [] d = (d, λ a. ground arith)
add_missing-Holds hs (h ∷ added) d = elim (Bool-cases (listed hs h)) [
  | inl e ↦
      by_true (λ l. Holds (λ a. listed hs a || listed (h ∷ added) a) (add_missing l added))
        (listed hs h) hs (hs ++ h ∷ []) e
        (Holds-change (λ a. listed hs a || listed added a)
          (λ a. listed hs a || listed (h ∷ added) a) (add_missing hs added)
          (λ a. listed_already hs h a (listed added a) e) (add_missing-Holds hs added d))
  | inr e ↦
      by_false (λ l. Holds (λ a. listed hs a || listed (h ∷ added) a) (add_missing l added))
        (listed hs h) hs (hs ++ h ∷ []) e
        (Holds-change (λ a. listed (hs ++ h ∷ []) a || listed added a)
          (λ a. listed hs a || listed (h ∷ added) a) (add_missing (hs ++ h ∷ []) added)
          (λ a. ground (arith, listed-append hs (h ∷ []) a))
          (add_missing-Holds (hs ++ h ∷ []) added (Distinct-append hs h d e)))
]

listed-without_all :
    (h a : Host) (hs : List Host)
    → listed (without h hs) a ≡ (listed hs a && not (same_address a h))
listed-without_all h a [] = refl
listed-without_all h a (x ∷ hs) = ground (
  arith,
  listed-without_all h a hs,
  str_eq_iff h.address_string x.address_string,
  str_eq_iff a.address_string x.address_string,
  str_eq_iff a.address_string h.address_string,
)

remove_each-Holds :
    (hs removed : List Host)
    → Distinct hs
    → (final : List Host) × (remove_each hs removed ≡ some final)
      × Holds (λ a. listed hs a && not (listed removed a)) final
remove_each-Holds hs [] d = (hs, refl, (d, λ a. ground arith))
remove_each-Holds hs (h ∷ removed) d =
    let (final, e, holds) = remove_each-Holds (without h hs) removed (Distinct-without h hs d) in
    let next : remove_each hs (h ∷ removed) ≡ remove_each (without h hs) removed =
      ap
        (λ o. elim o as (λ x. Option (List Host)) [
          | none ↦ none
          | some rest ↦ remove_each rest removed
        ])
        (remove_loop-without h [] hs d) in
    (
      final,
      next ∙ e,
      Holds-change (λ a. listed (without h hs) a && not (listed removed a))
          (λ a. listed hs a && not (listed (h ∷ removed) a)) final
          (λ a. ground (arith, listed-without_all h a hs)) holds,
    )

-- Hosts of a subset, no two with one address, are updated with hosts that are added and removed. This does not panic,
-- no two of the hosts that it gives have one address, and an address is among them where it is that of a host there
-- was, or of one that is added and satisfies the predicate of the subset, and not that of one that is removed and
-- satisfies it. The healthy hosts are those of them that are healthy.
pub update_host_subset-listed :
    (predicate : Host → Bool) (hs added removed : List Host)
    → Distinct hs
    → (final : List Host) × (update_host_subset predicate hs added removed
        ≡ some (final, where_is health final))
      × Distinct final
      × ((a : Host)
          → listed final a ≡ (
              (listed hs a || listed (where_is predicate added) a)
              && not (listed (where_is predicate removed) a)))
unfolding update_host_subset
update_host_subset-listed predicate hs added removed d =
    let (distinct, there) = add_missing-Holds hs (where_is predicate added) d in
    let (final, e, (distinct', there')) =
      remove_each-Holds (add_missing hs (where_is predicate added)) (where_is predicate removed)
        distinct in
    (
      final,
      ap
          (λ o. elim o as (λ x. Option (List Host × List Host)) [
            | none ↦ none
            | some f ↦ some (f, where_is health f)
          ])
          e,
      distinct',
      λ a. there' a ∙ ap (λ b. b && not (listed (where_is predicate removed) a)) (there a),
    )
