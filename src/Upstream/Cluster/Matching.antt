-- ===== src/Upstream/Cluster/Matching.antt =====
-- concreteclusters.go: hosts that are matched by their addresses.
use psh_mosn.Base.{
  ◌≡◌, refl, sym, ap, ◌∙◌, inl, inr, Bool, true, false, not, ◌||◌, List, [], ◌∷◌, map, arith,
  if◌then◌else◌, Bool-cases,
}
use psh_mosn.Base.Strings.{GoString, str_eq, str_eq_iff}
use psh_mosn.Upstream.{Host, set_weight}
use psh_mosn.Upstream.Cluster.{contains, take_matching, with_host, Update}

abbrev pub same_address : Host → Host → Bool
same_address a b = str_eq a.address_string b.address_string

abbrev pub listed : List Host → Host → Bool
listed [] a = false
listed (h ∷ hs) a = same_address a h || listed hs a

-- The hosts that satisfy a test, in their order.
abbrev pub where_is : (Host → Bool) → List Host → List Host
where_is p [] = []
where_is p (h ∷ hs) = let rest = where_is p hs in if p h then h ∷ rest else rest

-- The first of the hosts with each address that is not one of `seen`.
abbrev pub firsts : List GoString → List Host → List Host
firsts seen [] = []
firsts seen (h ∷ hs) =
    let skipped = firsts seen hs in
    let more = firsts (h.address_string ∷ seen) hs in
    if contains h.address_string seen then skipped else h ∷ more

-- The current host with the address of a new one, with the weight of that; or else the new one.
abbrev pub picked : List Host → Host → Host
picked [] n = n
picked (c ∷ cs) n =
    let rest = picked cs n in if same_address n c then record c { weight = n.weight } else rest

abbrev pub Distinct : List Host → Type 0
Distinct [] = Unit {0}
Distinct (h ∷ hs) = (listed hs h ≡ false) × Distinct hs

abbrev pub without : Host → List Host → List Host
without n hs = where_is (λ h. not (same_address n h)) hs

pub take_matching-rest : (n : Host) (cs : List Host) → (take_matching n cs).1 ≡ without n cs
unfolding take_matching
take_matching-rest n [] = refl
take_matching-rest n (c ∷ cs) = elim (Bool-cases (same_address n c)) [
  | inl e ↦ rw e (take_matching-rest n cs)
  | inr e ↦ rw e (ap (λ q. c ∷ q) (take_matching-rest n cs))
]

take_matching-unlisted :
    (n : Host) (cs : List Host) → listed cs n ≡ false → (take_matching n cs).0 ≡ []
unfolding take_matching
take_matching-unlisted n [] h = refl
take_matching-unlisted n (c ∷ cs) h = elim (Bool-cases (same_address n c)) [
  | inl e ↦ let q : true ≡ false = rw e at h in absurd cc
  | inr e ↦ rw e (take_matching-unlisted n cs (rw e at h))
]

pub listed_same :
    (a b : Host) (cs : List Host) → same_address a b ≡ true → listed cs a ≡ listed cs b
listed_same a b [] e = refl
listed_same a b (c ∷ cs) e = ground (
  arith,
  listed_same a b cs e,
  str_eq_iff a.address_string b.address_string,
  str_eq_iff a.address_string c.address_string,
  str_eq_iff b.address_string c.address_string,
)

take_matching-listed :
    (n : Host) (cs : List Host)
    → Distinct cs
    → listed cs n ≡ true
    → (take_matching n cs).0 ≡ picked cs n ∷ []
unfolding take_matching set_weight
take_matching-listed n [] d h = absurd cc
take_matching-listed n (c ∷ cs) d h = elim (Bool-cases (same_address n c)) [
  | inl e ↦ rw (e, take_matching-unlisted n cs (listed_same n c cs e ∙ d.0)) refl
  | inr e ↦ rw e (take_matching-listed n cs d.1 (rw e at h))
]

-- One new host with an address that has not been seen.
pub with_host-matching :
    (n : Host) (cs : List Host) (u : Update)
    → Distinct cs
    → with_host n (take_matching n cs).0 u ≡ record {
      final_hosts = picked cs n ∷ u.final_hosts;
      hosts_added = if not (listed cs n) then n ∷ u.hosts_added else u.hosts_added;
      hosts_removed = u.hosts_removed;
    }
unfolding with_host
with_host-matching n cs u d = elim (Bool-cases (listed cs n)) [
  | inl e ↦ rw (take_matching-listed n cs d e, e) refl
  | inr e ↦ rw (take_matching-unlisted n cs e, e, picked-unlisted n cs e) refl
]
  where
    picked-unlisted : (n : Host) (cs : List Host) → listed cs n ≡ false → picked cs n ≡ n
    picked-unlisted n [] h = refl
    picked-unlisted n (c ∷ cs) h = elim (Bool-cases (same_address n c)) [
      | inl e ↦ let q : true ≡ false = rw e at h in absurd cc
      | inr e ↦ rw e (picked-unlisted n cs (rw e at h))
    ]

pub other_address :
    (n m c : Host) → same_address n m ≡ false → same_address n c ≡ true → same_address m c ≡ false
other_address n m c d e = ground (
  arith,
  str_eq_iff n.address_string m.address_string,
  str_eq_iff n.address_string c.address_string,
  str_eq_iff m.address_string c.address_string,
)

contains_more :
    (n h : Host) (seen : List GoString)
    → contains n.address_string seen ≡ true
    → contains n.address_string (h.address_string ∷ seen) ≡ true
contains_more n h seen k = ground arith

unseen :
    (n h : Host) (seen : List GoString)
    → contains n.address_string seen ≡ true
    → contains h.address_string seen ≡ false
    → same_address n h ≡ false
unseen n h seen k e = elim (Bool-cases (same_address n h)) [
  | inl f ↦
      let a : n.address_string ≡ h.address_string =
        (str_eq_iff n.address_string h.address_string).0 f in
      let q : true ≡ false = sym k ∙ ap (λ b. contains b seen) a ∙ e in absurd cc
  | inr f ↦ f
]

-- A host with another address sees the same without `n` as with it.
pub picked-without :
    (n m : Host) (cs : List Host) → same_address n m ≡ false → picked (without n cs) m ≡ picked cs m
picked-without n m [] d = refl
picked-without n m (c ∷ cs) d = elim (Bool-cases (same_address n c)) [
  | inl e ↦ rw (e, other_address n m c d e) (picked-without n m cs d)
  | inr e ↦ rw e (elim (Bool-cases (same_address m c)) [
    | inl f ↦ rw f refl
    | inr f ↦ rw f (picked-without n m cs d)
  ])
]

pub listed-without :
    (n m : Host) (cs : List Host) → same_address n m ≡ false → listed (without n cs) m ≡ listed cs m
listed-without n m [] d = refl
listed-without n m (c ∷ cs) d = elim (Bool-cases (same_address n c)) [
  | inl e ↦ rw (e, other_address n m c d e) (listed-without n m cs d)
  | inr e ↦ rw e (ap (λ q. same_address m c || q) (listed-without n m cs d))
]

pub Distinct-without : (n : Host) (cs : List Host) → Distinct cs → Distinct (without n cs)
Distinct-without n [] d = tt
Distinct-without n (c ∷ cs) d = elim (Bool-cases (same_address n c)) [
  | inl e ↦ rw e (Distinct-without n cs d.1)
  | inr e ↦ rw e (listed-without n c cs e ∙ d.0, Distinct-without n cs d.1)
]

-- What is said of hosts with another address than `n` only.
pub map-firsts :
    (n : Host) (f g : Host → Host) (seen : List GoString) (hs : List Host)
    → contains n.address_string seen ≡ true
    → ((m : Host) → same_address n m ≡ false → f m ≡ g m)
    → map f (firsts seen hs) ≡ map g (firsts seen hs)
map-firsts n f g seen [] k same = refl
map-firsts n f g seen (h ∷ hs) k same = elim (Bool-cases (contains h.address_string seen)) [
  | inl e ↦ rw e (map-firsts n f g seen hs k same)
  | inr e ↦
      let more = map-firsts n f g (h.address_string ∷ seen) hs (contains_more n h seen k) same in
      rw e (λ i. same h (unseen n h seen k e) i ∷ more i)
]

pub where_is-firsts :
    (n : Host) (p q : Host → Bool) (seen : List GoString) (hs : List Host)
    → contains n.address_string seen ≡ true
    → ((m : Host) → same_address n m ≡ false → p m ≡ q m)
    → where_is p (firsts seen hs) ≡ where_is q (firsts seen hs)
where_is-firsts n p q seen [] k same = refl
where_is-firsts n p q seen (h ∷ hs) k same = elim (Bool-cases (contains h.address_string seen)) [
  | inl e ↦ rw e (where_is-firsts n p q seen hs k same)
  | inr e ↦
      let more =
        where_is-firsts n p q (h.address_string ∷ seen) hs (contains_more n h seen k) same in
      rw e (λ i. if same h (unseen n h seen k e) i then h ∷ more i else more i)
]
