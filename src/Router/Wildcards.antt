-- ===== src/Router/Wildcards.antt =====
-- routematcher.go: `findWildcardVirtualHost` takes the longest wildcard that the host ends in.
pub mod Storing
pub mod Configured
use psh_mosn.Base.{
  ℕ, ◌-◌, ◌≤◌, ◌<◌, ◌≡◌, refl, sym, ap, ◌∙◌, inl, inr, Bool, true, false, ◌||◌, Option, none, some,
  List, [], ◌∷◌, arith, leb, leb→le, ◌==◌, length, length-drop, Bool-cases, Option-cases, some_eq,
}
use psh_mosn.Base.Strings.{GoString, lookup}
use psh_mosn.Router.{
  RouteMatcher, at_length, keys, insert_length, sort_lengths, sorted, ending, find_by_lengths,
  find_wildcard_virtual_host, new_route_matcher, add_virtual_hosts, no_domains, then_with,
}

abbrev member : ℕ → List ℕ → Bool
member n [] = false
member n (k ∷ ks) = k == n || member n ks

-- No length of the list is above `n`.
abbrev Below : ℕ → List ℕ → Type 0
Below n [] = Unit {0}
Below n (k ∷ ks) = (k ≤ n) × Below n ks

abbrev Descending : List ℕ → Type 0
Descending [] = Unit {0}
Descending (n ∷ ns) = Below n ns × Descending ns

Below-trans : (n m : ℕ) (ks : List ℕ) → Below n ks → n ≤ m → Below m ks
Below-trans n m [] b h = tt
Below-trans n m (k ∷ ks) b h = (omega (arith, b.0), Below-trans n m ks b.1 h)

Below-insert : (n k : ℕ) (ks : List ℕ) → Below n ks → k ≤ n → Below n (insert_length k ks)
Below-insert n k [] b h = (h, tt)
Below-insert n k (j ∷ ks) b h = elim (Bool-cases (leb j k)) [
  | inl e ↦ rw e (h, b)
  | inr e ↦ rw e (b.0, Below-insert n k ks b.1 h)
]

Descending-insert : (n : ℕ) (ks : List ℕ) → Descending ks → Descending (insert_length n ks)
Descending-insert n [] d = (tt, tt)
Descending-insert n (k ∷ ks) d = elim (Bool-cases (leb k n)) [
  | inl e ↦ rw e ((leb→le k n e, Below-trans k n ks d.0 (leb→le k n e)), d)
  | inr e ↦ rw e (Below-insert k n ks d.0 (ground (arith, e)), Descending-insert n ks d.1)
]

Descending-sort : (ks : List ℕ) → Descending (sort_lengths ks)
Descending-sort [] = tt
Descending-sort (k ∷ ks) = Descending-insert k (sort_lengths ks) (Descending-sort ks)

member-insert : (m n : ℕ) (ks : List ℕ) → member m (insert_length n ks) ≡ ((n == m) || member m ks)
member-insert m n [] = refl
member-insert m n (k ∷ ks) = elim (Bool-cases (leb k n)) [
  | inl e ↦ rw e refl
  | inr e ↦ rw (e, member-insert m n ks) (ground arith)
]

member-sort : (m : ℕ) (ks : List ℕ) → member m (sort_lengths ks) ≡ member m ks
member-sort m [] = refl
member-sort m (k ∷ ks) =
    member-insert m k (sort_lengths ks) ∙ ap (λ b. (k == m) || b) (member-sort m ks)

member-Below : (m n : ℕ) (ks : List ℕ) → Below n ks → member m ks ≡ true → m ≤ n
member-Below m n [] b h = absurd cc
member-Below m n (k ∷ ks) b h = elim (Bool-cases (k == m)) [
  | inl e ↦ ground (arith, b.0, e)
  | inr e ↦ member-Below m n ks b.1 (ground (arith, h, e))
]

module _ {V : Type 0} where
  -- What a lookup by a length finds is under a key.
  at_length-member :
      (n : ℕ) (s : GoString) (v : V) (ws : List (ℕ × List (GoString × V)))
      → lookup s (at_length n ws) ≡ some v
      → member n (keys ws) ≡ true
  at_length-member n s v [] h = absurd cc
  at_length-member n s v ((k, m) ∷ ws) h = elim (Bool-cases (k == n)) [
    | inl e ↦ rw e refl
    | inr e ↦ rw e (at_length-member n s v ws (rw e at h))
  ]

  -- The wildcard of length `n` matches: the domain "*" before the ending of the host is configured.
  abbrev Matches : List (ℕ × List (GoString × V)) → GoString → ℕ → V → Type 0
  Matches ws host n v = (n < length host) × (lookup (ending n host) (at_length n ws) ≡ some v)

  abbrev Longest : List ℕ → List (ℕ × List (GoString × V)) → GoString → Option V → Type 0
  Longest ns ws host none = (n : ℕ) (v : V) → member n ns ≡ true → Matches ws host n v → ⊥
  Longest ns ws host (some v) =
      (n : ℕ) × Matches ws host n v
      × ((m : ℕ) (w : V) → member m ns ≡ true → Matches ws host m w → m ≤ n)
      × (member n ns ≡ true)

  -- A length at which the host has no match does not count.
  Longest-more :
      (n : ℕ) (ns : List ℕ) (ws : List (ℕ × List (GoString × V))) (host : GoString) (o : Option V)
      → ((v : V) → Matches ws host n v → ⊥)
      → Longest ns ws host o
      → Longest (n ∷ ns) ws host o
  Longest-more n ns ws host none never h = λ m v k f. elim (Bool-cases (n == m)) [
    | inl e ↦ let p : n ≡ m = ground (arith, e) in never v (rw p f)
    | inr e ↦ h m v (ground (arith, k, e)) f
  ]
  Longest-more n ns ws host (some v) never (l, found, most, inside) = (
    l,
    found,
    (λ m w k f. elim (Bool-cases (n == m)) [
      | inl e ↦ let p : n ≡ m = ground (arith, e) in absurd (never w (rw p f))
      | inr e ↦ most m w (ground (arith, k, e)) f
    ]),
    ground (arith, inside),
  )

  find_by_lengths-Longest :
      (ns : List ℕ) (ws : List (ℕ × List (GoString × V))) (host : GoString)
      → Descending ns
      → Longest ns ws host (find_by_lengths ns ws host)
  unfolding find_by_lengths
  find_by_lengths-Longest [] ws host d = λ n v m k. absurd cc
  find_by_lengths-Longest (n ∷ ns) ws host d = elim (Bool-cases (leb (length host) n)) [
    | inl e ↦ rw e (
        Longest-more n ns ws host (find_by_lengths ns ws host)
          (λ v f. absurd (omega (arith, f.0, leb→le _ _ e)))
          (find_by_lengths-Longest ns ws host d.1))
    | inr e ↦ elim (Option-cases (lookup (ending n host) (at_length n ws))) [
      | inl f ↦
          rw (e, f)
            (Longest-more n ns ws host (find_by_lengths ns ws host)
              (λ v m. absurd (let q = sym f ∙ m.1 in cc)) (find_by_lengths-Longest ns ws host d.1))
      | inr (v, f) ↦
          rw (e, f)
            (
              n,
              (ground (arith, e), f),
              (λ m w k g. elim (Bool-cases (n == m)) [
                | inl p ↦ ground (arith, p)
                | inr p ↦ member-Below m n ns d.0 (ground (arith, k, p))
              ]),
              ground arith,
            )
    ]
  ]

-- What the maps of wildcards hold for the domain "*" and then `s`.
abbrev pub stored : {V : Type 0} → RouteMatcher V → GoString → Option V
stored rm s = lookup s (at_length (length s) rm.wildcard_virtual_host_suffixes)

abbrev pub Wildcard : {V : Type 0} → RouteMatcher V → GoString → V → Type 0
Wildcard rm s v = stored rm s ≡ some v

-- `host` is longer than `s` and ends in it.
abbrev pub EndsIn : GoString → GoString → Type 0
EndsIn host s = (length s < length host) × (ending (length s) host ≡ s)

-- What is found: nothing, where the host ends in no wildcard, or the virtual host of the longest one.
abbrev pub Best : {V : Type 0} → (GoString → V → Type 0) → GoString → Option V → Type 0
Best {V} IsWildcard host none = (s : GoString) (v : V) → IsWildcard s v → EndsIn host s → ⊥
Best {V} IsWildcard host (some v) =
    (s : GoString) × IsWildcard s v
    × EndsIn host s
    × ((t : GoString) (w : V) → IsWildcard t w → EndsIn host t → length t ≤ length s)

length-ending : (n : ℕ) (host : GoString) → n < length host → length (ending n host) ≡ n
length-ending n host h = omega (arith, length-drop (length host - n) host)

module _ {V : Type 0} where
  abbrev ws_of : RouteMatcher V → List (ℕ × List (GoString × V))
  ws_of rm = rm.wildcard_virtual_host_suffixes

  -- A wildcard that the host ends in is a match at its length.
  match-Wildcard :
      (rm : RouteMatcher V) (host s : GoString) (v : V)
      → Wildcard rm s v
      → EndsIn host s
      → (member (length s) (sort_lengths (keys (ws_of rm))) ≡ true)
        × Matches (ws_of rm) host (length s) v
  match-Wildcard rm host s v c (h, e) = (
    member-sort (length s) (keys (ws_of rm)) ∙ at_length-member (length s) s v (ws_of rm) c,
    (h, ap (λ t. lookup t (at_length (length s) (ws_of rm))) e ∙ c),
  )

  Longest-Best :
      (rm : RouteMatcher V) (host : GoString) (o : Option V)
      → Longest (sort_lengths (keys (ws_of rm))) (ws_of rm) host o
      → Best (Wildcard (sorted rm)) host o
  Longest-Best rm host none h =
      λ s v c e. let (inside, f) = match-Wildcard rm host s v c e in h (length s) v inside f
  Longest-Best rm host (some v) (n, (h, found), most, inside) =
      let s = ending n host in
      let same = length-ending n host h in
      (
        s,
        ap (λ k. lookup s (at_length k (ws_of rm))) same ∙ found,
        (omega (arith, same, h), ap (λ k. ending k host) same),
        λ t w c e.
            let (there, f) = match-Wildcard rm host t w c e in
            omega (arith, most (length t) w there f, same),
      )

-- The search over the sorted lengths finds the longest of the wildcards that are stored.
pub find_wildcard_virtual_host-stored :
    {V : Type 0} (rm : RouteMatcher V) (host : GoString)
    → Best (Wildcard (sorted rm)) host (find_wildcard_virtual_host (sorted rm) host)
unfolding find_wildcard_virtual_host
find_wildcard_virtual_host-stored rm host = Longest-Best rm host _ (
    find_by_lengths-Longest (sort_lengths (keys (ws_of rm))) (ws_of rm) host
      (Descending-sort (keys (ws_of rm))))
