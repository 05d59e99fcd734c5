-- ===== src/Upstream/Cluster/Updates.antt =====
-- concreteclusters.go: what `updateDynamicHostList` makes of a list of new hosts.
use psh_mosn.Base.{
  ◌≡◌, refl, sym, ap, ◌∙◌, ◌↔◌, inl, inr, Bool, true, false, not, ◌||◌, List, [], ◌∷◌, map, arith,
  ltb, if◌then◌else◌, length, Bool-cases,
}
use psh_mosn.Base.Strings.{GoString, str_eq_iff, str_eq_refl, str_eq_sym}
use psh_mosn.Upstream.{Host}
use psh_mosn.Upstream.Cluster.{contains, Update, update_loop, update_dynamic_host_list}
use psh_mosn.Upstream.Cluster.Matching.{
  same_address, listed, where_is, firsts, picked, Distinct, without, take_matching-rest,
  with_host-matching, picked-without, listed-without, Distinct-without, map-firsts, where_is-firsts,
}

-- The update that the new hosts stand for, given the addresses that have been seen.
abbrev update_of : List GoString → List Host → List Host → Update
update_of seen new_hosts current = record {
  final_hosts = map (picked current) (firsts seen new_hosts);
  hosts_added = where_is (λ n. not (listed current n)) (firsts seen new_hosts);
  hosts_removed = where_is (λ c. not (listed (firsts seen new_hosts) c)) current;
}

removed-without :
    (n : Host) (fs cs : List Host)
    → where_is (λ c. not (listed fs c)) (without n cs) ≡ where_is (λ c. not (listed (n ∷ fs) c)) cs
removed-without n fs [] = refl
removed-without n fs (c ∷ cs) = elim (Bool-cases (same_address n c)) [
  | inl e ↦ rw (e, str_eq_sym c.address_string n.address_string, e) (removed-without n fs cs)
  | inr e ↦
      rw (e, str_eq_sym c.address_string n.address_string, e)
        (λ i.
          if not (listed fs c) then c ∷ removed-without n fs cs i else removed-without n fs cs i)
]

all_kept : (cs : List Host) → where_is (λ c. true) cs ≡ cs
all_kept [] = refl
all_kept (c ∷ cs) = ap (λ q. c ∷ q) (all_kept cs)

-- What is said of the other current hosts is so of all.
update_of-without :
    (n : Host) (seen : List GoString) (ns current : List Host)
    → contains n.address_string seen ≡ true
    → map (picked (without n current)) (firsts seen ns) ≡ map (picked current) (firsts seen ns)
update_of-without n seen ns current k =
    map-firsts n (picked (without n current)) (picked current) seen ns k
      (λ m d. picked-without n m current d)

update_loop-update_of :
    (new_hosts : List Host) (seen : List GoString) (current : List Host)
    → Distinct current
    → update_loop new_hosts seen current ≡ update_of seen new_hosts current
unfolding update_loop
update_loop-update_of [] seen current d =
    λ i. record { final_hosts = []; hosts_added = []; hosts_removed = sym (all_kept current) i }
update_loop-update_of (n ∷ ns) seen current d = elim (Bool-cases (contains n.address_string seen)) [
  | inl e ↦ rw e (update_loop-update_of ns seen current d)
  | inr e ↦
      let rest =
        update_loop-update_of ns (n.address_string ∷ seen) (without n current)
          (Distinct-without n current d) in
      let k : contains n.address_string (n.address_string ∷ seen) ≡ true =
        ap (λ b. b || contains n.address_string seen) (str_eq_refl n.address_string) in
      let others = firsts (n.address_string ∷ seen) ns in
      let kept = update_of-without n (n.address_string ∷ seen) ns current k in
      let added : where_is (λ m. not (listed (without n current) m)) others
          ≡ where_is (λ m. not (listed current m)) others =
        where_is-firsts n _ _ (n.address_string ∷ seen) ns k
          (λ m o. ap not (listed-without n m current o)) in
      rw (e, take_matching-rest n current, rest)
        (with_host-matching n current _ d ∙ λ i. record {
          final_hosts = picked current n ∷ kept i;
          hosts_added = if not (listed current n) then n ∷ added i else added i;
          hosts_removed = removed-without n others current i;
        })
]

-- A host is among the first ones exactly where it is among all.
listed-firsts :
    (a : Host) (seen : List GoString) (hs : List Host)
    → contains a.address_string seen ≡ false
    → listed (firsts seen hs) a ≡ listed hs a
listed-firsts a seen [] k = refl
listed-firsts a seen (h ∷ hs) k = elim (Bool-cases (contains h.address_string seen)) [
  | inl e ↦ elim (Bool-cases (same_address a h)) [
    | inl f ↦
        let p : a.address_string ≡ h.address_string =
          (str_eq_iff a.address_string h.address_string).0 f in
        let q : true ≡ false = sym e ∙ ap (λ b. contains b seen) (sym p) ∙ k in absurd cc
    | inr f ↦ rw (e, f) (listed-firsts a seen hs k)
  ]
  | inr e ↦ elim (Bool-cases (same_address a h)) [
    | inl f ↦ rw (e, f) refl
    | inr f ↦
        let k' : contains a.address_string (h.address_string ∷ seen) ≡ false =
          λ i. (str_eq_sym h.address_string a.address_string ∙ f) i || k i in
        rw (e, f) (listed-firsts a (h.address_string ∷ seen) hs k')
  ]
]

where_is-cong :
    (p q : Host → Bool) (hs : List Host) → ((h : Host) → p h ≡ q h) → where_is p hs ≡ where_is q hs
where_is-cong p q [] e = refl
where_is-cong p q (h ∷ hs) e =
    λ i. if e h i then h ∷ where_is-cong p q hs e i else where_is-cong p q hs e i

no_hosts :
    (hs ks : List Host)
    → ((ltb 0 (length hs) || ltb 0 (length ks)) ≡ false) ↔ ((hs ≡ []) × (ks ≡ []))
no_hosts [] [] = (λ e. (refl, refl), λ e. refl)
no_hosts (h ∷ hs) ks = (λ e. ground (arith, e), λ (e, f). absurd cc)
no_hosts [] (k ∷ ks) = (λ e. ground (arith, e), λ (e, f). absurd cc)

-- Where the current hosts have distinct addresses, the update of a host list keeps the order of the
-- new hosts and the first host of each address: a host that is there already stays, with its health
-- and the new weight, and another is added. The hosts removed are the current ones whose address is
-- not among the new, in their order, and `changed` is false exactly when none is added or removed.
pub update_dynamic_host_list-description :
    (new_hosts current : List Host)
    → Distinct current
    → let (changed, u) = update_dynamic_host_list new_hosts current in
      (u.final_hosts ≡ map (picked current) (firsts [] new_hosts))
      × (u.hosts_added ≡ where_is (λ n. not (listed current n)) (firsts [] new_hosts))
      × (u.hosts_removed ≡ where_is (λ c. not (listed new_hosts c)) current)
      × ((changed ≡ false) ↔ ((u.hosts_added ≡ []) × (u.hosts_removed ≡ [])))
unfolding update_dynamic_host_list
update_dynamic_host_list-description new_hosts current d =
    let e = update_loop-update_of new_hosts [] current d in
    (
      ap (λ u. u.final_hosts) e,
      ap (λ u. u.hosts_added) e,
      ap (λ u. u.hosts_removed) e
          ∙ where_is-cong _ _ current (λ c. ap not (listed-firsts c [] new_hosts refl)),
      no_hosts _ _,
    )
