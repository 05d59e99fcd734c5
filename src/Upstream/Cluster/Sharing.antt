-- ===== src/Upstream/Cluster/Sharing.antt =====
-- concreteclusters.go, cluster.go and clustermanager.go: what happens to the host list of a cluster when
-- a host is taken out of a slice that shares its array.
use mathlib.Core.List.{append_assoc, append-nil}
use psh_mosn.Base.{
  ◌+◌, ◌-◌, ◌≡◌, refl, sym, ap, ◌∙◌, false, none, some, List, [], ◌∷◌, ◌++◌, arith, length,
  length-append, take, drop, take_prefix, drop_prefix,
}
use psh_mosn.Base.Strings.{GoString, str_eq, str_eq_refl}
use psh_mosn.Upstream.{Host}
use psh_mosn.Upstream.Cluster.{
  Cluster, hosts, healthy_hosts, move_over, index_by, del_health_host, add_healthy_host,
  panic_if_found,
}

-- A cluster after an update: all its hosts count as healthy, in one array.
abbrev pub updated : List Host → Cluster
updated hs = record { arr = hs; len = length hs; healthy_len = length hs }

-- No host has the key `s`.
abbrev pub NoKey : (Host → GoString) → GoString → List Host → Type 0
NoKey key s [] = Unit {0}
NoKey key s (h ∷ hs) = (str_eq (key h) s ≡ false) × NoKey key s hs

index_by-found :
    (key : Host → GoString) (h : Host) (pre xs : List Host)
    → NoKey key (key h) pre
    → index_by key (key h) (pre ++ h ∷ xs) ≡ some (length pre)
index_by-found key h [] xs d = rw (str_eq_refl (key h)) refl
index_by-found key h (p ∷ pre) xs d =
    let next : length pre + 1 ≡ length (p ∷ pre) = omega arith in
    rw (d.0, index_by-found key h pre xs d.1) (ap some next)

take-length : (hs : List Host) → take (length hs) hs ≡ hs
take-length hs = ap (take (length hs)) (sym (append-nil hs)) ∙ take_prefix hs [] (length hs) refl

-- A host with others before it and, behind it, others and a last one.
module _ (pre mid : List Host) (h last : Host) where
  abbrev pub before : List Host
  before = pre ++ h ∷ (mid ++ last ∷ [])

  -- The host is gone, and the last one stands twice.
  abbrev pub shifted : List Host
  shifted = pre ++ (mid ++ last ∷ last ∷ [])

  length-before : length before ≡ length pre + length mid + 2
  length-before =
      omega (arith, length-append pre (h ∷ (mid ++ last ∷ [])), length-append mid (last ∷ []))

  length-shifted : length shifted ≡ length pre + length mid + 2
  length-shifted =
      omega
        (arith, length-append pre (mid ++ last ∷ last ∷ []), length-append mid (last ∷ last ∷ []))

  move_over-before : move_over before (length before) (length pre) ≡ shifted
  move_over-before =
      let front : take (length pre) before ≡ pre = take_prefix pre _ (length pre) refl in
      let moved : drop (length pre + 1) before ≡ mid ++ last ∷ [] =
        ap (drop (length pre + 1)) (sym (append_assoc pre (h ∷ []) (mid ++ last ∷ [])))
        ∙ drop_prefix (pre ++ h ∷ []) _ (length pre + 1)
            (omega (arith, length-append pre (h ∷ []))) in
      let all_but_last : before ≡ (pre ++ h ∷ mid) ++ last ∷ [] =
        sym (append_assoc pre (h ∷ mid) (last ∷ [])) in
      let rest : drop (length before - 1) before ≡ last ∷ [] =
        ap (drop (length before - 1)) all_but_last
        ∙ drop_prefix (pre ++ h ∷ mid) (last ∷ []) (length before - 1)
            (omega (arith, length-before, length-append pre (h ∷ mid))) in
      rw (take-length before, front, moved, rest)
        (ap (λ q. pre ++ q) (append_assoc mid (last ∷ []) (last ∷ [])))

  take-shifted : take (length before) shifted ≡ shifted
  take-shifted = rw (length-before, ← length-shifted) (take-length shifted)

  healthy-shifted : take (length before - 1) shifted ≡ pre ++ (mid ++ last ∷ [])
  healthy-shifted =
      ap (take (length before - 1)) (
        ap (λ q. pre ++ q) (sym (append_assoc mid (last ∷ []) (last ∷ [])))
        ∙ sym (append_assoc pre (mid ++ last ∷ []) (last ∷ [])))
      ∙ take_prefix (pre ++ (mid ++ last ∷ [])) (last ∷ []) (length before - 1) (
          omega (
            arith,
            length-before,
            length-append pre (mid ++ last ∷ []),
            length-append mid (last ∷ []),
          ))

index_by-none :
    (key : Host → GoString) (s : GoString) (hs : List Host)
    → NoKey key s hs
    → index_by key s hs ≡ none
index_by-none key s [] d = refl
index_by-none key s (h ∷ hs) d = rw (d.0, index_by-none key s hs d.1) refl

NoKey-append :
    (key : Host → GoString) (s : GoString) (hs ks : List Host)
    → NoKey key s hs
    → NoKey key s ks
    → NoKey key s (hs ++ ks)
NoKey-append key s [] ks d e = e
NoKey-append key s (h ∷ hs) ks d e = (d.0, NoKey-append key s hs ks d.1 e)

module _ (pre mid : List Host) (h last : Host)
    (a : NoKey (λ x. x.address_string) h.address_string pre) where
  abbrev cluster : Cluster
  cluster = updated (before pre mid h last)

  by_address : index_by (λ x. x.address_string) h.address_string (hosts cluster) ≡ some (length pre)
  by_address =
      ap (index_by (λ x. x.address_string) h.address_string) (take-length (before pre mid h last))
      ∙ index_by-found (λ x. x.address_string) h pre (mid ++ last ∷ []) a

  del_health_host-before :
      NoKey (λ x. x.hostname) h.hostname pre
      → del_health_host cluster h ≡ record {
        arr = shifted pre mid h last;
        len = length (before pre mid h last);
        healthy_len = length (before pre mid h last) - 1;
      }
  unfolding del_health_host
  del_health_host-before n =
      let by_name : index_by (λ x. x.hostname) h.hostname (healthy_hosts cluster)
          ≡ some (length pre) =
        ap (index_by (λ x. x.hostname) h.hostname) (take-length (before pre mid h last))
        ∙ index_by-found (λ x. x.hostname) h pre (mid ++ last ∷ []) n in
      rw (by_address, by_name, move_over-before pre mid h last) refl

-- After an update of the cluster, a check finds a host unhealthy that is not the last one, that shares
-- its address with no other host and its host name with none before it. Then the healthy hosts are the
-- others in their order. But the list of all hosts loses the host as well, and shows the last host
-- twice, since the slices share an array; so when the host is healthy again, nothing is added.
pub del_health_host-shared :
    (pre mid : List Host) (h last : Host)
    → NoKey (λ x. x.address_string) h.address_string pre
    → NoKey (λ x. x.address_string) h.address_string (mid ++ last ∷ last ∷ [])
    → NoKey (λ x. x.hostname) h.hostname pre
    → let c = del_health_host (updated (before pre mid h last)) h in
      (healthy_hosts c ≡ pre ++ (mid ++ last ∷ []))
      × (hosts c ≡ pre ++ (mid ++ last ∷ last ∷ []))
      × (add_healthy_host c h ≡ some c)
unfolding add_healthy_host
del_health_host-shared pre mid h last a b n =
    let all = take-shifted pre mid h last in
    let taken : Cluster = record {
      arr = shifted pre mid h last;
      len = length (before pre mid h last);
      healthy_len = length (before pre mid h last) - 1;
    } in
    let gone : index_by (λ x. x.address_string) h.address_string
          (take (length (before pre mid h last)) (shifted pre mid h last))
        ≡ none =
      ap (index_by (λ x. x.address_string) h.address_string) all
      ∙ index_by-none (λ x. x.address_string) h.address_string (shifted pre mid h last)
          (NoKey-append (λ x. x.address_string) h.address_string pre _ a b) in
    rw (del_health_host-before pre mid h last a n)
      (healthy-shifted pre mid h last, all, ap (λ o. panic_if_found o taken) gone)
