-- ===== src/Router/Wildcards/Storing.antt =====
-- routematcher.go: which wildcards the domains of a virtual host add to a route matcher.
use psh_mosn.Base.{
  ℕ, ◌<◌, ◌≡◌, refl, sym, ap, ◌∙◌, ◌⊎◌, inl, inr, false, none, some, List, [], ◌∷◌, arith, ◌==◌,
  length, Bool-cases, some_eq, if◌then◌else◌,
}
use psh_mosn.Base.Strings.{GoString, str_eq, str_eq→eq, str_eq_refl, lookup, lookup-insert, insert}
use psh_mosn.Router.{
  RouteMatcher, at_length, put_length, to_lower, add_exact, add_domain, add_domains,
}
use psh_mosn.Router.Domains.{Named, if_absent_lem, then_with_lem}
use psh_mosn.Router.Wildcards.{stored, Wildcard}

-- The first letter of a domain, and the others.
abbrev first : GoString → ℕ
first [] = 0
first (c ∷ s) = c

abbrev rest : GoString → GoString
rest [] = []
rest (c ∷ s) = s

module _ {V : Type 0} where
  at_length-put :
      (n k : ℕ) (m : List (GoString × V)) (ws : List (ℕ × List (GoString × V)))
      → at_length n (put_length k m ws) ≡ (if k == n then m else at_length n ws)
  at_length-put n k m [] = refl
  at_length-put n k m ((j, m') ∷ ws) = elim (Bool-cases (j == k)) [
    | inl e ↦ let p : j ≡ k = ground (arith, e) in rw (e, p) (ground arith)
    | inr e ↦ rw (e, at_length-put n k m ws) (ground (arith, e))
  ]

  -- What is stored after `add_wildcard`.
  stored-put :
      (s t : GoString) (v : V) (ws : List (ℕ × List (GoString × V)))
      → lookup s
          (at_length (length s) (put_length (length t) (insert t v (at_length (length t) ws)) ws))
        ≡ (if str_eq t s then some v else lookup s (at_length (length s) ws))
  stored-put s t v ws = elim (Bool-cases (length t == length s)) [
    | inl e ↦
        let p : length t ≡ length s = ground (arith, e) in
        rw (at_length-put (length s) (length t) (insert t v (at_length (length t) ws)) ws, e)
          (lookup-insert t s v (at_length (length t) ws)
            ∙ ap (λ n. if str_eq t s then some v else lookup s (at_length n ws)) p)
    | inr e ↦
        let differ : str_eq t s ≡ false = elim (Bool-cases (str_eq t s)) [
          | inl f ↦
              absurd
                (let p : length t ≡ length s = ap length (str_eq→eq t s f) in ground (arith, e, p))
          | inr f ↦ f
        ] in
        rw
          (at_length-put (length s) (length t) (insert t v (at_length (length t) ws)) ws, e, differ)
          refl
  ]

  -- A domain either is a new wildcard, and that is what is stored in addition, or it is none, and
  -- what is stored stays.
  abbrev Adds : GoString → V → RouteMatcher V → RouteMatcher V → Type 0
  Adds d v rm r =
      ((t : GoString) × (d ≡ 42 ∷ t)
        × (0 < length t)
        × (stored rm t ≡ none)
        × ((s : GoString) → stored r s ≡ (if str_eq t s then some v else stored rm s)))
      ⊎ (((t : GoString) → d ≡ 42 ∷ t → 0 < length t → ⊥)
          × ((s : GoString) → stored r s ≡ stored rm s))

  add_exact-stored :
      (d s : GoString) (v : V) (rm r : RouteMatcher V)
      → add_exact d v rm ≡ some r
      → stored r s ≡ stored rm s
  add_exact-stored d s v rm r e =
      let (absent, same) = if_absent_lem (lookup d rm.virtual_hosts) _ r e in rw (← same) refl

  add_domain-Adds :
      (d : GoString) (v : V) (rm r : RouteMatcher V) → add_domain d v rm ≡ some r → Adds d v rm r
  unfolding add_domain
  add_domain-Adds [] v rm r e = inr (
    (λ t p h. let q : 0 ≡ 42 = ap first p in absurd (omega (arith, q))),
    λ s. add_exact-stored [] s v rm r e,
  )
  add_domain-Adds (c ∷ []) v rm r e = inr (
    (λ t p h. let q : 0 ≡ length t = ap (λ l. length (rest l)) p in absurd (omega (arith, q, h))),
    λ s. elim (Bool-cases (c == 42)) [
      | inl f ↦
          let (absent, same) = if_absent_lem rm.default_virtual_host _ r (rw f at e) in
          rw (← same) refl
      | inr f ↦ add_exact-stored (c ∷ []) s v rm r (rw f at e)
    ],
  )
  add_domain-Adds (c ∷ (d ∷ t)) v rm r e = elim (Bool-cases (c == 42)) [
    | inl f ↦
        let (absent, same) = if_absent_lem _ _ r (rw f at e) in
        inl (
          d ∷ t,
          ap (λ b. b ∷ (d ∷ t)) (ground (arith, f)),
          omega arith,
          absent,
          λ s. rw (← same) (stored-put s (d ∷ t) v rm.wildcard_virtual_host_suffixes),
        )
    | inr f ↦ inr (
      (λ u p h. let q : c ≡ 42 = ap first p in absurd (ground (arith, f, q))),
      λ s. add_exact-stored (c ∷ (d ∷ t)) s v rm r (rw f at e),
    )
  ]

  add_domain-keeps_Wildcard :
      (d s : GoString) (v w : V) (rm r : RouteMatcher V)
      → add_domain d v rm ≡ some r
      → Wildcard rm s w
      → Wildcard r s w
  add_domain-keeps_Wildcard d s v w rm r e h = elim (add_domain-Adds d v rm r e) [
    | inr (never, same) ↦ same s ∙ h
    | inl (t, p, long, absent, law) ↦ elim (Bool-cases (str_eq t s)) [
      | inl f ↦ absurd (let q = sym absent ∙ ap (stored rm) (str_eq→eq t s f) ∙ h in cc)
      | inr f ↦ law s ∙ rw f h
    ]
  ]

  add_domain-Wildcard :
      (d s : GoString) (v : V) (rm r : RouteMatcher V)
      → add_domain d v rm ≡ some r
      → d ≡ 42 ∷ s
      → 0 < length s
      → Wildcard r s v
  add_domain-Wildcard d s v rm r e star long = elim (add_domain-Adds d v rm r e) [
    | inr (never, same) ↦ absurd (never s star long)
    | inl (t, p, l, absent, law) ↦
        let q : t ≡ s = ap rest (sym p ∙ star) in law s ∙ rw (q, str_eq_refl s) refl
  ]

  add_domain-only :
      (d s : GoString) (v w : V) (rm r : RouteMatcher V)
      → add_domain d v rm ≡ some r
      → Wildcard r s w
      → Wildcard rm s w ⊎ ((d ≡ 42 ∷ s) × (0 < length s) × (v ≡ w))
  add_domain-only d s v w rm r e h = elim (add_domain-Adds d v rm r e) [
    | inr (never, same) ↦ inl (sym (same s) ∙ h)
    | inl (t, p, long, absent, law) ↦ elim (Bool-cases (str_eq t s)) [
      | inl f ↦
          let q = str_eq→eq t s f in
          inr (p ∙ ap (λ u. 42 ∷ u) q, rw (← q) long, some_eq (rw f at (sym (law s) ∙ h)))
      | inr f ↦ inl (rw f at (sym (law s) ∙ h))
    ]
  ]

  pub add_domains-keeps_Wildcard :
      (ds : List GoString) (s : GoString) (v w : V) (rm r : RouteMatcher V)
      → add_domains ds v rm ≡ some r
      → Wildcard rm s w
      → Wildcard r s w
  unfolding add_domains
  add_domains-keeps_Wildcard [] s v w rm r e h = rw (← some_eq e) h
  add_domains-keeps_Wildcard (d ∷ ds) s v w rm r e h =
      let (rm1, one, others) =
        then_with_lem (add_domain (to_lower d) v rm) (add_domains ds v) r e in
      add_domains-keeps_Wildcard ds s v w rm1 r others
        (add_domain-keeps_Wildcard (to_lower d) s v w rm rm1 one h)

  pub add_domains-Wildcard :
      (ds : List GoString) (d s : GoString) (v : V) (rm r : RouteMatcher V)
      → add_domains ds v rm ≡ some r
      → Named d ds
      → to_lower d ≡ 42 ∷ s
      → 0 < length s
      → Wildcard r s v
  unfolding add_domains
  add_domains-Wildcard [] d s v rm r e n star long = absurd n
  add_domains-Wildcard (f ∷ ds) d s v rm r e n star long =
      let (rm1, one, others) =
        then_with_lem (add_domain (to_lower f) v rm) (add_domains ds v) r e in
      elim n [
        | inl same ↦
            add_domains-keeps_Wildcard ds s v v rm1 r others
              (add_domain-Wildcard (to_lower f) s v rm rm1 one (ap to_lower (sym same) ∙ star) long)
        | inr later ↦ add_domains-Wildcard ds d s v rm1 r others later star long
      ]

  pub add_domains-only :
      (ds : List GoString) (s : GoString) (v w : V) (rm r : RouteMatcher V)
      → add_domains ds v rm ≡ some r
      → Wildcard r s w
      → Wildcard rm s w
        ⊎ ((d : GoString) × Named d ds × (to_lower d ≡ 42 ∷ s) × (0 < length s) × (v ≡ w))
  unfolding add_domains
  add_domains-only [] s v w rm r e h = let same : rm ≡ r = some_eq e in inl (rw same h)
  add_domains-only (f ∷ ds) s v w rm r e h =
      let (rm1, one, others) =
        then_with_lem (add_domain (to_lower f) v rm) (add_domains ds v) r e in
      elim (add_domains-only ds s v w rm1 r others h) [
        | inr (d, n, star, long, same) ↦ inr (d, inr n, star, long, same)
        | inl before ↦ elim (add_domain-only (to_lower f) s v w rm rm1 one before) [
          | inl k ↦ inl k
          | inr (star, long, same) ↦ inr (f, inl refl, star, long, same)
        ]
      ]
