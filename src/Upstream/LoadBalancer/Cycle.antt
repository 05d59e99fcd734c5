-- ===== src/Upstream/LoadBalancer/Cycle.antt =====
-- loadbalancer.go: the order in which the round robin load balancer takes the hosts, over several
-- host sets, some of which may have no healthy host.
use mathlib.Core.List.{append_assoc, append-nil}
use mathlib.Core.Option
use psh_mosn.Base.{
  ℕ, zero, suc, ◌+◌, ◌-◌, ◌*◌, ◌≤◌, ◌<◌, ◌≡◌, refl, sym, ap, ◌∙◌, ◌⊎◌, inl, inr, Option, some, List,
  [], ◌∷◌, ◌++◌, arith, length, length-append,
}
use psh_mosn.Upstream.{Host, HostSet}
use psh_mosn.Upstream.LoadBalancer.{healthy_at, RoundRobin, choose_round_robin}
use psh_mosn.Upstream.LoadBalancer.Turns.{
  choices, after, turn, turns, rounds, at, Small, AtEnd, Fresh, Next, after_nil, after_append,
  pick-within, healthy_at-Small, healthy_at-append, choose-within, choose-over, choices-turn,
}

module _ (sets : List HostSet) (few : length sets < 4294967296) (small : Small sets) where
  abbrev Answered : ℕ → RoundRobin → List (Option Host) → Type 0
  Answered b l hs =
      (l' : RoundRobin) × AtEnd sets l'
      × (choices (length hs + b) sets l ≡ after hs (choices b sets l'))

  none_more : (b : ℕ) → length {A = Host} [] + b ≡ b
  none_more b = omega arith

  choices-turns :
      (ss pre : List HostSet) (p i b : ℕ)
      → sets ≡ pre ++ ss
      → p < length sets
      → length (healthy_at sets p) ≤ i
      → (p + 1 ≡ length pre) ⊎ ((p + 1 ≡ length sets) × (length pre ≡ 0))
      → Answered b (at p i) (turns ss)
  choices-turns [] pre p i b e h k n = (
    at p i,
    (omega (arith, n, ap length e, length-append pre []), k),
    rw (none_more b) (sym (after_nil _)),
  )
  choices-turns (s ∷ ss) pre p i b e h k n =
      let q = length pre in
      let inside : q < length sets = omega (arith, ap length e, length-append pre (s ∷ ss)) in
      let here : healthy_at sets q ≡ s.healthy_hosts =
        ap (λ t. healthy_at t q) e ∙ healthy_at-append pre ss s in
      let next : Next (length sets) p q = elim n [ inl c ↦ inl (c, inside) | inr c ↦ inr c ] in
      let (l', rested, later) =
        choices-turns ss (pre ++ s ∷ []) q (length (healthy_at sets q)) b
          (e ∙ sym (append_assoc pre (s ∷ []) ss)) inside (omega arith)
          (inl (omega (arith, length-append pre (s ∷ [])))) in
      let count : length (turn s.healthy_hosts ++ turns ss) + b
          ≡ length (turn (healthy_at sets q)) + (length (turns ss) + b) =
        omega (
          arith,
          length-append (turn s.healthy_hosts) (turns ss),
          ap (λ hs. length (turn hs)) here,
        ) in
      (
        l',
        rested,
        rw (count, choices-turn sets few small p i q (length (turns ss) + b) h k next, later, here)
            (after_append (turn s.healthy_hosts) (turns ss) _),
      )

  -- Whole cycles, from the end of one.
  rounds-answers : (r : ℕ) (l : RoundRobin) → AtEnd sets l → Answered 0 l (rounds r (turns sets))
  rounds-answers zero l done = (l, done, rw (none_more 0) (sym (after_nil _)))
  rounds-answers (suc r) l done =
      let (l1, done1, first) =
        choices-turns sets [] l.rr_index_priority l.rr_index (length (rounds r (turns sets)) + 0)
          refl (omega (arith, done.0)) done.1 (inr (done.0, refl)) in
      let (l2, done2, later) = rounds-answers r l1 done1 in
      let count : length (turns sets ++ rounds r (turns sets)) + 0
          ≡ length (turns sets) + (length (rounds r (turns sets)) + 0) =
        omega (arith, length-append (turns sets) (rounds r (turns sets))) in
      (l2, done2, rw (count, first, later) (after_append (turns sets) (rounds r (turns sets)) _))

length-rounds : (r : ℕ) (hs : List (Option Host)) → length (rounds r hs) ≡ r * length hs
length-rounds zero hs = omega arith
length-rounds (suc r) hs = omega (arith, length-append hs (rounds r hs), length-rounds r hs)

rounds-AtEnd :
    (sets : List HostSet) (l : RoundRobin) (r : ℕ)
    → length sets < 4294967296
    → Small sets
    → AtEnd sets l
    → Option.map (λ a. a.0) (choices (r * length (turns sets)) sets l)
      ≡ some (rounds r (turns sets))
unfolding choices
rounds-AtEnd sets l r few small done =
    let (l', rested, same) = rounds-answers sets few small r l done in
    let count : r * length (turns sets) ≡ length (rounds r (turns sets)) + 0 =
      omega (arith, length-rounds r (turns sets)) in
    rw (count, same, append-nil (rounds r (turns sets))) refl

-- A fresh balancer chooses as one that is behind its last host set.
choose-fresh :
    (sets : List HostSet) (p : ℕ)
    → length sets < 4294967296
    → Small sets
    → p + 1 ≡ length sets
    → 0 < length (healthy_at sets 0)
    → choose_round_robin sets (at 0 0) ≡ choose_round_robin sets (at p (length (healthy_at sets p)))
choose-fresh sets p few small e some_host =
    choose-within sets few small 0 0 (omega arith) some_host
    ∙ ap some (sym (pick-within 0 0 (healthy_at sets 0) some_host (healthy_at-Small sets 0 small)))
    ∙ sym (choose-over sets few small p _ 0 (omega arith) (omega arith) (inr (e, refl)))

choices-fresh :
    (n : ℕ) (sets : List HostSet) (l l' : RoundRobin)
    → choose_round_robin sets l ≡ choose_round_robin sets l'
    → Option.map (λ a. a.0) (choices n sets l) ≡ Option.map (λ a. a.0) (choices n sets l')
unfolding choices
choices-fresh zero sets l l' e = refl
choices-fresh (suc n) sets l l' e = rw e refl

-- The round robin load balancer, fresh with a healthy host in the first host set or behind the last
-- host of the last one, goes through the host sets in their order for any number of rounds: in each
-- round it answers every healthy host exactly once, in the order of its host set, and once nil for a
-- host set without healthy hosts. It does not panic. The host sets and each one's healthy hosts are
-- fewer than 2^32, and there is a host set.
pub choices-rounds :
    (sets : List HostSet) (l : RoundRobin) (r : ℕ)
    → length sets < 4294967296
    → Small sets
    → Fresh sets l ⊎ AtEnd sets l
    → Option.map (λ a. a.0) (choices (r * length (turns sets)) sets l)
      ≡ some (rounds r (turns sets))
choices-rounds sets l r few small (inr done) = rounds-AtEnd sets l r few small done
choices-rounds sets l r few small (inl (start, some_set, some_host)) =
    let p : ℕ = length sets - 1 in
    let e : p + 1 ≡ length sets = omega arith in
    let last : RoundRobin = at p (length (healthy_at sets p)) in
    rw start (
      choices-fresh (r * length (turns sets)) sets (at 0 0) last
        (choose-fresh sets p few small e some_host)
      ∙ rounds-AtEnd sets last r few small (e, omega arith))
