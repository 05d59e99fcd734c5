-- ===== src/Upstream/LoadBalancer/Turns.antt =====
-- loadbalancer.go: the answers of the round robin load balancer while it goes through one host set.
use native.Mathlib.Nat.{mod-eq_of_lt, mod_self}
use mathlib.Core.List.{append_assoc, append-nil}
use mathlib.Core.Option
use psh_mosn.Base.{
  ℕ, zero, suc, ◌+◌, ◌%◌, ◌≤◌, ◌<◌, ◌≡◌, refl, sym, ap, ◌∙◌, ◌⊎◌, inl, inr, false, Option, none,
  some, List, [], ◌∷◌, ◌++◌, arith, leb, le→leb, ◌==◌, map, length, length-append, length-map,
  get_elem?,
}
use psh_mosn.Upstream.{Host, HostSet}
use psh_mosn.Upstream.LoadBalancer.{u32, healthy_at, RoundRobin, pick, choose_round_robin}

-- The answers of several calls, one after the other, and the state behind them.
abbrev pub Answers : Type 0
Answers = Option (List (Option Host) × RoundRobin)

abbrev continued : Option (RoundRobin × Option Host) → (RoundRobin → Answers) → Answers
continued none again = none
continued (some (l, h)) again = Option.map (λ r. (h ∷ r.0, r.1)) (again l)

unfoldable pub choices : ℕ → List HostSet → RoundRobin → Answers
choices zero sets l = some ([], l)
choices (suc n) sets l = continued (choose_round_robin sets l) (λ l'. choices n sets l')

abbrev also : List (Option Host) → List (Option Host) × RoundRobin → List (Option Host) × RoundRobin
also hs r = (hs ++ r.0, r.1)

-- What a host set contributes to a cycle: its healthy hosts in their order, or one nil.
abbrev pub turn : List Host → List (Option Host)
turn [] = none ∷ []
turn (h ∷ hs) = map some (h ∷ hs)

abbrev pub turns : List HostSet → List (Option Host)
turns [] = []
turns (s ∷ sets) = turn s.healthy_hosts ++ turns sets

abbrev pub rounds : ℕ → List (Option Host) → List (Option Host)
rounds zero hs = []
rounds (suc r) hs = hs ++ rounds r hs

abbrev pub at : ℕ → ℕ → RoundRobin
at p i = record { rr_index_priority = p; rr_index = i }

abbrev pub Small : List HostSet → Type 0
Small [] = Unit {0}
Small (s ∷ sets) = (length s.healthy_hosts < 4294967296) × Small sets

-- The state behind the last host of the last host set.
abbrev pub AtEnd : List HostSet → RoundRobin → Type 0
AtEnd sets l =
    (l.rr_index_priority + 1 ≡ length sets)
    × (length (healthy_at sets l.rr_index_priority) ≤ l.rr_index)

-- A balancer that has chosen no host yet, where the first host set has a healthy host.
abbrev pub Fresh : List HostSet → RoundRobin → Type 0
Fresh sets l = (l ≡ at 0 0) × (0 < length sets) × (0 < length (healthy_at sets 0))

-- The host set behind `p` in a cycle of `m`.
abbrev pub Next : ℕ → ℕ → ℕ → Type 0
Next m p q = ((p + 1 ≡ q) × (q < m)) ⊎ ((p + 1 ≡ m) × (q ≡ 0))

mod-Next : (m p q : ℕ) → m < 4294967296 → p < m → Next m p q → u32 (p + 1) % m ≡ q
mod-Next m p q small h (inl (e, k)) =
    let fits : u32 (p + 1) ≡ q = omega arith in rw fits (mod-eq_of_lt k)
mod-Next m p q small h (inr (e, z)) =
    let fits : u32 (p + 1) ≡ m = omega arith in rw (fits, z) (mod_self m)

get_elem?-append : (pre xs : List Host) (x : Host) → get_elem? (pre ++ x ∷ xs) (length pre) ≡ some x
get_elem?-append [] xs x = refl
get_elem?-append (y ∷ pre) xs x = get_elem?-append pre xs x

pub pick-within :
    (p i : ℕ) (hs : List Host)
    → i < length hs
    → length hs < 4294967296
    → pick (at p i) hs ≡ (at p (i + 1), get_elem? hs i)
pick-within p i [] h k = absurd (omega arith)
pick-within p i (x ∷ hs) h k =
    let whole : u32 (length (x ∷ hs)) ≡ length (x ∷ hs) = omega arith in
    let up : u32 (i + 1) ≡ i + 1 = omega arith in rw (whole, up, mod-eq_of_lt h) refl

pub healthy_at-Small :
    (sets : List HostSet) (p : ℕ) → Small sets → length (healthy_at sets p) < 4294967296
healthy_at-Small [] p h = omega arith
healthy_at-Small (s ∷ sets) zero h = h.0
healthy_at-Small (s ∷ sets) (suc p) h = healthy_at-Small sets p h.1

pub healthy_at-append :
    (pre ss : List HostSet) (s : HostSet)
    → healthy_at (pre ++ s ∷ ss) (length pre) ≡ s.healthy_hosts
healthy_at-append [] ss s = refl
healthy_at-append (t ∷ pre) ss s = healthy_at-append pre ss s

-- The answers `hs`, and then those of the state behind them.
abbrev pub after : List (Option Host) → Answers → Answers
after hs o = Option.map (also hs) o

pub after_cons :
    (h : Option Host) (hs : List (Option Host)) (o : Answers)
    → Option.map (λ r. (h ∷ r.0, r.1)) (after hs o) ≡ after (h ∷ hs) o
after_cons h hs none = refl
after_cons h hs (some r) = refl

pub after_nil : (o : Answers) → after [] o ≡ o
after_nil none = refl
after_nil (some r) = refl

pub after_append :
    (hs ks : List (Option Host)) (o : Answers) → after hs (after ks o) ≡ after (hs ++ ks) o
after_append hs ks none = refl
after_append hs ks (some (js, l)) = ap (λ q. some (q, l)) (sym (append_assoc hs ks js))

module _ (sets : List HostSet) (few : length sets < 4294967296) (small : Small sets) where
  pub choose-within :
      (p i : ℕ)
      → p < length sets
      → i < length (healthy_at sets p)
      → choose_round_robin sets (at p i) ≡ some (at p (i + 1), get_elem? (healthy_at sets p) i)
  unfolding choose_round_robin
  choose-within p i h k =
      let num : u32 (length sets) ≡ length sets = omega arith in
      let whole : u32 (length (healthy_at sets p)) ≡ length (healthy_at sets p) =
        omega (arith, healthy_at-Small sets p small) in
      let stay : leb (length (healthy_at sets p)) i ≡ false = ground arith in
      let some_set : (length sets == 0) ≡ false = ground arith in
      rw (num, mod-eq_of_lt h, whole, stay, some_set)
        (ap some (pick-within p i (healthy_at sets p) k (healthy_at-Small sets p small)))

  pub choose-over :
      (p i q : ℕ)
      → p < length sets
      → length (healthy_at sets p) ≤ i
      → Next (length sets) p q
      → choose_round_robin sets (at p i) ≡ some (pick (at q 0) (healthy_at sets q))
  unfolding choose_round_robin
  choose-over p i q h k n =
      let num : u32 (length sets) ≡ length sets = omega arith in
      let whole : u32 (length (healthy_at sets p)) ≡ length (healthy_at sets p) =
        omega (arith, healthy_at-Small sets p small) in
      let some_set : (length sets == 0) ≡ false = ground arith in
      rw (num, mod-eq_of_lt h, whole, le→leb _ _ k, some_set, mod-Next (length sets) p q few h n)
        refl

  -- The rest `xs` of a host set, behind the hosts `pre`.
  choices-within :
      (xs pre : List Host) (p b : ℕ)
      → p < length sets
      → healthy_at sets p ≡ pre ++ xs
      → choices (length xs + b) sets (at p (length pre))
        ≡ after (map some xs) (choices b sets (at p (length (pre ++ xs))))
  unfolding choices
  choices-within [] pre p b h e =
      let same : length {A = Host} [] + b ≡ b = omega arith in
      rw (append-nil pre, same) (sym (after_nil _))
  choices-within (x ∷ xs) pre p b h e =
      let here : length pre < length (healthy_at sets p) =
        omega (arith, ap length e, length-append pre (x ∷ xs)) in
      let found : get_elem? (healthy_at sets p) (length pre) ≡ some x =
        rw e (get_elem?-append pre xs x) in
      let longer : length pre + 1 ≡ length (pre ++ x ∷ []) =
        omega (arith, length-append pre (x ∷ [])) in
      let split : pre ++ x ∷ xs ≡ (pre ++ x ∷ []) ++ xs = sym (append_assoc pre (x ∷ []) xs) in
      let one : length (x ∷ xs) + b ≡ suc (length xs + b) = omega arith in
      rw
        (
          one,
          choose-within p (length pre) h here,
          found,
          longer,
          split,
          choices-within xs (pre ++ x ∷ []) p b h (e ∙ split),
        )
        (after_cons (some x) (map some xs) _)

  pub choices-turn :
      (p i q b : ℕ)
      → p < length sets
      → length (healthy_at sets p) ≤ i
      → Next (length sets) p q
      → choices (length (turn (healthy_at sets q)) + b) sets (at p i)
        ≡ after (turn (healthy_at sets q)) (choices b sets (at q (length (healthy_at sets q))))
  unfolding choices
  choices-turn p i q b h k n = turned (healthy_at sets q) refl
    where
      inside : q < length sets
      inside = elim n [ inl c ↦ c.1 | inr c ↦ omega (arith, c.1) ]

      turned :
          (hs : List Host)
          → healthy_at sets q ≡ hs
          → choices (length (turn hs) + b) sets (at p i)
            ≡ after (turn hs) (choices b sets (at q (length hs)))
      turned [] e =
          let one : length (turn []) + b ≡ suc b = omega arith in
          let empty : pick (at q 0) (healthy_at sets q) ≡ (at q 0, none) = rw e refl in
          rw (one, choose-over p i q h k n, empty) refl
      turned (x ∷ xs) e =
          let one : length (turn (x ∷ xs)) + b ≡ suc (length xs + b) =
            omega (arith, length-map xs (λ (h : Host). some h)) in
          let first : pick (at q 0) (healthy_at sets q) ≡ (at q 1, some x) =
            pick-within q 0 (healthy_at sets q) (omega (arith, ap length e))
              (healthy_at-Small sets q small)
            ∙ rw e refl in
          rw (one, choose-over p i q h k n, first, choices-within xs (x ∷ []) q b inside e)
            (after_cons (some x) (map some xs) _)
