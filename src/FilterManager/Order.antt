-- ===== src/FilterManager/Order.antt =====
-- filtermanager.go: the order in which the read filters learn of the connection.
use mathlib.Core.List.{append_assoc}
use psh_mosn.Base.{
  ℕ, zero, suc, ◌+◌, ◌-◌, ◌<◌, ◌≡◌, refl, sym, ap, ◌∙◌, Bool, true, false, List, [], ◌∷◌, ◌++◌,
  arith, if◌then◌else◌, length, take, drop, get_or, take_prefix, drop_prefix, replicate,
  length-replicate,
}
use psh_mosn.FilterManager.{
  FilterStatus, continue, stop_iteration, FilterCall, on_new_connection, on_data, on_write, Answers,
  unless_stopped, Outcome, called, offer_data, read_loop, on_continue_reading, on_read,
  continue_reading, initialize_read_filters,
}

-- The first `a` filters are initialized, and `b` are not.
abbrev pub flags : ℕ → ℕ → List Bool
flags a b = replicate a true ++ replicate b false

abbrev pub new_connections : List FilterCall → List ℕ
new_connections [] = []
new_connections (on_new_connection i ∷ calls) = i ∷ new_connections calls
new_connections (on_data i ∷ calls) = new_connections calls
new_connections (on_write i ∷ calls) = new_connections calls

-- i, i + 1, …: `n` of them.
abbrev pub upto : ℕ → ℕ → List ℕ
upto i zero = []
upto i (suc n) = i ∷ upto (i + 1) n

-- Some more filters are initialized, each told of the connection once, in order.
abbrev pub Advanced : ℕ → ℕ → ℕ → Outcome → Type 0
Advanced i a b o =
    (c : ℕ) × (d : ℕ) × (c + d ≡ b)
    × (o.0 ≡ flags (a + c) d)
    × (new_connections o.1 ≡ upto (i + a) c)

-- The same, with the numbers written in another way.
recount :
    (i a b i' a' : ℕ) (o : Outcome) (c d : ℕ)
    → c + d ≡ b
    → o.0 ≡ flags a' d
    → new_connections o.1 ≡ upto i' c
    → a' ≡ a + c
    → i' ≡ i + a
    → Advanced i a b o
recount i a b i' a' o c d sum same calls e f =
    (c, d, sum, same ∙ ap (λ k. flags k d) e, calls ∙ ap (λ k. upto k c) f)

-- An initialized filter that lets the loop go on, or stops it.
Advanced-more :
    (i a b : ℕ) (rest : Outcome)
    → Advanced (i + 1) a b rest
    → Advanced i (suc a) b (true ∷ rest.0, rest.1)
Advanced-more i a b rest (c, d, sum, same, calls) =
    recount i (suc a) b (i + 1 + a) (suc (a + c)) (true ∷ rest.0, rest.1) c d sum
      (ap (λ q. true ∷ q) same) calls (omega arith) (omega arith)

Advanced-stopped :
    (i a b : ℕ) (calls : List FilterCall)
    → new_connections calls ≡ []
    → Advanced i a b (flags a b, calls)
Advanced-stopped i a b calls none_new =
    recount i a b (i + a) a (flags a b, calls) 0 b (omega arith) refl none_new (omega arith) refl

offer_data-Advanced :
    (x : Answers) (i a b : ℕ) (rest : Outcome)
    → Advanced (i + 1) a b rest
    → Advanced i (suc a) b (offer_data x i (flags a b) rest)
offer_data-Advanced x i a b rest h = offered (x.has_data i) (x.data_status i)
  where
    more : Outcome
    more = (true ∷ rest.0, rest.1)

    offered :
        (t : Bool) (s : FilterStatus)
        → Advanced i
            (suc a)
            b
            (if t then called (on_data i) (unless_stopped s more (true ∷ flags a b, [])) else more)
    offered false s = Advanced-more i a b rest h
    offered true continue = Advanced-more i a b rest h
    offered true stop_iteration = Advanced-stopped i (suc a) b (on_data i ∷ []) refl

-- A filter that is told of the connection.
Advanced-new :
    (i b : ℕ) (o : Outcome)
    → Advanced i 1 b o
    → Advanced i 0 (suc b) (called (on_new_connection i) o)
Advanced-new i b o (c, d, sum, same, calls) =
    recount i 0 (suc b) i (1 + c) (called (on_new_connection i) o) (suc c) d (omega arith) same
      (ap (λ q. i ∷ q) calls) (omega arith) (omega arith)

read_loop-Advanced : (x : Answers) (a b i : ℕ) → Advanced i a b (read_loop x i (flags a b))
unfolding read_loop
read_loop-Advanced x (suc a) b i =
    offer_data-Advanced x i a b (read_loop x (i + 1) (flags a b)) (read_loop-Advanced x a b (i + 1))
read_loop-Advanced x zero zero i = Advanced-stopped i 0 0 [] refl
read_loop-Advanced x zero (suc b) i = told (read_loop-Advanced x 0 b (i + 1)) (x.new_connection i)
  where
    offered : Outcome
    offered = offer_data x i (flags 0 b) (read_loop x (i + 1) (flags 0 b))

    told :
        Advanced (i + 1) 0 b (read_loop x (i + 1) (flags 0 b))
        → (s : FilterStatus)
        → Advanced i 0
            (suc b)
            (called (on_new_connection i) (unless_stopped s offered (true ∷ flags 0 b, [])))
    told h continue =
        Advanced-new i b offered (offer_data-Advanced x i 0 b (read_loop x (i + 1) (flags 0 b)) h)
    told h stop_iteration = Advanced-new i b (true ∷ flags 0 b, []) (Advanced-stopped i 1 b [] refl)

replicate_add : (k a : ℕ) → replicate (k + a) true ≡ replicate k true ++ replicate a true
replicate_add zero a = let e : 0 + a ≡ a = omega arith in rw e refl
replicate_add (suc k) a =
    let e : suc k + a ≡ suc (k + a) = omega arith in rw e (ap (λ q. true ∷ q) (replicate_add k a))

flags_split : (k a b : ℕ) → flags (k + a) b ≡ replicate k true ++ flags a b
flags_split k a b =
    ap (λ q. q ++ replicate b false) (replicate_add k a)
    ∙ append_assoc (replicate k true) (replicate a true) (replicate b false)

-- A call that starts behind some of the initialized filters.
on_continue_reading-Advanced :
    (x : Answers) (k a b : ℕ) → Advanced 0 (k + a) b (on_continue_reading x k (flags (k + a) b))
unfolding on_continue_reading
on_continue_reading-Advanced x k a b =
    let long : k ≡ length (replicate k true) = sym (length-replicate k true) in
    let front : take k (flags (k + a) b) ≡ replicate k true =
      ap (take k) (flags_split k a b) ∙ take_prefix (replicate k true) (flags a b) k long in
    let back : drop k (flags (k + a) b) ≡ flags a b =
      ap (drop k) (flags_split k a b) ∙ drop_prefix (replicate k true) (flags a b) k long in
    let (c, d, sum, same, calls) = read_loop-Advanced x a b k in
    rw (front, back)
      (recount 0 (k + a) b (k + a) (k + (a + c))
        (replicate k true ++ (read_loop x k (flags a b)).0, (read_loop x k (flags a b)).1) c d sum
        (ap (λ q. replicate k true ++ q) same ∙ sym (flags_split k (a + c) d)) calls (omega arith)
        (omega arith))

-- The start of the connection, a read of it, or a filter `j` that continues.
pub data Event : Type 0 where
  initializes reads : Answers → Event
  continues : Answers → ℕ → Event

abbrev pub handle : Event → List Bool → Outcome
handle (initializes x) fs = (initialize_read_filters x fs).1
handle (reads x) fs = on_read x fs
handle (continues x j) fs = continue_reading x j fs

unfoldable pub run : List Event → List Bool → Outcome
run [] fs = (fs, [])
run (e ∷ es) fs = let now = handle e fs in let rest = run es now.0 in (rest.0, now.1 ++ rest.1)

-- Only a filter that is initialized, and so has its index, continues.
abbrev pub Ready : Event → List Bool → Type 0
Ready (initializes x) fs = Unit {0}
Ready (reads x) fs = Unit {0}
Ready (continues x j) fs = get_or fs j false ≡ true

abbrev pub AllReady : List Event → List Bool → Type 0
AllReady [] fs = Unit {0}
AllReady (e ∷ es) fs = Ready e fs × AllReady es (handle e fs).0

ready_below : (a b j : ℕ) → get_or (flags a b) j false ≡ true → j < a
ready_below zero zero j h = absurd cc
ready_below zero (suc b) zero h = absurd cc
ready_below zero (suc b) (suc j) h = let below = ready_below zero b j h in omega arith
ready_below (suc a) b zero h = omega arith
ready_below (suc a) b (suc j) h = let below = ready_below a b j h in omega arith

from_start :
    (x : Answers) (k a a' b : ℕ)
    → a ≡ a'
    → Advanced 0 a b (on_continue_reading x k (flags a b))
    → Advanced 0 a' b (on_continue_reading x k (flags a' b))
from_start x k a a' b e h = rw (sym e) h

initialize_read_filters_lem :
    (x : Answers) (fs : List Bool) → (initialize_read_filters x fs).1 ≡ on_read x fs
unfolding initialize_read_filters on_read on_continue_reading read_loop
initialize_read_filters_lem x [] = refl
initialize_read_filters_lem x (f ∷ fs) = refl

on_read-Advanced : (x : Answers) (a b : ℕ) → Advanced 0 a b (on_read x (flags a b))
unfolding on_read
on_read-Advanced x a b =
    let e : 0 + a ≡ a = omega arith in
    from_start x 0 (0 + a) a b e (on_continue_reading-Advanced x 0 a b)

handle-Advanced :
    (e : Event) (a b : ℕ) → Ready e (flags a b) → Advanced 0 a b (handle e (flags a b))
unfolding continue_reading
handle-Advanced (initializes x) a b h =
    rw (initialize_read_filters_lem x (flags a b)) (on_read-Advanced x a b)
handle-Advanced (reads x) a b h = on_read-Advanced x a b
handle-Advanced (continues x j) a b h =
    let below : j < a = ready_below a b j h in
    let e : j + 1 + (a - (j + 1)) ≡ a = omega arith in
    from_start x (j + 1) (j + 1 + (a - (j + 1))) a b e
      (on_continue_reading-Advanced x (j + 1) (a - (j + 1)) b)

new_connections-append :
    (s t : List FilterCall) → new_connections (s ++ t) ≡ new_connections s ++ new_connections t
new_connections-append [] t = refl
new_connections-append (on_new_connection i ∷ s) t = ap (λ q. i ∷ q) (new_connections-append s t)
new_connections-append (on_data i ∷ s) t = new_connections-append s t
new_connections-append (on_write i ∷ s) t = new_connections-append s t

upto_add : (i n k : ℕ) → upto i (n + k) ≡ upto i n ++ upto (i + n) k
upto_add i zero k =
    let e : 0 + k ≡ k = omega arith in let f : i + 0 ≡ i = omega arith in rw (e, f) refl
upto_add i (suc n) k =
    let e : suc n + k ≡ suc (n + k) = omega arith in
    let f : i + suc n ≡ i + 1 + n = omega arith in
    rw (e, f) (ap (λ q. i ∷ q) (upto_add (i + 1) n k))

-- Two steps one after the other.
Advanced-trans :
    (a b : ℕ) (first : Outcome) (next : List Bool → Outcome)
    → Advanced 0 a b first
    → ((c d : ℕ) → first.0 ≡ flags c d → Advanced 0 c d (next first.0))
    → Advanced 0 a b ((next first.0).0, first.1 ++ (next first.0).1)
Advanced-trans a b first next (c, d, sum, same, calls) onward =
    let (c', d', sum', same', calls') = onward (a + c) d same in
    let e : 0 + a ≡ a = omega arith in
    let f : 0 + (a + c) ≡ a + c = omega arith in
    recount 0 a b a (a + c + c') ((next first.0).0, first.1 ++ (next first.0).1) (c + c') d'
      (omega arith) same'
      (new_connections-append first.1 (next first.0).1
        ∙ ap (λ q. q ++ new_connections (next first.0).1) (calls ∙ ap (λ k. upto k c) e)
        ∙ ap (λ q. upto a c ++ q) (calls' ∙ ap (λ k. upto k c') f)
        ∙ sym (upto_add a c c'))
      (omega arith) (omega arith)

run-Advanced :
    (es : List Event) (a b : ℕ) → AllReady es (flags a b) → Advanced 0 a b (run es (flags a b))
unfolding run
run-Advanced [] a b h = Advanced-stopped 0 a b [] refl
run-Advanced (e ∷ es) a b (h, hs) =
    Advanced-trans a b (handle e (flags a b)) (run es) (handle-Advanced e a b h)
      (λ c d same. rw same (run-Advanced es c d (following same hs)))
  where
    following : {fs gs : List Bool} → fs ≡ gs → AllReady es fs → AllReady es gs
    following e h = rw (sym e) h

-- A connection whose n read filters do not know of it yet initializes them, reads, and is told by filters to continue,
-- in any order and with any answers of the filters; only filters that have been told of the connection do. After all that some of the
-- filters at the front of the chain are initialized, and no other, and OnNewConnection has been called for each of
-- these once, from the first to the last.
pub run-in_order :
    (n : ℕ) (es : List Event)
    → AllReady es (replicate n false)
    → (c : ℕ) × (d : ℕ) × (c + d ≡ n)
      × ((run es (replicate n false)).0 ≡ replicate c true ++ replicate d false)
      × (new_connections (run es (replicate n false)).1 ≡ upto 0 c)
run-in_order n es ready =
    let (c, d, sum, same, calls) = run-Advanced es 0 n ready in
    let e : 0 + c ≡ c = omega arith in (c, d, sum, same ∙ ap (λ k. flags k d) e, calls)
