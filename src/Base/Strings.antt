-- ===== src/Base/Strings.antt =====
-- Go's strings, as lists of bytes, and its maps with string keys, as association lists in the order in
-- which they are ranged over.
use Prim.Native.Char.{code}
use Prim.Native.String.{String}
use psh_mosn.Base.{
  ℕ, ◌≡◌, refl, ◌↔◌, Bool, true, false, ◌&&◌, Option, none, some, List, [], ◌∷◌, ◌++◌, arith, ◌==◌,
  if◌then◌else◌, ap, ◌∙◌,
}

abbrev pub GoString : Type 0
GoString = List ℕ

-- The bytes of an ASCII literal.
abbrev pub text : String → GoString
text String.[] = []
text (String.◌∷◌ c s) = code c ∷ text s

abbrev pub str_eq : GoString → GoString → Bool
str_eq [] [] = true
str_eq (a ∷ s) (b ∷ t) = (a == b) && str_eq s t
str_eq _ _ = false

pub str_eq_refl : (s : GoString) → str_eq s s ≡ true
str_eq_refl [] = refl
str_eq_refl (a ∷ s) = ground (arith, str_eq_refl s)

pub str_eq→eq : (s t : GoString) → str_eq s t ≡ true → s ≡ t
str_eq→eq [] [] h = refl
str_eq→eq [] (b ∷ t) h = cc
str_eq→eq (a ∷ s) [] h = cc
str_eq→eq (a ∷ s) (b ∷ t) h = ground (arith, str_eq→eq s t)

pub str_eq_iff : (s t : GoString) → (str_eq s t ≡ true) ↔ (s ≡ t)
str_eq_iff s t = (str_eq→eq s t, λ e. rw e (str_eq_refl t))

pub str_eq_sym : (s t : GoString) → str_eq s t ≡ str_eq t s
str_eq_sym s t = ground (arith, str_eq_iff s t, str_eq_iff t s)

module _ {ℓ} {V : Type ℓ} where
  abbrev pub lookup : GoString → List (GoString × V) → Option V
  lookup k [] = none
  lookup k ((j, v) ∷ m) = if str_eq j k then some v else lookup k m

  -- m[k] = v
  abbrev pub insert : GoString → V → List (GoString × V) → List (GoString × V)
  insert k v [] = (k, v) ∷ []
  insert k v ((j, w) ∷ m) = if str_eq j k then (k, v) ∷ m else (j, w) ∷ insert k v m

  -- delete(m, k)
  abbrev pub delete : GoString → List (GoString × V) → List (GoString × V)
  delete k [] = []
  delete k ((j, w) ∷ m) = if str_eq j k then m else (j, w) ∷ delete k m

  pub lookup-insert :
      (k j : GoString) (v : V) (m : List (GoString × V))
      → lookup j (insert k v m) ≡ (if str_eq k j then some v else lookup j m)
  lookup-insert k j v [] = refl
  lookup-insert k j v ((i, w) ∷ m) =
      ground (arith, str_eq_iff k j, str_eq_iff i k, str_eq_iff i j, lookup-insert k j v m)

  -- No key stands twice: what Go's maps guarantee.
  abbrev pub Absent : GoString → List (GoString × V) → Type 0
  Absent k [] = Unit {0}
  Absent k ((j, w) ∷ m) = (str_eq j k ≡ false) × Absent k m

  abbrev pub Unique : List (GoString × V) → Type 0
  Unique [] = Unit {0}
  Unique ((j, w) ∷ m) = Absent j m × Unique m

  pub lookup-Absent : (k : GoString) (m : List (GoString × V)) → Absent k m → lookup k m ≡ none
  lookup-Absent k [] h = refl
  lookup-Absent k ((j, w) ∷ m) h = rw (h.0) (lookup-Absent k m h.1)

  pub insert-Absent :
      (k : GoString) (v : V) (m : List (GoString × V))
      → Absent k m
      → insert k v m ≡ m ++ (k, v) ∷ []
  insert-Absent k v [] h = refl
  insert-Absent k v ((j, w) ∷ m) h = rw (h.0) (ap (λ q. (j, w) ∷ q) (insert-Absent k v m h.1))

  Absent-append :
      (j : GoString) (m : List (GoString × V)) (k : GoString) (v : V)
      → Absent j m
      → str_eq k j ≡ false
      → Absent j (m ++ (k, v) ∷ [])
  Absent-append j [] k v h e = (e, tt)
  Absent-append j ((i, w) ∷ m) k v h e = (h.0, Absent-append j m k v h.1 e)

  -- The keys of `m` are new to `acc`.
  abbrev pub Fresh : List (GoString × V) → List (GoString × V) → Type 0
  Fresh [] acc = Unit {0}
  Fresh ((k, v) ∷ m) acc = Absent k acc × Fresh m acc

  pub Fresh-step :
      (m acc : List (GoString × V)) (k : GoString) (v : V)
      → Absent k m
      → Fresh m acc
      → Fresh m (acc ++ (k, v) ∷ [])
  Fresh-step [] acc k v h f = tt
  Fresh-step ((j, w) ∷ m) acc k v h f =
      (Absent-append j acc k v f.0 (str_eq_sym k j ∙ h.0), Fresh-step m acc k v h.1 f.1)

  pub Fresh-nil : (m : List (GoString × V)) → Fresh m []
  Fresh-nil [] = tt
  Fresh-nil ((k, v) ∷ m) = (tt, Fresh-nil m)
