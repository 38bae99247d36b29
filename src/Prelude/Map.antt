-- ===== src/Prelude/Map.antt =====
-- `std::unordered_map` as an association list. The order of the list stands for the order in which
-- the program iterates, which C++ leaves open.
use mathlib.Core.Path.{◌≡◌, refl}
use mathlib.Core.Bool.{Bool}
use mathlib.Core.Option.{Option, none, some}
use mathlib.Core.List.{List, [], ◌∷◌}
use native.Mathlib.Omega.{arith}
use simple_chat_protocol.Prelude.Tests.{if◌then◌else◌, is_some}
use simple_chat_protocol.Prelude.Lists.{All}
use simple_chat_protocol.Prelude.Eq.{Equality}

abbrev pub Map {ℓ} : Type ℓ → Type ℓ → Type ℓ
Map K V = List (K × V)

module _ {ℓ} {K V : Type ℓ} ⦃e : Equality K⦄ where
  -- m.find(k)
  unfoldable pub find : K → Map K V → Option V
  find k [] = none
  find k ((j, v) ∷ m) = if e.beq j k then some v else find k m

  -- m.count(k)
  abbrev pub count : K → Map K V → Bool
  count k m = is_some (find k m)

  -- m[k] = v
  unfoldable pub insert : K → V → Map K V → Map K V
  insert k v [] = (k, v) ∷ []
  insert k v ((j, w) ∷ m) = if e.beq j k then (j, v) ∷ m else (j, w) ∷ insert k v m

  -- m.erase(k)
  unfoldable pub erase : K → Map K V → Map K V
  erase k [] = []
  erase k ((j, w) ∷ m) = if e.beq j k then m else (j, w) ∷ erase k m

  -- A write through the pointer stored under k.
  unfoldable pub modify : K → (V → V) → Map K V → Map K V
  modify k f [] = []
  modify k f ((j, w) ∷ m) = if e.beq j k then (j, f w) ∷ m else (j, w) ∷ modify k f m

  -- No key is listed twice.
  abbrev pub Distinct : Map K V → Type ℓ
  Distinct [] = Unit
  Distinct ((k, v) ∷ m) = (find k m ≡ none) × Distinct m

abbrev pub map_option {ℓ} : {A B : Type ℓ} → (A → B) → Option A → Option B
map_option f none = none
map_option f (some a) = some (f a)

pub map_option-eq-some {ℓ} :
    {A B : Type ℓ} (f : A → B) (o : Option A) (b : B)
    → map_option f o ≡ some b
    → (a : A) × (o ≡ some a) × (f a ≡ b)
map_option-eq-some f none b e = cc
map_option-eq-some f (some a) b e = (a, refl, cc)

module _ {ℓ} {K V : Type ℓ} ⦃e : Equality K⦄ where
  pub find-insert :
      (k j : K) (v : V) (m : Map K V)
      → find j (insert k v m) ≡ (if e.beq k j then some v else find j m)
  unfolding find insert
  find-insert k j v [] = refl
  find-insert k j v ((i, w) ∷ m) =
      ground (arith, e.beq_iff k j, e.beq_iff i k, e.beq_iff i j, find-insert k j v m)

  pub find-modify :
      (k j : K) (f : V → V) (m : Map K V)
      → find j (modify k f m) ≡ (if e.beq k j then map_option f (find j m) else find j m)
  unfolding find modify
  find-modify k j f [] = ground arith
  find-modify k j f ((i, w) ∷ m) =
      ground (arith, e.beq_iff k j, e.beq_iff i k, e.beq_iff i j, find-modify k j f m)

  pub find-erase :
      (k j : K) (m : Map K V)
      → Distinct m
      → find j (erase k m) ≡ (if e.beq k j then none else find j m)
  unfolding find erase
  find-erase k j [] d = ground arith
  find-erase k j ((i, w) ∷ m) d =
      ground (arith, e.beq_iff k j, e.beq_iff i k, e.beq_iff i j, find-erase k j m d.1)

  pub insert-Distinct : (k : K) (v : V) (m : Map K V) → Distinct m → Distinct (insert k v m)
  unfolding insert find
  insert-Distinct k v [] d = (refl, tt)
  insert-Distinct k v ((i, w) ∷ m) d =
      ground (arith, e.beq_iff i k, e.beq_iff k i, insert-Distinct k v m d.1, find-insert k i v m)

  pub modify-Distinct : (k : K) (f : V → V) (m : Map K V) → Distinct m → Distinct (modify k f m)
  unfolding modify
  modify-Distinct k f [] d = tt
  modify-Distinct k f ((i, w) ∷ m) d =
      ground (arith, modify-Distinct k f m d.1, find-modify k i f m)

  pub erase-Distinct : (k : K) (m : Map K V) → Distinct m → Distinct (erase k m)
  unfolding erase
  erase-Distinct k [] d = tt
  erase-Distinct k ((i, w) ∷ m) d = ground (arith, erase-Distinct k m d.1, find-erase k i m d.1)

  -- What is written to an entry that is erased does not matter.
  pub erase-modify_self : (k : K) (f : V → V) (m : Map K V) → erase k (modify k f m) ≡ erase k m
  unfolding erase modify
  erase-modify_self k f [] = refl
  erase-modify_self k f ((i, w) ∷ m) = ground (arith, erase-modify_self k f m)

module _ {ℓ} {K V : Type ℓ} ⦃e : Equality K⦄ where
  abbrev pub keys : Map K V → List K
  keys [] = []
  keys ((k, v) ∷ m) = k ∷ keys m

  pub keys-modify : (k : K) (f : V → V) (m : Map K V) → keys (modify k f m) ≡ keys m
  unfolding modify
  keys-modify k f [] = refl
  keys-modify k f ((i, w) ∷ m) = ground (arith, keys-modify k f m)

  pub find-tail :
      (k : K) (v : V) (m : Map K V) (j : K) (u : V)
      → find k m ≡ none
      → find j m ≡ some u
      → find j ((k, v) ∷ m) ≡ some u
  unfolding find
  find-tail k v m j u new h = ground (arith, e.beq_iff k j)

  pub find-head : (k : K) (v : V) (m : Map K V) → find k ((k, v) ∷ m) ≡ some v
  unfolding find
  find-head k v m = ground (arith, e.beq_iff k k)

  -- What holds of each entry that `find` finds holds of each entry of the list.
  pub All-entries {κ} :
      (P : K → V → Type κ) (m : Map K V)
      → Distinct m
      → ((k : K) (v : V) → find k m ≡ some v → P k v)
      → All (λ (e : K × V). P e.0 e.1) m
  All-entries P [] d h = tt
  All-entries P ((k, v) ∷ m) d h = (
    h k v (find-head k v m),
    All-entries P m d.1 (λ j u found. h j u (find-tail k v m j u d.0 found)),
  )
