-- ===== src/Prelude/Rows.antt =====
-- Tables as lists of rows with keys: what an update by key changes.
use Prim.Native.Nat.{ℕ, ◌≤◌, ◌<◌}
use mathlib.Core.Path.{◌≡◌, refl, ap, subst, sym, ◌∙◌}
use mathlib.Core.Logic.{◌⊎◌, inl, inr}
use mathlib.Core.Bool.{Bool, true, false}
use mathlib.Core.List.{List, [], ◌∷◌, ◌++◌}
use mathlib.Core.Option.{none, some}
use native.Mathlib.Omega.{arith}
use bond_trading.Prelude.Tests.{◌==◌, if◌then◌else◌, Bool-cases, some_injective}
use bond_trading.Prelude.Lists.{any, find, count, update_where, All}

-- The row is one of the table's.
abbrev pub In : {A : Type 0} → A → List A → Type 0
In a [] = ⊥
In a (x ∷ xs) = (a ≡ x) ⊎ In a xs

pub false-true : {b : Bool} → b ≡ false → b ≡ true → ⊥
false-true p q = cc

module _ {A : Type 0} (key : A → ℕ) where
  -- No two rows have one key.
  abbrev pub Distinct : List A → Type 0
  Distinct [] = Unit {0}
  Distinct (x ∷ xs) = (any (λ y. key y == key x) xs ≡ false) × Distinct xs

  pub In-any : (a : A) (xs : List A) → In a xs → any (λ y. key y == key a) xs ≡ true
  In-any a [] m = absurd m
  In-any a (x ∷ xs) (inl e) = rw e (ground arith)
  In-any a (x ∷ xs) (inr m) = ground (arith, In-any a xs m)

  update_absent :
      (k : ℕ) (f : A → A) (xs : List A)
      → any (λ y. key y == k) xs ≡ false
      → update_where (λ y. key y == k) f xs ≡ xs
  update_absent k f [] h = refl
  update_absent k f (x ∷ xs) h = ground (arith, update_absent k f xs)

  -- An update by a row's key touches that row alone.
  pub All-update_key :
      (P : A → Type 0) (f : A → A) (a : A) (xs : List A)
      → Distinct xs
      → In a xs
      → All P xs
      → P (f a)
      → All P (update_where (λ y. key y == key a) f xs)
  All-update_key P f a [] d m h p = tt
  All-update_key P f a (x ∷ xs) d (inl e) h p =
      let hit : (key x == key a) ≡ true = rw e (ground arith) in
      let rest : update_where (λ y. key y == key a) f xs ≡ xs =
        update_absent (key a) f xs
          (subst (λ b. any (λ y. key y == key b) xs ≡ false) (sym e) d.0) in
      rw hit (subst (λ b. P (f b)) e p, rw rest h.1)
  All-update_key P f a (x ∷ xs) d (inr m) h p = elim (Bool-cases (key x == key a)) [
    | inl hit ↦
        let same : key x ≡ key a = ground arith in
        absurd (false-true (subst (λ k. any (λ y. key y == k) xs ≡ false) same d.0) (In-any a xs m))
    | inr miss ↦ rw miss (h.0, All-update_key P f a xs d.1 m h.1 p)
  ]

  any-update :
      (k j : ℕ) (f : A → A) (xs : List A)
      → ((x : A) → key (f x) ≡ key x)
      → any (λ y. key y == k) (update_where (λ y. key y == j) f xs) ≡ any (λ y. key y == k) xs
  any-update k j f [] h = refl
  any-update k j f (x ∷ xs) h = ground (arith, h x, any-update k j f xs h)

  -- Keys stay distinct where an update keeps them.
  pub Distinct-update :
      (j : ℕ) (f : A → A) (xs : List A)
      → ((x : A) → key (f x) ≡ key x)
      → Distinct xs
      → Distinct (update_where (λ y. key y == j) f xs)
  Distinct-update j f [] h d = tt
  Distinct-update j f (x ∷ xs) h d =
      let head : key (if key x == j then f x else x) ≡ key x = ground (arith, h x) in
      (rw head (rw (any-update (key x) j f xs h) d.0), Distinct-update j f xs h d.1)

module _ {A : Type 0} where
  pub find-In : (p : A → Bool) (xs : List A) {a : A} → find p xs ≡ some a → In a xs × (p a ≡ true)
  find-In p [] h = absurd (cc)
  find-In p (x ∷ xs) {a} h = elim (Bool-cases (p x)) [
    | inl hit ↦ let e : a ≡ x = ground arith in (inl e, rw e hit)
    | inr miss ↦ let r = find-In p xs {a = a} (ground arith) in (inr r.0, r.1)
  ]

  pub All-In : (P : A → Type 0) (a : A) (xs : List A) → All P xs → In a xs → P a
  All-In P a [] h m = absurd m
  All-In P a (x ∷ xs) h (inl e) = rw e h.0
  All-In P a (x ∷ xs) h (inr m) = All-In P a xs h.1 m

  pub find-none : (p : A → Bool) (xs : List A) → find p xs ≡ none → count p xs ≡ 0
  find-none p [] h = refl
  find-none p (x ∷ xs) h = ground (arith, find-none p xs)

  pub count-update-le :
      (P : A → Type 0) (p q : A → Bool) (f : A → A) (xs : List A)
      → ((x : A) → P x → p (f x) ≡ true → p x ≡ true)
      → All P xs
      → count p (update_where q f xs) ≤ count p xs
  count-update-le P p q f [] k h = omega arith
  count-update-le P p q f (x ∷ xs) k h = ground (arith, k x h.0, count-update-le P p q f xs k h.1)

  pub All-update :
      (P : A → Type 0) (q : A → Bool) (f : A → A) (xs : List A)
      → ((x : A) → P x → P (f x))
      → All P xs
      → All P (update_where q f xs)
  All-update P q f [] k h = tt
  All-update P q f (x ∷ xs) k h = elim (Bool-cases (q x)) [
    | inl hit ↦ rw hit (k x h.0, All-update P q f xs k h.1)
    | inr miss ↦ rw miss (h.0, All-update P q f xs k h.1)
  ]

module _ {A : Type 0} (key : A → ℕ) where
  fresh_key : (n : ℕ) (xs : List A) → All (λ x. key x < n) xs → any (λ y. key y == n) xs ≡ false
  fresh_key n [] h = refl
  fresh_key n (x ∷ xs) h = ground (arith, fresh_key n xs h.1)

  any-snoc :
      (k : ℕ) (a : A) (xs : List A)
      → any (λ y. key y == k) xs ≡ false
      → (key a == k) ≡ false
      → any (λ y. key y == k) (xs ++ a ∷ []) ≡ false
  any-snoc k a [] h e = ground arith
  any-snoc k a (x ∷ xs) h e = ground (arith, any-snoc k a xs)

  -- A row whose key is above all keys of the table may be added.
  pub Distinct-snoc :
      (a : A) (xs : List A)
      → All (λ x. key x < key a) xs
      → Distinct key xs
      → Distinct key (xs ++ a ∷ [])
  Distinct-snoc a [] h d = (refl, tt)
  Distinct-snoc a (x ∷ xs) h d =
      (any-snoc (key x) a xs d.0 (ground arith), Distinct-snoc a xs h.1 d.1)

  pub In-update :
      (f : A → A) (a : A) (xs : List A)
      → In a xs
      → In (f a) (update_where (λ y. key y == key a) f xs)
  In-update f a [] m = absurd m
  In-update f a (x ∷ xs) (inl e) =
      let hit : (key x == key a) ≡ true = rw e (ground arith) in rw hit (inl (ap f e))
  In-update f a (x ∷ xs) (inr m) = inr (In-update f a xs m)

  -- A query by key finds the row that has the key.
  pub find-key :
      (a : A) (xs : List A) → Distinct key xs → In a xs → find (λ y. key y == key a) xs ≡ some a
  find-key a [] d m = absurd m
  find-key a (x ∷ xs) d (inl e) =
      let hit : (key x == key a) ≡ true = rw e (ground arith) in rw hit (ap some (sym e))
  find-key a (x ∷ xs) d (inr m) = elim (Bool-cases (key x == key a)) [
    | inl hit ↦
        let same : key x ≡ key a = ground arith in
        absurd
          (false-true (subst (λ k. any (λ y. key y == k) xs ≡ false) same d.0) (In-any key a xs m))
    | inr miss ↦ rw miss (find-key a xs d.1 m)
  ]

module _ {A : Type 0} where
  pub find-snoc :
      (p : A → Bool) (a : A) (xs : List A)
      → any p xs ≡ false
      → p a ≡ true
      → find p (xs ++ a ∷ []) ≡ some a
  find-snoc p a [] h e = rw e
  find-snoc p a (x ∷ xs) h e = ground (arith, find-snoc p a xs)

  pub All-update_where :
      (P : A → Type 0) (q : A → Bool) (f : A → A) (xs : List A)
      → ((x : A) → P (if q x then f x else x))
      → All P (update_where q f xs)
  All-update_where P q f [] k = tt
  All-update_where P q f (x ∷ xs) k = (k x, All-update_where P q f xs k)

pub find-none-any : {A : Type 0} (p : A → Bool) (xs : List A) → find p xs ≡ none → any p xs ≡ false
find-none-any p [] h = refl
find-none-any p (x ∷ xs) h = ground (arith, find-none-any p xs)

-- A query that an update does not touch finds the updated row.
pub find-update :
    {A : Type 0} (p q : A → Bool) (f : A → A) (xs : List A) {a : A}
    → ((x : A) → p (f x) ≡ p x)
    → find p xs ≡ some a
    → q a ≡ true
    → find p (update_where q f xs) ≡ some (f a)
find-update p q f [] k h e = absurd (cc)
find-update p q f (x ∷ xs) {a} k h e = elim (Bool-cases (p x)) [
  | inl hit ↦
      let same : x ≡ a = some_injective (rw (hit, find) at h) in
      let chosen : q x ≡ true = rw same e in
      let kept : p (f x) ≡ true = k x ∙ hit in rw (chosen, kept) (ap (λ y. some (f y)) same)
  | inr miss ↦
      let rest : find p xs ≡ some a = rw (miss, find) at h in
      elim (Bool-cases (q x)) [
        | inl chosen ↦
            let kept : p (f x) ≡ false = k x ∙ miss in
            rw (chosen, kept) (find-update p q f xs k rest e)
        | inr other ↦ rw (other, miss) (find-update p q f xs k rest e)
      ]
]

pub In-append : {A : Type 0} (a : A) (xs ys : List A) → In a xs → In a (xs ++ ys)
In-append a [] ys m = absurd m
In-append a (x ∷ xs) ys (inl e) = inl e
In-append a (x ∷ xs) ys (inr m) = inr (In-append a xs ys m)

pub In-append_right : {A : Type 0} (a : A) (xs ys : List A) → In a ys → In a (xs ++ ys)
In-append_right a [] ys m = m
In-append_right a (x ∷ xs) ys m = inr (In-append_right a xs ys m)

pub any-In-false :
    {A : Type 0} (p : A → Bool) (a : A) (xs : List A) → any p xs ≡ false → In a xs → p a ≡ false
any-In-false p a [] h m = absurd m
any-In-false p a (x ∷ xs) h (inl e) = rw e (ground arith)
any-In-false p a (x ∷ xs) h (inr m) = any-In-false p a xs (ground arith) m
