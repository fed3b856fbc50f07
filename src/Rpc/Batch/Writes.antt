-- ===== src/Rpc/Batch/Writes.antt =====
-- What the writes of a batch (src/rpc.rs) leave in the output, element by element.
use y_delta_crankers.Base.{
  ℕ, zero, suc, ◌+◌, ◌≤◌, ◌<◌, ◌≡◌, ◌⊎◌, inl, inr, refl, ap, subst, ◌∙◌, List, [], ◌∷◌, some, take,
  drop, length, map, get_elem?, arith,
}
use y_delta_crankers.Rpc.Batch

module _ {A : Type 0} where
  unfoldable Elsewhere : ℕ → List A → List A → Type 0
  Elsewhere i xs ys = (j : ℕ) → (j ≡ i → ⊥) → get_elem? xs j ≡ get_elem? ys j

  Elsewhere-front : (a x : A) (xs : List A) → Elsewhere 0 (a ∷ xs) (x ∷ xs)
  unfolding Elsewhere
  Elsewhere-front a x xs zero d = absurd (d refl)
  Elsewhere-front a x xs (suc j) d = refl

  Elsewhere-behind :
      (x : A) (i : ℕ) (xs ys : List A) → Elsewhere i xs ys → Elsewhere (suc i) (x ∷ xs) (x ∷ ys)
  unfolding Elsewhere
  Elsewhere-behind x i xs ys h zero d = refl
  Elsewhere-behind x i xs ys h (suc j) d = h j (λ e. d (ap suc e))

  -- A write within the list: the length, the element, and the others.
  set_at-out :
      (i : ℕ) (a : A) (output : List A)
      → i < length output
      → (out : List A) × (Batch.set_at i a output ≡ some out)
        × (length out ≡ length output)
        × (get_elem? out i ≡ some a)
        × Elsewhere i out output
  unfolding Batch.set_at
  set_at-out i a [] h = absurd (omega (arith, h))
  set_at-out zero a (x ∷ xs) h = (a ∷ xs, refl, refl, refl, Elsewhere-front a x xs)
  set_at-out (suc i) a (x ∷ xs) h =
      let rest = set_at-out i a xs (omega (arith, h)) in
      (x ∷ rest.0, rw rest.1 refl, ap suc rest.2, rest.3, Elsewhere-behind x i rest.0 xs rest.4)

  -- What a write of several leaves.
  unfoldable pub Within : ℕ → List A → List A → List A → Type 0
  Within base accounts out output =
      ((j : ℕ) → j < length accounts → get_elem? out (base + j) ≡ get_elem? accounts j)
      × ((i : ℕ) → (i < base) ⊎ (base + length accounts ≤ i) → get_elem? out i ≡ get_elem? output i)

  at_base :
      (a : A) (base : ℕ) (out : List A)
      → get_elem? out base ≡ some a
      → get_elem? out (base + 0) ≡ some a
  at_base a base out h = subst (λ n. get_elem? out n ≡ some a) (omega arith) h

  one_up :
      (base j : ℕ) (out accounts : List A)
      → get_elem? out (suc base + j) ≡ get_elem? accounts j
      → get_elem? out (base + suc j) ≡ get_elem? accounts j
  one_up base j out accounts h = subst (λ n. get_elem? out n ≡ get_elem? accounts j) (omega arith) h

  cons-Within :
      (base : ℕ) (a : A) (accounts output mid out : List A)
      → get_elem? mid base ≡ some a
      → Elsewhere base mid output
      → Within (suc base) accounts out mid
      → Within base (a ∷ accounts) out output
  unfolding Within Elsewhere
  cons-Within base a accounts output mid out e away w = (inside, outside)
    where
      inside :
          (j : ℕ)
          → j < suc (length accounts)
          → get_elem? out (base + j) ≡ get_elem? (a ∷ accounts) j
      inside zero l = at_base a base out (w.1 base (inl (omega arith)) ∙ e)
      inside (suc j) l = one_up base j out accounts (w.0 j (omega arith))

      outside :
          (i : ℕ)
          → (i < base) ⊎ (base + suc (length accounts) ≤ i)
          → get_elem? out i ≡ get_elem? output i
      outside i (inl l) = w.1 i (inl (omega arith)) ∙ away i (λ d. omega (arith, d, l))
      outside i (inr l) = w.1 i (inr (omega arith)) ∙ away i (λ d. omega (arith, d, l))

  pub write_from-out :
      (base : ℕ) (accounts output : List A)
      → base + length accounts ≤ length output
      → (out : List A) × (Batch.write_from base accounts output ≡ some out)
        × (length out ≡ length output)
        × Within base accounts out output
  unfolding Batch.write_from Within
  write_from-out base [] output h =
      (output, refl, refl, (λ j l. absurd (omega (arith, l)), λ i d. refl))
  write_from-out base (a ∷ accounts) output h =
      let first = set_at-out base a output (omega (arith, h)) in
      let rest = write_from-out (suc base) accounts first.0 (omega (arith, h, first.2)) in
      (
        rest.0,
        rw first.1 rest.1,
        rest.2 ∙ first.2,
        cons-Within base a accounts output first.0 rest.0 first.3 first.4 rest.3,
      )

  pub get_elem?-drop :
      (n : ℕ) (xs : List A) (j : ℕ) → get_elem? (drop n xs) j ≡ get_elem? xs (n + j)
  get_elem?-drop zero xs j = ap (λ i. get_elem? xs i) (omega arith)
  get_elem?-drop (suc n) [] j = refl
  get_elem?-drop (suc n) (x ∷ xs) j =
      get_elem?-drop n xs j ∙ ap (λ i. get_elem? (x ∷ xs) i) (suc_add n j)
    where
      suc_add : (n j : ℕ) → suc (n + j) ≡ suc n + j
      suc_add n j = omega arith

  pub get_elem?-take :
      (n : ℕ) (xs : List A) (j : ℕ) → j < n → get_elem? (take n xs) j ≡ get_elem? xs j
  get_elem?-take zero xs j l = absurd (omega (arith, l))
  get_elem?-take (suc n) [] j l = refl
  get_elem?-take (suc n) (x ∷ xs) zero l = refl
  get_elem?-take (suc n) (x ∷ xs) (suc j) l = get_elem?-take n xs j (omega (arith, l))

  pub get_elem?-bound : (xs : List A) (j : ℕ) (x : A) → get_elem? xs j ≡ some x → j < length xs
  get_elem?-bound [] j x e = cc e
  get_elem?-bound (y ∷ xs) zero x e = omega arith
  get_elem?-bound (y ∷ xs) (suc j) x e = omega (arith, get_elem?-bound xs j x e)

module _ {A B : Type 0} (f : A → B) where
  pub get_elem?-map :
      (xs : List A) (j : ℕ) (x : A) → get_elem? xs j ≡ some x → get_elem? (map f xs) j ≡ some (f x)
  get_elem?-map [] j x e = cc e
  get_elem?-map (y ∷ xs) zero x e = cc e
  get_elem?-map (y ∷ xs) (suc j) x e = get_elem?-map xs j x e

  pub length-map : (xs : List A) → length (map f xs) ≡ length xs
  length-map [] = refl
  length-map (x ∷ xs) = ap suc (length-map xs)

  -- A list with the images in their places is the list of the images.
  pub same_map :
      (xs : List A) (out : List B)
      → length out ≡ length xs
      → ((i : ℕ) (x : A) → get_elem? xs i ≡ some x → get_elem? out i ≡ some (f x))
      → out ≡ map f xs
  same_map [] [] l h = refl
  same_map [] (o ∷ out) l h = absurd (omega (arith, l))
  same_map (x ∷ xs) [] l h = absurd (omega (arith, l))
  same_map (x ∷ xs) (o ∷ out) l h =
      cc (h 0 x refl, same_map xs out (omega (arith, l)) (λ i y e. h (suc i) y e))
