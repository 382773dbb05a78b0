-- ===== src/Prelude/Pairs.antt =====
-- Lists whose elements are related position by position.
use effect_opcua.Prelude.{List, [], ◌∷◌, ◌++◌, map, length, suc, ◌≡◌, refl, ap}

-- The lists have one length, and elements at one position are related.
abbrev pub AllPairs : {A B : Type 0} → (A → B → Type 0) → List A → List B → Type 0
AllPairs R [] [] = Unit
AllPairs R (x ∷ xs) (y ∷ ys) = R x y × AllPairs R xs ys
AllPairs R _ _ = ⊥

pub AllPairs-append :
    {A B : Type 0} (R : A → B → Type 0) (xs xs' : List A) (ys ys' : List B)
    → AllPairs R xs ys
    → AllPairs R xs' ys'
    → AllPairs R (xs ++ xs') (ys ++ ys')
AllPairs-append R [] xs' [] ys' h k = k
AllPairs-append R (x ∷ xs) xs' (y ∷ ys) ys' (r, h) k = (r, AllPairs-append R xs xs' ys ys' h k)
AllPairs-append R [] xs' (y ∷ ys) ys' h k = absurd h
AllPairs-append R (x ∷ xs) xs' [] ys' h k = absurd h

pub length-AllPairs :
    {A B : Type 0} (R : A → B → Type 0) (xs : List A) (ys : List B)
    → AllPairs R xs ys
    → length ys ≡ length xs
length-AllPairs R [] [] h = refl
length-AllPairs R (x ∷ xs) (y ∷ ys) (r, h) = ap suc (length-AllPairs R xs ys h)
length-AllPairs R [] (y ∷ ys) h = absurd h
length-AllPairs R (x ∷ xs) [] h = absurd h

pub AllPairs-of_map :
    {A B C : Type 0} (f : A → B) (R : B → C → Type 0) (xs : List A) (ys : List C)
    → AllPairs R (map f xs) ys
    → AllPairs (λ x. R (f x)) xs ys
AllPairs-of_map f R [] [] h = tt
AllPairs-of_map f R (x ∷ xs) (y ∷ ys) (r, h) = (r, AllPairs-of_map f R xs ys h)
AllPairs-of_map f R [] (y ∷ ys) h = absurd h
AllPairs-of_map f R (x ∷ xs) [] h = absurd h

pub AllPairs-compose :
    {A B C D : Type 0} (P : A → B → Type 0) (f : B → C) (S : C → D → Type 0) (Q : A → D → Type 0)
    (xs : List A) (ys : List B) (zs : List D)
    → ((x : A) (y : B) (z : D) → P x y → S (f y) z → Q x z)
    → AllPairs P xs ys
    → AllPairs S (map f ys) zs
    → AllPairs Q xs zs
AllPairs-compose P f S Q [] [] [] both h k = tt
AllPairs-compose P f S Q (x ∷ xs) (y ∷ ys) (z ∷ zs) both (p, h) (s, k) =
    (both x y z p s, AllPairs-compose P f S Q xs ys zs both h k)
AllPairs-compose P f S Q [] [] (z ∷ zs) both h k = absurd k
AllPairs-compose P f S Q [] (y ∷ ys) zs both h k = absurd h
AllPairs-compose P f S Q (x ∷ xs) [] zs both h k = absurd h
AllPairs-compose P f S Q (x ∷ xs) (y ∷ ys) [] both h k = absurd k

pub map-AllPairs :
    {A B C : Type 0} (P : A → B → Type 0) (f : A → C) (g : B → C) (xs : List A) (ys : List B)
    → ((x : A) (y : B) → P x y → g y ≡ f x)
    → AllPairs P xs ys
    → map g ys ≡ map f xs
map-AllPairs P f g [] [] same h = refl
map-AllPairs P f g (x ∷ xs) (y ∷ ys) same (p, h) =
    λ i. same x y p i ∷ map-AllPairs P f g xs ys same h i
map-AllPairs P f g [] (y ∷ ys) same h = absurd h
map-AllPairs P f g (x ∷ xs) [] same h = absurd h
