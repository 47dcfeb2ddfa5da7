-- ===== src/Registry/Node/Streams/Merging.antt =====
-- Texts of several writers as one: each writer's messages keep their order.
use car_integrated_service_m.Prelude.{
  List, [], ◌∷◌, ◌++◌, append_assoc, append-nil, All, ◌≡◌, refl, sym, subst,
}
use car_integrated_service_m.Broker.Order.{Sublist, nothing, skip, keep}

module _ {ℓ} {T : Type ℓ} where
  -- The second list interleaves those of the first.
  pub data Merges : List (List T) → List T → Type ℓ where
    none_yet : Merges [] []
    joined : {ls : List (List T)} {zs : List T} → Merges ls zs → Merges ([] ∷ ls) zs
    added :
        {ls : List (List T)} {zs : List T} (before after : List (List T)) (xs : List T) (y : T)
        → ls ≡ before ++ xs ∷ after
        → Merges ls zs
        → Merges (before ++ (xs ++ y ∷ []) ∷ after) (zs ++ y ∷ [])

  pub Merges-append :
      (before after : List (List T)) (xs zs ys : List T)
      → Merges (before ++ xs ∷ after) zs
      → Merges (before ++ (xs ++ ys) ∷ after) (zs ++ ys)
  Merges-append before after xs zs [] h =
      subst (λ us. Merges (before ++ us ∷ after) (zs ++ [])) (sym (append-nil xs))
        (subst (Merges (before ++ xs ∷ after)) (sym (append-nil zs)) h)
  Merges-append before after xs zs (y ∷ ys) h =
      subst (λ us. Merges (before ++ us ∷ after) (zs ++ y ∷ ys)) (append_assoc xs (y ∷ []) ys)
        (subst (Merges (before ++ ((xs ++ y ∷ []) ++ ys) ∷ after)) (append_assoc zs (y ∷ []) ys) (
          Merges-append before after (xs ++ y ∷ []) (zs ++ y ∷ []) ys
            (added before after xs y refl h)))

  All-skip :
      (y : T) (zs : List T) (ls : List (List T))
      → All (λ xs. Sublist xs zs) ls
      → All (λ xs. Sublist xs (zs ++ y ∷ [])) ls
  All-skip y zs [] h = tt
  All-skip y zs (xs ∷ ls) h = (skip y h.0, All-skip y zs ls h.1)

  All-added :
      (y : T) (zs xs : List T) (before after : List (List T))
      → All (λ us. Sublist us zs) (before ++ xs ∷ after)
      → All (λ us. Sublist us (zs ++ y ∷ [])) (before ++ (xs ++ y ∷ []) ∷ after)
  All-added y zs xs [] after h = (keep y h.0, All-skip y zs after h.1)
  All-added y zs xs (us ∷ before) after h = (skip y h.0, All-added y zs xs before after h.1)

  -- Each of the lists stands in the merged one, in its order.
  pub Merges-Sublist :
      (ls : List (List T)) (zs : List T) → Merges ls zs → All (λ xs. Sublist xs zs) ls
  Merges-Sublist _ _ none_yet = tt
  Merges-Sublist _ zs (joined {ls = ls} m) = (nothing, Merges-Sublist ls zs m)
  Merges-Sublist _ _ (added {ls = ls} {zs = zs} before after xs y e m) =
      All-added y zs xs before after (subst (All (λ us. Sublist us zs)) e (Merges-Sublist ls zs m))
