-- ===== src/Wallet/Insertions.antt =====
-- Insertions into the maps of wallet_state.rs, in any order of iteration.
use mathlib.Core.List.{Permᴰ}
use partymixrust.Prelude.{◌≡◌, ◌≢◌, refl, sym, ◌∙◌, subst, map, ◌∷◌, [], arith, All}
use partymixrust.Prelude.HashMap
use partymixrust.Prelude.HashMap.{HashMap}
use partymixrust.Wallet.Order.{IsMap, IsMap-Permᴰ}

module _ {K V : Type 0} (dec : Discrete K) (k : K) (v : V) where
  insert_empty : HashMap.insert dec k v [] ≡ (k, v) ∷ []
  unfolding HashMap.insert
  insert_empty = refl

  insert_found :
      (e : K × V) (m : HashMap K V) → e.0 ≡ k → HashMap.insert dec k v (e ∷ m) ≡ (k, v) ∷ m
  unfolding HashMap.insert
  insert_found e m same = ground arith

  insert_passed :
      (e : K × V) (m : HashMap K V)
      → e.0 ≢ k
      → HashMap.insert dec k v (e ∷ m) ≡ e ∷ HashMap.insert dec k v m
  unfolding HashMap.insert
  insert_passed e m other = ground arith

  insert-kept :
      (P : K → Type 0) (m : HashMap K V)
      → P k
      → All (λ (e : K × V). P e.0) m
      → All (λ (e : K × V). P e.0) (HashMap.insert dec k v m)
  unfolding HashMap.insert
  insert-kept P [] new h = (new, tt)
  insert-kept P (e ∷ m) new h = elim (dec e.0 k) [
    | yes same ↦ ground arith
    | no other ↦ ground (arith, insert-kept P m new h.1)
  ]

  -- An insertion keeps the keys different.
  pub insert-IsMap : (m : HashMap K V) → IsMap m → IsMap (HashMap.insert dec k v m)
  insert-IsMap [] h = rw insert_empty (tt, tt)
  insert-IsMap (e ∷ m) h = elim (dec e.0 k) [
    | yes same ↦
        rw (insert_found e m same) (subst (λ j. All (λ (d : K × V). j ≢ d.0) m) same h.0, h.1)
    | no other ↦
        rw (insert_passed e m other) (insert-kept (λ j. e.0 ≢ j) m other h.0, insert-IsMap m h.1)
  ]

  pub insert-Permᴰ :
      {m m' : HashMap K V}
      → Permᴰ m m'
      → IsMap m
      → Permᴰ (HashMap.insert dec k v m) (HashMap.insert dec k v m')
  insert-Permᴰ Permᴰ.nil h = rw insert_empty (Permᴰ.cons refl Permᴰ.nil)
  insert-Permᴰ (Permᴰ.cons {a = a} {l₁ = l} {l₂ = l'} e r) h = rw (← e) (elim (dec a.0 k) [
    | yes same ↦ rw (insert_found a l same, insert_found a l' same) (Permᴰ.cons refl r)
    | no other ↦
        rw (insert_passed a l other, insert_passed a l' other)
          (Permᴰ.cons refl (insert-Permᴰ r h.1))
  ])
  insert-Permᴰ (Permᴰ.swap {a = a} {b = b} {l = l} e d) h =
      rw (← e, ← d)
        (elim (dec a.0 k) [
          | yes same ↦
              let other : b.0 ≢ k = λ q. h.0.0 (same ∙ sym q) in
              rw (insert_found a (b ∷ l) same, insert_passed b (a ∷ l) other, insert_found a l same)
                (Permᴰ.swap refl refl)
          | no other ↦ elim (dec b.0 k) [
            | yes same ↦
                rw
                  (
                    insert_passed a (b ∷ l) other,
                    insert_found b l same,
                    insert_found b (a ∷ l) same,
                  )
                  (Permᴰ.swap refl refl)
            | no other' ↦
                rw
                  (
                    insert_passed a (b ∷ l) other,
                    insert_passed b l other',
                    insert_passed b (a ∷ l) other',
                    insert_passed a l other,
                  )
                  (Permᴰ.swap refl refl)
          ]
        ])
  insert-Permᴰ (Permᴰ.trans r r') h =
      Permᴰ.trans (insert-Permᴰ r h) (insert-Permᴰ r' (IsMap-Permᴰ r h))

module _ {K V : Type 0} (f : V → V) where
  abbrev pub each : HashMap K V → HashMap K V
  each = map (λ e. (e.0, f e.1))

  pub each-Permᴰ : {m m' : HashMap K V} → Permᴰ m m' → Permᴰ (each m) (each m')
  each-Permᴰ Permᴰ.nil = Permᴰ.nil
  each-Permᴰ (Permᴰ.cons e r) = rw e (Permᴰ.cons refl (each-Permᴰ r))
  each-Permᴰ (Permᴰ.swap e d) = rw (e, d) (Permᴰ.swap refl refl)
  each-Permᴰ (Permᴰ.trans r r') = Permᴰ.trans (each-Permᴰ r) (each-Permᴰ r')

  each-kept :
      (P : K → Type 0) (m : HashMap K V)
      → All (λ (e : K × V). P e.0) m
      → All (λ (e : K × V). P e.0) (each m)
  each-kept P [] h = tt
  each-kept P (e ∷ m) h = (h.0, each-kept P m h.1)

  pub each-IsMap : (m : HashMap K V) → IsMap m → IsMap (each m)
  each-IsMap [] h = tt
  each-IsMap (e ∷ m) h = (each-kept (λ j. e.0 ≢ j) m h.0, each-IsMap m h.1)
