-- ===== src/Base/Dict.antt =====
-- Python's `dict` with integer keys. The program never iterates over such a dict, so the order of
-- its entries stands for nothing.
use mathlib.Core.Path.{◌≡◌}
use mathlib.Core.Option.{Option, none, some}
use mathlib.Core.List.{List, [], ◌∷◌}
use Prim.Native.Nat.{ℕ}
use native.Mathlib.Omega.{arith}
use windrpc.Base.Tests.{◌==◌, if◌then◌else◌}

abbrev pub Dict {ℓ} : Type ℓ → Type ℓ
Dict V = List (ℕ × V)

module _ {ℓ} {V : Type ℓ} where
  -- `d.get(k)`, and `k in d`
  unfoldable pub get : ℕ → Dict V → Option V
  get k [] = none
  get k ((j, v) ∷ d) = if j == k then some v else get k d

  -- `d.pop(k, None)`
  unfoldable pub pop : ℕ → Dict V → Dict V
  pop k [] = []
  pop k ((j, v) ∷ d) = let rest = pop k d in if j == k then rest else (j, v) ∷ rest

  -- `d[k] = v`
  unfoldable pub put : ℕ → V → Dict V → Dict V
  unfolding pop
  put k v d = (k, v) ∷ pop k d

  pub get-pop : (k j : ℕ) (d : Dict V) → get j (pop k d) ≡ (if k == j then none else get j d)
  unfolding get pop
  get-pop k j [] = ground arith
  get-pop k j ((i, v) ∷ d) = ground (arith, get-pop k j d)

  pub get-put :
      (k j : ℕ) (v : V) (d : Dict V) → get j (put k v d) ≡ (if k == j then some v else get j d)
  get-put k j v d = unfold get put in ground (arith, get-pop k j d)

module _ {ℓ κ} {V : Type ℓ} (P : ℕ → V → Type κ) where
  abbrev pub Entries : Dict V → Type κ
  Entries [] = Unit
  Entries ((k, v) ∷ d) = P k v × Entries d

  pub pop-Entries : (k : ℕ) (d : Dict V) → Entries d → Entries (pop k d)
  unfolding pop
  pop-Entries k [] h = tt
  pop-Entries k ((j, v) ∷ d) (h, hd) = ground (arith, pop-Entries k d hd)

  pub put-Entries : (k : ℕ) (v : V) (d : Dict V) → P k v → Entries d → Entries (put k v d)
  unfolding put
  put-Entries k v d h hd = (h, pop-Entries k d hd)
