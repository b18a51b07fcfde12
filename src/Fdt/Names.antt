-- ===== src/Fdt/Names.antt =====
-- lib/fdt.c: the reader of a node's name, at the bytes of a name.
use otos_coreinit.Base.{
  ℕ, zero, suc, ◌+◌, ◌^◌, ◌≤◌, ◌<◌, ◌≡◌, sym, ap, ◌∙◌, true, List, [], ◌∷◌, ◌++◌, length, arith,
}
use otos_coreinit.Fdt.{found, Ctx, byte_here, ok, name_from, node_name}
use otos_coreinit.Fdt.Layout.{IsName, At}

-- The structure block lies in the blob, and the blob is not too long.
pub record Fits (b : List ℕ) (c : Ctx) : Type 0 where
  pub inside : c.send ≤ length b
  pub small : length b < 2 ^ 31

pub ok-true : (c : Ctx) (p n : ℕ) → c.s ≤ p → p + n ≤ c.send → ok c p n ≡ true
unfolding ok
ok-true c p n low high = ground arith

pub step : (n m : ℕ) → found (n + 1 + m) ≡ found (n + suc m)
step n m = ap found (omega arith)

name_from-At :
    (b : List ℕ) (c : Ctx) (name rest : List ℕ) (fuel p q n : ℕ)
    → p + n ≡ q
    → At b q (name ++ 0 ∷ rest)
    → IsName name
    → c.s ≤ q
    → q + length name < c.send
    → length name < fuel
    → name_from fuel b c p n ≡ found (n + length name)
unfolding name_from
name_from-At b c name rest zero p q n e at named low high few = absurd (omega arith)
name_from-At b c [] rest (suc fuel) p q n e at named low high few =
    rw (ok-true c (p + n) 1 (omega (arith, e)) (omega (arith, e)))
      (rw (byte_here b q (p + n) 0 (sym e) at.0) (ap found (omega arith)))
name_from-At b c (x ∷ xs) rest (suc fuel) p q n e at named low high few =
    rw (ok-true c (p + n) 1 (omega (arith, e)) (omega (arith, e))) (
      rw (byte_here b q (p + n) x (sym e) at.0) (
        ground (
          arith,
          named.0,
          name_from-At b c xs rest fuel p (q + 1) (n + 1) (omega (arith, e)) at.1 named.1
                (omega arith) (omega arith) (omega arith)
              ∙ step n (length xs),
        )))

pub node_name-At :
    (b : List ℕ) (c : Ctx) (name rest : List ℕ) (p : ℕ)
    → Fits b c
    → At b p (name ++ 0 ∷ rest)
    → IsName name
    → c.s ≤ p
    → p + length name < c.send
    → node_name b c p ≡ found (length name)
unfolding node_name
node_name-At b c name rest p fits at named low high =
    name_from-At b c name rest (length b + 2) p p 0 (omega arith) at named low high
      (omega (arith, fits.inside))
    ∙ ap found (omega arith)
