-- ===== src/Fdt/Ends/Rounds.antt =====
-- The loops of lib/fdt.c end on every blob, and where they stand then.
use otos_coreinit.Base.{
  ◌≤◌, ℕ, zero, suc, ◌+◌, ◌-◌, ◌<◌, List, [], ◌∷◌, length, arith, not, leb, ◌==◌, ◌||◌,
}
use otos_coreinit.Fdt.{
  absent, Ctx, token_of, byte_at, rd_be32, ok, align4, node_name, skip_from, str_at, str_eq,
  fdt_max_depth,
}
use otos_coreinit.Fdt.Nodes.{child_from, parent_from, sibling_from}
use otos_coreinit.Fdt.Props.{prop_from}
use otos_coreinit.Fdt.Ends.{
  Ensures, Ends, bind-Ends, if-Ends, split-Ends, token-Ends, byte_at-Ends, rd_be32-Ends,
  rd_be32-inside, node_name-Ends,
}

pub child_from-Ends :
    (b : List ℕ) (c : Ctx) (fuel p : ℕ)
    → length b < p + fuel
    → 0 < fuel
    → Ensures (λ r. r < length b) (child_from fuel b c p)
unfolding child_from
child_from-Ends b c zero p enough some_fuel = absurd (omega arith)
child_from-Ends b c (suc fuel) p enough some_fuel = if-Ends _ (not (ok c p 4)) absent _ tt (
    bind-Ends _ _ (rd_be32 b p) _ (rd_be32-Ends b p) λ t e.
      token-Ends _ (token_of t) _ _ _ _ _ _ (rd_be32-inside b p t e) tt
        (bind-Ends _ _ (rd_be32 b (p + 4)) _ (rd_be32-Ends b (p + 4)) λ len e2.
          split-Ends _ (ok c (p + 12) len) _ _
            (child_from-Ends b c fuel (p + 12 + align4 len) (omega arith)
              (omega (arith, rd_be32-inside b p t e)))
            tt)
        (child_from-Ends b c fuel (p + 4) (omega arith) (omega (arith, rd_be32-inside b p t e))) tt
        tt)

pub skip_from-Ends :
    (b : List ℕ) (c : Ctx) (low fuel p depth : ℕ)
    → length b < p + fuel
    → 0 < fuel
    → low ≤ p
    → Ensures (λ q. low < q) (skip_from fuel b c p depth)
unfolding skip_from
skip_from-Ends b c low zero p depth enough some_fuel from = absurd (omega arith)
skip_from-Ends b c low (suc fuel) p depth enough some_fuel from =
    if-Ends _ (not (ok c p 4)) absent _ tt (
      bind-Ends _ _ (rd_be32 b p) _ (rd_be32-Ends b p) λ t e.
        let more : 0 < fuel = omega (arith, rd_be32-inside b p t e) in
        token-Ends _ (token_of t) _ _ _ _ _ _
          (bind-Ends _ _ (node_name b c (p + 4)) _ (node_name-Ends b c (p + 4)) λ n e2.
            skip_from-Ends b c low fuel (p + 4 + align4 (n + 1)) (depth + 1) (omega arith) more
              (omega arith))
          (split-Ends _ (leb depth 1) _ _ (omega (arith, from))
            (skip_from-Ends b c low fuel (p + 4) (depth - 1) (omega arith) more (omega arith)))
          (split-Ends _ (ok c (p + 4) 8) _ _
            (bind-Ends _ _ (rd_be32 b (p + 4)) _ (rd_be32-Ends b (p + 4)) λ len e2.
              split-Ends _ (ok c (p + 12) len) _ _
                (skip_from-Ends b c low fuel (p + 12 + align4 len) depth (omega arith) more
                  (omega arith))
                tt)
            tt)
          (skip_from-Ends b c low fuel (p + 4) depth (omega arith) more (omega arith)) tt tt)

pub parent_from-Ends :
    (b : List ℕ) (c : Ctx) (node_offset fuel p depth : ℕ) (stack : List ℕ)
    → length b < p + fuel
    → 0 < fuel
    → Ends (parent_from fuel b c node_offset p depth stack)
unfolding parent_from
parent_from-Ends b c x zero p depth stack enough some_fuel = absurd (omega arith)
parent_from-Ends b c x (suc fuel) p depth stack enough some_fuel =
    if-Ends _ (not (ok c p 4)) absent _ tt (
      bind-Ends _ _ (rd_be32 b p) _ (rd_be32-Ends b p) λ t e.
        let more : 0 < fuel = omega (arith, rd_be32-inside b p t e) in
        token-Ends _ (token_of t) _ _ _ _ _ _
          (bind-Ends _ _ (node_name b c (p + 4)) _ (node_name-Ends b c (p + 4)) λ n e2.
            split-Ends _ (p == x) _ _
              (if-Ends _ (depth == 0 || leb (fdt_max_depth + 1) depth) absent _ tt tt)
              (parent_from-Ends b c x fuel (p + 4 + align4 (n + 1)) (depth + 1) _ (omega arith)
                more))
          (split-Ends _ (leb depth 1) _ _ tt
            (parent_from-Ends b c x fuel (p + 4) (depth - 1) stack (omega arith) more))
          (bind-Ends _ _ (rd_be32 b (p + 4)) _ (rd_be32-Ends b (p + 4)) λ len e2.
            split-Ends _ (ok c (p + 12) len) _ _
              (parent_from-Ends b c x fuel (p + 12 + align4 len) depth stack (omega arith) more) tt)
          (parent_from-Ends b c x fuel (p + 4) depth stack (omega arith) more) tt tt)

pub sibling_from-Ends :
    (b : List ℕ) (c : Ctx) (low fuel p : ℕ)
    → length b < p + fuel
    → 0 < fuel
    → low ≤ p
    → Ensures (λ r. (low ≤ r) × (r < length b)) (sibling_from fuel b c p)
unfolding sibling_from
sibling_from-Ends b c low zero p enough some_fuel from = absurd (omega arith)
sibling_from-Ends b c low (suc fuel) p enough some_fuel from =
    if-Ends _ (not (ok c p 4)) absent _ tt (
      bind-Ends _ _ (rd_be32 b p) _ (rd_be32-Ends b p) λ t e.
        token-Ends _ (token_of t) _ _ _ _ _ _ (from, rd_be32-inside b p t e) tt tt
          (sibling_from-Ends b c low fuel (p + 4) (omega arith)
            (omega (arith, rd_be32-inside b p t e)) (omega arith))
          tt tt)

pub str_eq-Ends : (b : List ℕ) (p : ℕ) (xs : List ℕ) → Ends (str_eq b p xs)
unfolding str_eq
str_eq-Ends b p [] = bind-Ends _ _ (byte_at b p) _ (byte_at-Ends b p) λ v e. tt
str_eq-Ends b p (x ∷ xs) =
    bind-Ends _ _ (byte_at b p) _ (byte_at-Ends b p)
      λ v e. split-Ends _ (v == x) _ _ (str_eq-Ends b (p + 1) xs) tt

pub str_at-Ends : (c : Ctx) (off : ℕ) → Ends (str_at c off)
unfolding str_at
str_at-Ends c off = if-Ends _ (leb (c.strend - c.str) off) absent _ tt tt

pub prop_from-Ends :
    (b : List ℕ) (c : Ctx) (name : List ℕ) (fuel p : ℕ)
    → length b < p + fuel
    → 0 < fuel
    → Ends (prop_from fuel b c name p)
unfolding prop_from
prop_from-Ends b c name zero p enough some_fuel = absurd (omega arith)
prop_from-Ends b c name (suc fuel) p enough some_fuel = if-Ends _ (not (ok c p 4)) absent _ tt (
    bind-Ends _ _ (rd_be32 b p) _ (rd_be32-Ends b p) λ t e.
      let more : 0 < fuel = omega (arith, rd_be32-inside b p t e) in
      token-Ends _ (token_of t) _ _ _ _ _ _ tt tt
        (split-Ends _ (ok c p 8) _ _
          (bind-Ends _ _ (rd_be32 b (p + 4)) _ (rd_be32-Ends b (p + 4)) λ len e2.
            bind-Ends _ _ (rd_be32 b (p + 8)) _ (rd_be32-Ends b (p + 8)) λ nameoff e3.
              split-Ends _ (ok c (p + 12) len) _ _
                (bind-Ends _ _ (str_at c nameoff) _ (str_at-Ends c nameoff) λ pn e4.
                  bind-Ends _ _ (str_eq b pn name) _ (str_eq-Ends b pn name) λ same e5.
                    split-Ends _ same _ _ tt
                      (prop_from-Ends b c name fuel (p + 12 + align4 len) (omega arith) more))
                tt)
          tt)
        (prop_from-Ends b c name fuel (p + 4) (omega arith) more) tt tt)
