-- ===== src/Fdt/Ends/Walks.antt =====
-- The calls of lib/fdt.c end on every blob, a hostile one included.
use otos_coreinit.Base.{◌≤◌, Option, ℕ, ◌+◌, ◌<◌, List, length, arith, not, ◌==◌, ◌||◌, replicate}
use otos_coreinit.Fdt.{
  found, absent, Ctx, rd_be32, ok, ctx_init, outside, fdt_magic, node_name, skip_node, after_name,
  tried, fdt_max_depth,
}
use otos_coreinit.Fdt.Nodes.{fdt_first_child, fdt_parent_offset, same_int, fdt_next_sibling}
use otos_coreinit.Fdt.Props.{fdt_getprop}
use otos_coreinit.Fdt.Ends.{
  Ensures, Ends, found-Ensures, bind-Ends, if-Ends, tried-Ends, rd_be32-Ends, node_name-Ends,
}
use otos_coreinit.Fdt.Ends.Rounds.{
  child_from-Ends, skip_from-Ends, parent_from-Ends, sibling_from-Ends, prop_from-Ends,
}

ctx_init-Ends : (b : List ℕ) → Ends (ctx_init b)
unfolding ctx_init
ctx_init-Ends b = bind-Ends _ _ (rd_be32 b 0) _ (rd_be32-Ends b 0) λ magic e0.
    if-Ends _ (not (magic == fdt_magic)) absent _ tt (
      bind-Ends _ _ (rd_be32 b 4) _ (rd_be32-Ends b 4) λ total e1.
        bind-Ends _ _ (rd_be32 b 8) _ (rd_be32-Ends b 8) λ s e2.
          bind-Ends _ _ (rd_be32 b 12) _ (rd_be32-Ends b 12) λ str e3.
            bind-Ends _ _ (rd_be32 b 32) _ (rd_be32-Ends b 32) λ size e4.
              bind-Ends _ _ (rd_be32 b 36) _ (rd_be32-Ends b 36) λ size2 e5.
                if-Ends _ (outside total s size2 || outside total str size) absent
                  (found (record { s = s; send = s + size2; str = str; strend = str + size })) tt
                  tt)

after_name-Ends : (b : List ℕ) (c : Ctx) (p : ℕ) → Ends (after_name b c p)
unfolding after_name
after_name-Ends b c p = if-Ends _ (not (ok c p 4)) absent _ tt (
    bind-Ends _ _ (rd_be32 b p) _ (rd_be32-Ends b p) λ t e.
      if-Ends _ (not (t == 1)) absent _ tt
        (bind-Ends _ _ (node_name b c (p + 4)) _ (node_name-Ends b c (p + 4)) λ n e2. tt))

-- A walk from anywhere with a round for each byte of the blob, and one more.
skip_node-Ends : (b : List ℕ) (c : Ctx) (p : ℕ) → Ensures (λ q. p < q) (skip_node b c p)
unfolding skip_node
skip_node-Ends b c p =
    skip_from-Ends b c p (length b + 1) p 0 (omega arith) (omega arith) (omega arith)

fdt_parent_offset-Ends : (b : List ℕ) (p : ℕ) → Ends (fdt_parent_offset b p)
unfolding fdt_parent_offset
fdt_parent_offset-Ends b p = bind-Ends _ _ (ctx_init b) _ (ctx_init-Ends b) λ c e.
    parent_from-Ends b c p (length b + 1) c.s 0 (replicate fdt_max_depth 0) (omega arith)
      (omega arith)

pub fdt_first_child-Ends : (b : List ℕ) (p : ℕ) → Ensures (λ r. r < length b) (fdt_first_child b p)
unfolding fdt_first_child
fdt_first_child-Ends b p = bind-Ends _ _ (ctx_init b) _ (ctx_init-Ends b) λ c e.
    bind-Ends _ _ (after_name b c p) _ (after_name-Ends b c p)
      λ q e2. child_from-Ends b c (length b + 1) q (omega arith) (omega arith)

pub fdt_next_sibling-Ends :
    (b : List ℕ) (parent : Option ℕ) (p : ℕ)
    → Ensures (λ r. (p + 1 ≤ r) × (r < length b)) (fdt_next_sibling b parent p)
unfolding fdt_next_sibling
fdt_next_sibling-Ends b parent p = bind-Ends _ _ (ctx_init b) _ (ctx_init-Ends b) λ c e.
    bind-Ends _ _ (tried (fdt_parent_offset b p)) _
      (tried-Ends _ (fdt_parent_offset b p) (fdt_parent_offset-Ends b p))
      λ above e2. if-Ends _ (not (same_int above parent)) absent _ tt (
        bind-Ends _ _ (skip_node b c p) _ (skip_node-Ends b c p) λ q e3.
          let further : p < q =
            found-Ensures (λ q. p < q) (skip_node b c p) q (skip_node-Ends b c p) e3 in
          sibling_from-Ends b c (p + 1) (length b + 1) q (omega arith) (omega arith)
            (omega (arith, further)))

-- On every sequence of bytes, a hostile one included, and from every offset, the walks of the reader
-- come to an end within a round for each byte: a child, a sibling, a parent or a property is found or
-- not, or a byte outside of the blob is read, but no walk goes on for ever. A child or a sibling that
-- is found lies in the blob, and a sibling behind the node, so that no loop over children stays.
pub walks-End :
    (b : List ℕ) (p : ℕ) (parent : Option ℕ) (name : List ℕ)
    → Ensures (λ r. r < length b) (fdt_first_child b p)
      × Ensures (λ r. (p + 1 ≤ r) × (r < length b)) (fdt_next_sibling b parent p)
      × Ends (fdt_parent_offset b p)
      × Ends (fdt_getprop b p name)
unfolding fdt_getprop
walks-End b p parent name = (
  fdt_first_child-Ends b p,
  fdt_next_sibling-Ends b parent p,
  fdt_parent_offset-Ends b p,
  bind-Ends _ _ (ctx_init b) _ (ctx_init-Ends b) λ c e.
      bind-Ends _ _ (after_name b c p) _ (after_name-Ends b c p)
        λ q e2. prop_from-Ends b c name (length b + 1) q (omega arith) (omega arith),
)
