-- ===== src/Fdt/Parents.antt =====
-- lib/fdt.c at a structure block that says a tree: fdt_parent_offset walks over the nodes before the
-- one that it looks for, and its stack keeps the nodes that are open.
use otos_coreinit.Base.{
  ℕ, zero, suc, ◌+◌, ◌-◌, ◌≤◌, ◌<◌, ◌≡◌, ◌≢◌, refl, ◌∙◌, true, List, length, arith, inl, inr,
  length-append, get_or, set, ltb, if◌then◌else◌, get_or-set_ne, length-set, Bool-cases,
}
use otos_coreinit.Fdt.{found, Ctx, rd_be32, align4, ok, node_name, fdt_max_depth}
use otos_coreinit.Fdt.Nodes.{parent_from}
use otos_coreinit.Fdt.Layout.{
  Prop, inside_of, children_of, Node, Nodes, node, nil, cons, emit, emit_nodes, At, At-left,
  At-right, IsNamed, AreNamed, tokens, tokens_of,
}
use otos_coreinit.Fdt.Names.{Fits}
use otos_coreinit.Fdt.Trees.{walk_props, word_ok, Opened, node_Opened}

abbrev pub pushed : ℕ → ℕ → List ℕ → List ℕ
pushed depth p stack = if ltb depth fdt_max_depth then set stack depth p else stack

-- What lies below `depth` in a stack is in the other stack too.
pub record Keeps (depth : ℕ) (s s' : List ℕ) : Type 0 where
  pub size : length s' ≡ length s
  pub below : (j : ℕ) → j < depth → get_or s' j 0 ≡ get_or s j 0

pub Keeps-refl : (depth : ℕ) (s : List ℕ) → Keeps depth s s
Keeps-refl depth s = record { size = refl; below = λ j h. refl }

pub Keeps-trans : (d e : ℕ) (s t u : List ℕ) → d ≤ e → Keeps d s t → Keeps e t u → Keeps d s u
Keeps-trans d e s t u le k l = record {
  size = l.size ∙ k.size;
  below = λ j h. l.below j (omega arith) ∙ k.below j h;
}

pub Keeps-pushed : (d p : ℕ) (s : List ℕ) → Keeps d s (pushed d p s)
Keeps-pushed d p s = elim (Bool-cases (ltb d fdt_max_depth)) [
  | inl e ↦
      rw e
        (record { size = length-set s d p; below = λ j h. get_or-set_ne s d j p 0 (omega arith) })
  | inr e ↦ rw e (Keeps-refl d s)
]

module _ (b : List ℕ) (c : Ctx) (x : ℕ) where
  parent_begin :
      (f p n depth : ℕ) (s : List ℕ)
      → ok c p 4 ≡ true
      → rd_be32 b p ≡ found 1
      → node_name b c (p + 4) ≡ found n
      → p ≢ x
      → parent_from (suc f) b c x p depth s
        ≡ parent_from f b c x (p + 4 + align4 (n + 1)) (depth + 1) (pushed depth p s)
  unfolding parent_from
  parent_begin f p n depth s o t name ne = rw o (rw t (rw name (ground (arith, ne))))

  pub parent_found :
      (f n depth : ℕ) (s : List ℕ)
      → ok c x 4 ≡ true
      → rd_be32 b x ≡ found 1
      → node_name b c (x + 4) ≡ found n
      → 0 < depth
      → depth ≤ fdt_max_depth
      → parent_from (suc f) b c x x depth s ≡ found (get_or (pushed depth x s) (depth - 1) 0)
  unfolding parent_from
  parent_found f n depth s o t name low high = rw o (rw t (rw name (ground arith)))

  parent_end :
      (f p depth : ℕ) (s : List ℕ)
      → ok c p 4 ≡ true
      → rd_be32 b p ≡ found 2
      → 1 < depth
      → parent_from (suc f) b c x p depth s ≡ parent_from f b c x (p + 4) (depth - 1) s
  unfolding parent_from
  parent_end f p depth s o t deep = rw o (rw t (ground arith))

  parent_prop :
      (depth : ℕ) (s : List ℕ) (f p len : ℕ)
      → ok c p 4 ≡ true
      → rd_be32 b p ≡ found 3
      → ok c (p + 4) 8 ≡ true
      → rd_be32 b (p + 4) ≡ found len
      → ok c (p + 12) len ≡ true
      → parent_from (suc f) b c x p depth s ≡ parent_from f b c x (p + 12 + align4 len) depth s
  unfolding parent_from
  parent_prop depth s f p len o t o8 l ol = rw o (rw t (ground (arith, l, ol)))

  -- The walk at `p` comes to `q` with the same depth, and all below it in the stack as it was.
  pub record Passes (fuel f p q depth : ℕ) (s : List ℕ) : Type 0 where
    pub after : List ℕ
    pub keeps : Keeps depth s after
    pub comes : parent_from fuel b c x p depth s ≡ parent_from f b c x q depth after

  back :
      (f p q depth : ℕ) (s : List ℕ)
      → p + 4 ≡ q
      → parent_from f b c x (p + 4) (depth + 1 - 1) s ≡ parent_from f b c x q depth s
  back f p q depth s e = let same : depth + 1 - 1 ≡ depth = omega arith in rw same (rw e refl)

  module _ (fits : Fits b c) where
    -- Into a node that is not the one that is looked for, up to its children.
    pub enters :
        (name : List ℕ) (ps : List Prop) (cs : Nodes) (fuel f p q depth : ℕ) (s : List ℕ)
        → Opened b c fits p q name ps cs
        → c.s ≤ p
        → q ≤ c.send
        → p ≢ x
        → fuel ≡ length ps + f
        → parent_from (suc fuel) b c x p depth s
          ≡ parent_from f b c x (children_of name ps p) (depth + 1) (pushed depth p s)
    enters name ps cs fuel f p q depth s o low high ne few =
        parent_begin fuel p (length name) depth s
          (word_ok b c fits p 4 low (omega (arith, o.after_nodes, o.after_last, high))) o.first
          o.name_read ne
        ∙ walk_props b c fits (λ fu r. parent_from fu b c x r (depth + 1) (pushed depth p s))
            (parent_prop (depth + 1) (pushed depth p s)) ps fuel f (inside_of name p)
            (children_of name ps p) o.parts.props (omega arith) refl
            (omega (arith, o.after_nodes, o.after_last, high)) few

    mutual
      unfolding emit_nodes IsNamed tokens

      pub pass_node :
          (t : Node) (fuel f p q depth : ℕ) (s : List ℕ)
          → At b p (emit t)
          → IsNamed t
          → c.s ≤ p
          → p + length (emit t) ≡ q
          → q ≤ c.send
          → q ≤ x
          → fuel ≡ tokens t + f
          → 0 < depth
          → Passes fuel f p q depth s
      pass_node (node name ps cs) zero f p q depth s at named low e high before few deep =
          absurd (omega (arith, few))
      pass_node (node name ps cs) (suc fuel) f p q depth s at named low e high before few deep =
          let o = node_Opened b c fits name ps cs p q at named.0 low e high in
          let kids =
            pass_nodes cs (tokens_of cs + suc f) (suc f) (children_of name ps p) o.last (depth + 1)
              (pushed depth p s) o.parts.nodes named.1 (omega arith) o.after_nodes
              (omega (arith, o.after_last)) (omega (arith, o.after_last)) refl (omega arith) in
          record {
            after = kids.after;
            keeps =
                Keeps-trans depth (depth + 1) s (pushed depth p s) kids.after (omega arith)
                  (Keeps-pushed depth p s) kids.keeps;
            comes =
                enters name ps cs fuel (tokens_of cs + suc f) p q depth s o low high
                  (omega (arith, o.after_nodes, o.after_last)) (omega (arith, few))
                ∙ kids.comes
                ∙ parent_end f o.last (depth + 1) kids.after
                    (word_ok b c fits o.last 4 (omega (arith, o.after_nodes))
                      (omega (arith, o.after_last)))
                    o.final (omega arith)
                ∙ back f o.last q depth kids.after o.after_last;
          }

      pub pass_nodes :
          (ts : Nodes) (fuel f p q depth : ℕ) (s : List ℕ)
          → At b p (emit_nodes ts)
          → AreNamed ts
          → c.s ≤ p
          → p + length (emit_nodes ts) ≡ q
          → q ≤ c.send
          → q ≤ x
          → fuel ≡ tokens_of ts + f
          → 0 < depth
          → Passes fuel f p q depth s
      pass_nodes nil fuel f p q depth s at named low e high before few deep =
          let same : p ≡ q = omega (arith, e) in
          let fuels : fuel ≡ f = omega (arith, few) in
          record { after = s; keeps = Keeps-refl depth s; comes = rw same (rw fuels refl) }
      pass_nodes (cons t ts) fuel f p q depth s at named low e high before few deep =
          let total = length-append (emit t) (emit_nodes ts) in
          let m = p + length (emit t) in
          let one =
            pass_node t fuel (tokens_of ts + f) p m depth s
              (At-left b p (emit t) (emit_nodes ts) at) named.0 low refl (omega (arith, total, e))
              (omega (arith, total, e)) (omega (arith, few)) deep in
          let more =
            pass_nodes ts (tokens_of ts + f) f m q depth one.after
              (At-right b p m (emit t) (emit_nodes ts) refl at) named.1 (omega arith)
              (omega (arith, total, e)) high before refl deep in
          record {
            after = more.after;
            keeps =
                Keeps-trans depth depth s one.after more.after (omega arith) one.keeps more.keeps;
            comes = one.comes ∙ more.comes;
          }
