-- ===== src/Fdt/Children.antt =====
-- lib/fdt.c at a structure block that says a tree: the first child of a node, and the next one.
use otos_coreinit.Base.{
  ℕ, suc, ◌+◌, ◌-◌, ◌≤◌, ◌≡◌, ◌⊎◌, refl, ◌∙◌, true, List, ◌++◌, length, arith, inl, inr,
  length-append,
}
use otos_coreinit.Fdt.{Outcome, found, absent, Ctx, rd_be32, align4, ok, ctx_init, after_name}
use otos_coreinit.Fdt.Nodes.{child_from, fdt_first_child, sibling_from}
use otos_coreinit.Fdt.Layout.{
  Prop, inside_of, children_of, Node, Nodes, node, nil, cons, be32, emit, emit_props, emit_nodes,
  emit_name, At, At-left, At-right, rd_be32-At, IsNamed, AreNamed, length-emit, tokens-le, tokens,
}
use otos_coreinit.Fdt.Names.{Fits}
use otos_coreinit.Fdt.Trees.{walk_props, word_ok, Opened, node_Opened}

-- `u` is one of the nodes at `p`, at `r`, and `rest` follow it.
abbrev pub IsChild : Nodes → ℕ → Node → ℕ → Nodes → Type 0
IsChild nil p u r rest = ⊥
IsChild (cons t ts) p u r rest =
    ((t ≡ u) × (p ≡ r) × (ts ≡ rest)) ⊎ IsChild ts (p + length (emit t)) u r rest

-- The offset of the first of the nodes at `p`.
abbrev pub first_of : Nodes → ℕ → Outcome ℕ
first_of nil p = absent
first_of (cons t ts) p = found p

-- Where a child stands among the nodes at `p`.
pub record Stands (b : List ℕ) (cs : Nodes) (p : ℕ) (u : Node) (r : ℕ) (rest : Nodes) : Type 0 where
  pub after : p ≤ r
  pub at : At b r (emit u)
  pub named : IsNamed u
  pub followed : At b (r + length (emit u)) (emit_nodes rest)
  pub total : r + length (emit u) + length (emit_nodes rest) ≡ p + length (emit_nodes cs)

pub child-Stands :
    (b : List ℕ) (cs : Nodes) (p : ℕ) (u : Node) (r : ℕ) (rest : Nodes)
    → IsChild cs p u r rest
    → At b p (emit_nodes cs)
    → AreNamed cs
    → Stands b cs p u r rest
unfolding emit_nodes IsNamed
child-Stands b nil p u r rest child at named = elim child [ ]
child-Stands b (cons t ts) p u r rest (inl (same, here, left)) at named = rw (← same) (
    rw (← here) (
      rw (← left) (record {
        after = omega arith;
        at = At-left b p (emit t) (emit_nodes ts) at;
        named = named.0;
        followed = At-right b p (p + length (emit t)) (emit t) (emit_nodes ts) refl at;
        total = omega (arith, length-append (emit t) (emit_nodes ts));
      })))
child-Stands b (cons t ts) p u r rest (inr child) at named =
    let v =
      child-Stands b ts (p + length (emit t)) u r rest child
        (At-right b p (p + length (emit t)) (emit t) (emit_nodes ts) refl at) named.1 in
    record {
      after = omega (arith, v.after);
      at = v.at;
      named = v.named;
      followed = v.followed;
      total = omega (arith, v.total, length-append (emit t) (emit_nodes ts));
    }

module _ (b : List ℕ) (c : Ctx) (fits : Fits b c) where
  child_prop :
      (f p len : ℕ)
      → ok c p 4 ≡ true
      → rd_be32 b p ≡ found 3
      → ok c (p + 4) 8 ≡ true
      → rd_be32 b (p + 4) ≡ found len
      → ok c (p + 12) len ≡ true
      → child_from (suc f) b c p ≡ child_from f b c (p + 12 + align4 len)
  unfolding child_from
  child_prop f p len o t o8 l ol = rw o (rw t (ground (arith, l, ol)))

  child_at :
      (f p : ℕ) → ok c p 4 ≡ true → rd_be32 b p ≡ found 1 → child_from (suc f) b c p ≡ found p
  unfolding child_from
  child_at f p o t = rw o (rw t refl)

  child_none :
      (f p : ℕ) → ok c p 4 ≡ true → rd_be32 b p ≡ found 2 → child_from (suc f) b c p ≡ absent
  unfolding child_from
  child_none f p o t = rw o (rw t refl)

  pub sibling_at :
      (f p : ℕ) → ok c p 4 ≡ true → rd_be32 b p ≡ found 1 → sibling_from (suc f) b c p ≡ found p
  unfolding sibling_from
  sibling_at f p o t = rw o (rw t refl)

  pub sibling_none :
      (f p : ℕ) → ok c p 4 ≡ true → rd_be32 b p ≡ found 2 → sibling_from (suc f) b c p ≡ absent
  unfolding sibling_from
  sibling_none f p o t = rw o (rw t refl)

  -- A node at `p` begins there.
  emit-begins : (t : Node) (p : ℕ) → At b p (emit t) → rd_be32 b p ≡ found 1
  unfolding emit
  emit-begins (node name ps cs) p at =
      rd_be32-At b p 1
        (At-left b p (be32 1) (emit_name name ++ (emit_props ps ++ (emit_nodes cs ++ be32 2))) at)

  pub after_name-Opened :
      (p q : ℕ) (name : List ℕ) (ps : List Prop) (cs : Nodes)
      → Opened b c fits p q name ps cs
      → ok c p 4 ≡ true
      → after_name b c p ≡ found (inside_of name p)
  unfolding after_name
  after_name-Opened p q name ps cs o here = rw here (rw (o.first) (rw (o.name_read) refl))

  -- What a walk that stops at a node or at an END_NODE finds at the nodes `ts`.
  pub reach :
      (walk : ℕ → Outcome ℕ)
      → ((p : ℕ) → ok c p 4 ≡ true → rd_be32 b p ≡ found 1 → walk p ≡ found p)
      → ((p : ℕ) → ok c p 4 ≡ true → rd_be32 b p ≡ found 2 → walk p ≡ absent)
      → (ts : Nodes) (p last : ℕ) → At b p (emit_nodes ts)
      → p + length (emit_nodes ts) ≡ last
      → rd_be32 b last ≡ found 2
      → c.s ≤ p
      → last + 4 ≤ c.send
      → walk p ≡ first_of ts p
  unfolding emit_nodes
  reach walk here gone nil p last at e final low high =
      let same : last ≡ p = omega (arith, e) in
      gone p (word_ok b c fits p 4 low (omega (arith, e, high))) (rw same at final)
  reach walk here gone (cons t ts) p last at e final low high =
      here p (word_ok b c fits p 4 low (omega (arith, e, high)))
        (emit-begins t p (At-left b p (emit t) (emit_nodes ts) at))

  pub fdt_first_child-emit :
      (name : List ℕ) (ps : List Prop) (cs : Nodes) (p : ℕ)
      → ctx_init b ≡ found c
      → At b p (emit (node name ps cs))
      → IsNamed (node name ps cs)
      → c.s ≤ p
      → p + length (emit (node name ps cs)) ≤ c.send
      → fdt_first_child b p ≡ first_of cs (children_of name ps p)
  unfolding fdt_first_child IsNamed tokens
  fdt_first_child-emit name ps cs p init at named low high =
      let q = p + length (emit (node name ps cs)) in
      let o = node_Opened b c fits name ps cs p q at named.0 low refl high in
      let total = length-emit name ps cs in
      let few = tokens-le (node name ps cs) in
      let f = length b - length ps in
      let fuel : length b + 1 ≡ length ps + suc f = omega (arith, few, high, fits.inside) in
      let here = word_ok b c fits p 4 low (omega (arith, total, high)) in
      rw (init, fdt_first_child)
        (rw (after_name-Opened p q name ps cs o here) (
          walk_props b c fits (λ fuel p. child_from fuel b c p) child_prop ps (length b + 1) (suc f)
            (inside_of name p) (children_of name ps p) o.parts.props (omega arith) refl
            (omega (arith, o.after_nodes, o.after_last, high)) fuel
          ∙ reach (child_from (suc f) b c) (child_at f) (child_none f) cs (children_of name ps p)
              o.last o.parts.nodes o.after_nodes o.final (omega arith)
              (omega (arith, o.after_last, high))))
