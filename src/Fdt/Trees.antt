-- ===== src/Fdt/Trees.antt =====
-- lib/fdt.c at a structure block that says a tree: skip_node passes exactly one node.
use otos_coreinit.Base.{
  ℕ, zero, suc, ◌+◌, ◌-◌, ◌^◌, ◌≤◌, ◌<◌, ◌≡◌, refl, ap, ◌∙◌, true, List, [], ◌∷◌, length, arith,
  length-append,
}
use otos_coreinit.Fdt.{Outcome, found, Ctx, rd_be32, align4, ok, node_name, skip_from, skip_node}
use otos_coreinit.Fdt.Layout.{
  Prop, Node, Nodes, node, nil, cons, padding, inside_of, children_of, emit_prop, emit_props, emit,
  emit_nodes, emit_prop-At, IsName, IsNamed, AreNamed, tokens, tokens_of, tokens-le,
  length-emit_prop, length-value, length-emit_name, length-emit, length-name, Parts, emit-Parts, At,
  At-left, At-right, rd_be32-At,
}
use otos_coreinit.Fdt.Names.{Fits, ok-true, node_name-At}

module _ (b : List ℕ) (c : Ctx) where
  skip_begin :
      (f p n depth : ℕ)
      → ok c p 4 ≡ true
      → rd_be32 b p ≡ found 1
      → node_name b c (p + 4) ≡ found n
      → skip_from (suc f) b c p depth ≡ skip_from f b c (p + 4 + align4 (n + 1)) (depth + 1)
  unfolding skip_from
  skip_begin f p n depth o t name = rw o (rw t (rw name refl))

  skip_start :
      (f p n : ℕ)
      → ok c p 4 ≡ true
      → rd_be32 b p ≡ found 1
      → node_name b c (p + 4) ≡ found n
      → skip_from (f + 1) b c p 0 ≡ skip_from f b c (p + 4 + align4 (n + 1)) 1
  skip_start f p n o t name =
      let fuel : f + 1 ≡ suc f = omega arith in
      let one : 0 + 1 ≡ 1 = omega arith in
      rw fuel (skip_begin f p n 0 o t name ∙ ap (skip_from f b c (p + 4 + align4 (n + 1))) one)

  skip_end :
      (f p depth : ℕ)
      → ok c p 4 ≡ true
      → rd_be32 b p ≡ found 2
      → 1 < depth
      → skip_from (suc f) b c p depth ≡ skip_from f b c (p + 4) (depth - 1)
  unfolding skip_from
  skip_end f p depth o t deep = rw o (rw t (ground arith))

  skip_last :
      (f p : ℕ)
      → ok c p 4 ≡ true
      → rd_be32 b p ≡ found 2
      → skip_from (suc f) b c p 1 ≡ found (p + 4)
  unfolding skip_from
  skip_last f p o t = rw o (rw t refl)

  skip_prop :
      (f p len depth : ℕ)
      → ok c p 4 ≡ true
      → rd_be32 b p ≡ found 3
      → ok c (p + 4) 8 ≡ true
      → rd_be32 b (p + 4) ≡ found len
      → ok c (p + 12) len ≡ true
      → skip_from (suc f) b c p depth ≡ skip_from f b c (p + 12 + align4 len) depth
  unfolding skip_from
  skip_prop f p len depth o t o8 l ol = rw o (rw t (ground (arith, o8, l, ol)))

back :
    (b : List ℕ) (c : Ctx) (f p q depth : ℕ)
    → p + 4 ≡ q
    → skip_from f b c (p + 4) (depth + 1 - 1) ≡ skip_from f b c q depth
back b c f p q depth e = let same : depth + 1 - 1 ≡ depth = omega arith in rw same (rw e refl)

module _ (b : List ℕ) (c : Ctx) (fits : Fits b c) where
  pub word_ok : (p n : ℕ) → c.s ≤ p → p + n ≤ c.send → ok c p n ≡ true
  word_ok p n low high = ok-true c p n low high

  -- A walk that passes one property passes all the properties of a node.
  pub walk_props {ℓ} :
      {A : Type ℓ} (walk : ℕ → ℕ → Outcome A)
      → ((f p len : ℕ)
          → ok c p 4 ≡ true
          → rd_be32 b p ≡ found 3
          → ok c (p + 4) 8 ≡ true
          → rd_be32 b (p + 4) ≡ found len
          → ok c (p + 12) len ≡ true
          → walk (suc f) p ≡ walk f (p + 12 + align4 len))
      → (ps : List Prop) (fuel f p q : ℕ) → At b p (emit_props ps)
      → c.s ≤ p
      → p + length (emit_props ps) ≡ q
      → q ≤ c.send
      → fuel ≡ length ps + f
      → walk fuel p ≡ walk f q
  unfolding emit_props
  walk_props walk pass [] fuel f p q at low e high few =
      let same : p ≡ q = omega (arith, e) in
      let fuels : fuel ≡ f = omega (arith, few) in rw same (rw fuels refl)
  walk_props walk pass (x ∷ ps) zero f p q at low e high few = absurd (omega (arith, few))
  walk_props walk pass (x ∷ ps) (suc fuel) f p q at low e high few =
      let len = length x.value in
      let total = length-append (emit_prop x) (emit_props ps) in
      let short = length-value x in
      let size =
        length-emit_prop x (omega (arith, total, short, e, high, fits.inside, fits.small)) in
      let (three, length_read) =
        emit_prop-At b p x (At-left b p (emit_prop x) (emit_props ps) at) in
      pass fuel p len (word_ok p 4 low (omega (arith, total, short, e, high))) three
        (word_ok (p + 4) 8 (omega arith) (omega (arith, total, short, e, high))) length_read
        (word_ok (p + 12) len (omega arith) (omega (arith, total, short, e, high)))
      ∙ walk_props walk pass ps fuel f (p + 12 + align4 len) q
          (At-right b p (p + 12 + align4 len) (emit_prop x) (emit_props ps) (omega (arith, size))
            at)
          (omega arith) (omega (arith, total, size, e)) high (omega (arith, few))

  skip_props :
      (depth : ℕ) (ps : List Prop) (fuel f p q : ℕ)
      → At b p (emit_props ps)
      → c.s ≤ p
      → p + length (emit_props ps) ≡ q
      → q ≤ c.send
      → fuel ≡ length ps + f
      → skip_from fuel b c p depth ≡ skip_from f b c q depth
  skip_props depth =
      walk_props (λ fuel p. skip_from fuel b c p depth) (λ f p len. skip_prop b c f p len depth)

  pub record Opened (p q : ℕ) (name : List ℕ) (ps : List Prop) (cs : Nodes) : Type 0 where
    pub last : ℕ
    pub parts : Parts b p (inside_of name p) (children_of name ps p) last name ps cs
    pub after_nodes : children_of name ps p + length (emit_nodes cs) ≡ last
    pub after_last : last + 4 ≡ q
    pub first : rd_be32 b p ≡ found 1
    pub final : rd_be32 b last ≡ found 2
    pub name_read : node_name b c (p + 4) ≡ found (length name)

  pub node_Opened :
      (name : List ℕ) (ps : List Prop) (cs : Nodes) (p q : ℕ)
      → At b p (emit (node name ps cs))
      → IsName name
      → c.s ≤ p
      → p + length (emit (node name ps cs)) ≡ q
      → q ≤ c.send
      → Opened p q name ps cs
  node_Opened name ps cs p q at named low e high =
      let total = length-emit name ps cs in
      let short = length-name name in
      let small : length name + 1 < 2 ^ 31 =
        omega (arith, total, short, e, high, fits.inside, fits.small) in
      let size = length-emit_name name small in
      let last = children_of name ps p + length (emit_nodes cs) in
      let parts =
        emit-Parts b p (inside_of name p) (children_of name ps p) last name ps cs
          (omega (arith, size)) refl refl at in
      record {
        last = last;
        parts = parts;
        after_nodes = refl;
        after_last = omega (arith, e, total, size);
        first = rd_be32-At b p 1 parts.opening;
        final = rd_be32-At b last 2 parts.closing;
        name_read =
            node_name-At b c name (padding (length name + 1)) (p + 4) fits parts.named named
              (omega arith) (omega (arith, total, short, e, high));
      }

  mutual
    unfolding emit_nodes IsNamed tokens

    skip_inner :
        (t : Node) (fuel f p q depth : ℕ)
        → At b p (emit t)
        → IsNamed t
        → c.s ≤ p
        → p + length (emit t) ≡ q
        → q ≤ c.send
        → fuel ≡ tokens t + f
        → 0 < depth
        → skip_from fuel b c p depth ≡ skip_from f b c q depth
    skip_inner (node name ps cs) zero f p q depth at named low e high few deep =
        absurd (omega (arith, few))
    skip_inner (node name ps cs) (suc fuel) f p q depth at named low e high few deep =
        let o = node_Opened name ps cs p q at named.0 low e high in
        let total = length-emit name ps cs in
        skip_begin b c fuel p (length name) depth (word_ok p 4 low (omega (arith, total, e, high)))
          o.first o.name_read
        ∙ skip_props (depth + 1) ps fuel (tokens_of cs + suc f) (inside_of name p)
            (children_of name ps p) o.parts.props (omega arith) refl
            (omega (arith, o.after_nodes, o.after_last, high)) (omega (arith, few))
        ∙ skip_nodes cs (tokens_of cs + suc f) (suc f) (children_of name ps p) o.last (depth + 1)
            o.parts.nodes named.1 (omega arith) o.after_nodes (omega (arith, o.after_last, high))
            refl (omega arith)
        ∙ skip_end b c f o.last (depth + 1)
            (word_ok o.last 4 (omega (arith, o.after_nodes)) (omega (arith, o.after_last, high)))
            o.final (omega (arith, deep))
        ∙ back b c f o.last q depth o.after_last

    skip_nodes :
        (ts : Nodes) (fuel f p q depth : ℕ)
        → At b p (emit_nodes ts)
        → AreNamed ts
        → c.s ≤ p
        → p + length (emit_nodes ts) ≡ q
        → q ≤ c.send
        → fuel ≡ tokens_of ts + f
        → 0 < depth
        → skip_from fuel b c p depth ≡ skip_from f b c q depth
    skip_nodes nil fuel f p q depth at named low e high few deep =
        let same : p ≡ q = omega (arith, e) in
        let fuels : fuel ≡ f = omega (arith, few) in rw same (rw fuels refl)
    skip_nodes (cons t ts) fuel f p q depth at named low e high few deep =
        let total = length-append (emit t) (emit_nodes ts) in
        skip_inner t fuel (tokens_of ts + f) p (p + length (emit t)) depth
          (At-left b p (emit t) (emit_nodes ts) at) named.0 low refl (omega (arith, total, e, high))
          (omega (arith, few)) deep
        ∙ skip_nodes ts (tokens_of ts + f) f (p + length (emit t)) q depth
            (At-right b p (p + length (emit t)) (emit t) (emit_nodes ts) refl at) named.1
            (omega arith) (omega (arith, total, e)) high refl deep

  -- Where a structure block in a blob of less than 2 GiB says the tree `t` at `p`, skip_node at `p`
  -- gives the offset just past it, whatever bytes come after.
  pub skip_node-emit :
      (t : Node) (p : ℕ)
      → At b p (emit t)
      → IsNamed t
      → c.s ≤ p
      → p + length (emit t) ≤ c.send
      → skip_node b c p ≡ found (p + length (emit t))
  unfolding skip_node IsNamed tokens
  skip_node-emit (node name ps cs) p at named low high =
      let q = p + length (emit (node name ps cs)) in
      let o = node_Opened name ps cs p q at named.0 low refl high in
      let few = tokens-le (node name ps cs) in
      let total = length-emit name ps cs in
      let f = length b - (length ps + tokens_of cs + 1) in
      skip_start b c (length b) p (length name) (word_ok p 4 low (omega (arith, total, high)))
        o.first o.name_read
      ∙ skip_props 1 ps (length b) (tokens_of cs + suc f) (inside_of name p) (children_of name ps p)
          o.parts.props (omega arith) refl (omega (arith, o.after_nodes, o.after_last, high))
          (omega (arith, few, high, fits.inside))
      ∙ skip_nodes cs (tokens_of cs + suc f) (suc f) (children_of name ps p) o.last 1 o.parts.nodes
          named.1 (omega arith) o.after_nodes (omega (arith, o.after_last, high)) refl (omega arith)
      ∙ skip_last b c f o.last
          (word_ok o.last 4 (omega (arith, o.after_nodes)) (omega (arith, o.after_last, high)))
          o.final
      ∙ ap found o.after_last
