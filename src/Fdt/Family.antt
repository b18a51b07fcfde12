-- ===== src/Fdt/Family.antt =====
-- lib/fdt.c at a structure block that says a tree: the parent of a node and its next sibling, at any
-- depth that the parent search keeps.
use otos_coreinit.Base.{
  ℕ, zero, suc, ◌+◌, ◌-◌, ◌≤◌, ◌<◌, ◌≡◌, refl, sym, ap, ◌∙◌, subst, List, length, arith, inl, inr,
  length-append, get_or, get_or-set_self, lt→ltb,
}
use otos_coreinit.Fdt.{found, Ctx, fdt_max_depth}
use otos_coreinit.Fdt.Nodes.{parent_from}
use otos_coreinit.Fdt.Layout.{
  Prop, children_of, Node, Nodes, node, nil, cons, emit, emit_nodes, At, At-left, At-right, IsNamed,
  AreNamed, length-emit, tokens, tokens_of,
}
use otos_coreinit.Fdt.Names.{Fits}
use otos_coreinit.Fdt.Trees.{word_ok, node_Opened}
use otos_coreinit.Fdt.Children.{IsChild, child-Stands}
use otos_coreinit.Fdt.Parents.{
  pushed, Keeps, Keeps-refl, Keeps-trans, Keeps-pushed, enters, pass_node, parent_found,
}

IsChild-after :
    (cs : Nodes) (p : ℕ) (u : Node) (r : ℕ) (rest : Nodes) → IsChild cs p u r rest → p ≤ r
IsChild-after nil p u r rest child = elim child [ ]
IsChild-after (cons t ts) p u r rest (inl (same, here, left)) = omega (arith, here)
IsChild-after (cons t ts) p u r rest (inr child) =
    omega (arith, IsChild-after ts (p + length (emit t)) u r rest child)

-- `u` at `r` lies `n` levels below the node at `p`.
abbrev pub Below : ℕ → Node → ℕ → Node → ℕ → Type 0
Below zero t p u r = (t ≡ u) × (p ≡ r)
Below (suc n) (node name ps cs) p u r =
    (v : Node) × (s : ℕ) × (rest : Nodes) × IsChild cs (children_of name ps p) v s rest
    × Below n v s u r

Below-after : (n : ℕ) (t : Node) (p : ℕ) (u : Node) (r : ℕ) → Below n t p u r → p ≤ r
Below-after zero t p u r (same, here) = omega (arith, here)
Below-after (suc n) (node name ps cs) p u r (v, s, rest, child, below) =
    omega
      (arith, IsChild-after cs (children_of name ps p) v s rest child, Below-after n v s u r below)

module _ (b : List ℕ) (c : Ctx) (fits : Fits b c) where
  -- The walk comes to the child `u` at `r` with the fuel for it.
  record Finds (x fuel p : ℕ) (u : Node) (r depth : ℕ) (s : List ℕ) : Type 0 where
    left : ℕ
    after : List ℕ
    keeps : Keeps depth s after
    comes : parent_from fuel b c x p depth s ≡ parent_from (tokens u + left) b c x r depth after

  to_child :
      (x : ℕ) (cs : Nodes) (fuel f p : ℕ) (u : Node) (r : ℕ) (rest : Nodes) (depth : ℕ) (s : List ℕ)
      → IsChild cs p u r rest
      → At b p (emit_nodes cs)
      → AreNamed cs
      → c.s ≤ p
      → p + length (emit_nodes cs) ≤ c.send
      → r ≤ x
      → fuel ≡ tokens_of cs + f
      → 0 < depth
      → Finds x fuel p u r depth s
  unfolding emit_nodes IsNamed tokens
  to_child x nil fuel f p u r rest depth s child at named low high before few deep = elim child [ ]
  to_child x (cons t ts) fuel f p u r rest depth s (inl (same, here, rests)) at named low high
        before few deep =
      let fuels : fuel ≡ tokens t + (tokens_of ts + f) = omega (arith, few) in
      record {
        left = tokens_of ts + f;
        after = s;
        keeps = Keeps-refl depth s;
        comes = rw fuels (rw same (rw here refl));
      }
  to_child x (cons t ts) fuel f p u r rest depth s (inr child) at named low high before few deep =
      let total = length-append (emit t) (emit_nodes ts) in
      let m = p + length (emit t) in
      let beyond = IsChild-after ts m u r rest child in
      let one =
        pass_node b c x fits t fuel (tokens_of ts + f) p m depth s
          (At-left b p (emit t) (emit_nodes ts) at) named.0 low refl (omega (arith, total))
          (omega (arith, beyond)) (omega (arith, few)) deep in
      let more =
        to_child x ts (tokens_of ts + f) f m u r rest depth one.after child
          (At-right b p m (emit t) (emit_nodes ts) refl at) named.1 (omega arith)
          (omega (arith, total)) before refl deep in
      record {
        left = more.left;
        after = more.after;
        keeps = Keeps-trans depth depth s one.after more.after (omega arith) one.keeps more.keeps;
        comes = one.comes ∙ more.comes;
      }

  pushed_there :
      (depth p : ℕ) (s : List ℕ)
      → length s ≡ fdt_max_depth
      → depth < fdt_max_depth
      → get_or (pushed depth p s) depth 0 ≡ p
  pushed_there depth p s size deep =
      rw (lt→ltb depth fdt_max_depth deep) (get_or-set_self s depth p 0 (omega (arith, size)))

  tokens_pos : (t : Node) → 0 < tokens t
  unfolding tokens
  tokens_pos (node name ps cs) = omega arith

  found-At :
      (x g depth : ℕ) (w : Node) (s : List ℕ)
      → At b x (emit w)
      → IsNamed w
      → c.s ≤ x
      → x + length (emit w) ≤ c.send
      → 0 < g
      → 0 < depth
      → depth ≤ fdt_max_depth
      → parent_from g b c x x depth s ≡ found (get_or (pushed depth x s) (depth - 1) 0)
  unfolding IsNamed
  found-At x zero depth w s at named low high some_fuel deep shallow = absurd (omega arith)
  found-At x (suc g) depth (node name ps cs) s at named low high some_fuel deep shallow =
      let o =
        node_Opened b c fits name ps cs x (x + length (emit (node name ps cs))) at named.0 low refl
          high in
      parent_found b c x g (length name) depth s
        (word_ok b c fits x 4 low (omega (arith, high, length-emit name ps cs))) o.first o.name_read
        deep shallow

  -- From the parent itself.
  from_parent :
      (name : List ℕ) (ps : List Prop) (cs : Nodes) (fuel f p q : ℕ) (w : Node) (x : ℕ)
      (rest : Nodes) (depth : ℕ) (s : List ℕ)
      → IsChild cs (children_of name ps p) w x rest
      → At b p (emit (node name ps cs))
      → IsNamed (node name ps cs)
      → c.s ≤ p
      → p + length (emit (node name ps cs)) ≡ q
      → q ≤ c.send
      → fuel ≡ tokens (node name ps cs) + f
      → depth < fdt_max_depth
      → length s ≡ fdt_max_depth
      → parent_from fuel b c x p depth s ≡ found p
  unfolding IsNamed tokens
  from_parent name ps cs zero f p q w x rest depth s child at named low e high few shallow size =
      absurd (omega (arith, few))
  from_parent name ps cs (suc fuel) f p q w x rest depth s child at named low e high few shallow
        size =
      let o = node_Opened b c fits name ps cs p q at named.0 low e high in
      let kids = children_of name ps p in
      let below = IsChild-after cs kids w x rest child in
      let v = child-Stands b cs kids w x rest child o.parts.nodes named.1 in
      let stack = pushed depth p s in
      let go =
        to_child x cs (tokens_of cs + suc f) (suc f) kids w x rest (depth + 1) stack child
          o.parts.nodes named.1 (omega arith) (omega (arith, o.after_nodes, o.after_last, high))
          (omega arith) refl (omega arith) in
      enters b c x fits name ps cs fuel (tokens_of cs + suc f) p q depth s o low high
        (omega (arith, below)) (omega (arith, few))
      ∙ go.comes
      ∙ found-At x (tokens w + go.left) (depth + 1) w go.after v.at v.named (omega (arith, below))
          (omega (arith, v.total, o.after_nodes, o.after_last, high)) (omega (arith, tokens_pos w))
          (omega arith) (omega arith)
      ∙ ap found (
          ap (λ (j : ℕ). get_or (pushed (depth + 1) x go.after) j 0) (omega arith)
          ∙ (Keeps-pushed (depth + 1) x go.after).below depth (omega arith)
          ∙ go.keeps.below depth (omega arith)
          ∙ pushed_there depth p s size shallow)

  -- Down from the node `t` at `p` to the parent `n` levels below it.
  pub descend :
      (n : ℕ) (t : Node) (p q : ℕ) (name : List ℕ) (ps : List Prop) (cs : Nodes) (r : ℕ) (w : Node)
      (x : ℕ) (rest : Nodes) (fuel f depth : ℕ) (s : List ℕ)
      → Below n t p (node name ps cs) r
      → IsChild cs (children_of name ps r) w x rest
      → At b p (emit t)
      → IsNamed t
      → c.s ≤ p
      → p + length (emit t) ≡ q
      → q ≤ c.send
      → fuel ≡ tokens t + f
      → depth + n < fdt_max_depth
      → length s ≡ fdt_max_depth
      → parent_from fuel b c x p depth s ≡ found r
  unfolding IsNamed tokens
  descend zero t p q name ps cs r w x rest fuel f depth s (same, here) child at named low e high few
        shallow size =
      from_parent name ps cs fuel f p q w x rest depth s
        (subst (λ (y : ℕ). IsChild cs (children_of name ps y) w x rest) (sym here) child)
        (subst (λ (y : Node). At b p (emit y)) same at) (subst IsNamed same named) low
        (subst (λ (y : Node). p + length (emit y) ≡ q) same e) high
        (subst (λ (y : Node). fuel ≡ tokens y + f) same few) (omega arith) size
      ∙ ap found here
  descend (suc n) (node tname tps tcs) p q name ps cs r w x rest zero f depth s
        (v, m, vrest, vchild, below) child at named low e high few shallow size =
      absurd (omega (arith, few))
  descend (suc n) (node tname tps tcs) p q name ps cs r w x rest (suc fuel) f depth s
        (v, m, vrest, vchild, below) child at named low e high few shallow size =
      let o = node_Opened b c fits tname tps tcs p q at named.0 low e high in
      let kids = children_of tname tps p in
      let down = IsChild-after tcs kids v m vrest vchild in
      let deeper = Below-after n v m (node name ps cs) r below in
      let past = IsChild-after cs (children_of name ps r) w x rest child in
      let st = child-Stands b tcs kids v m vrest vchild o.parts.nodes named.1 in
      let stack = pushed depth p s in
      let go =
        to_child x tcs (tokens_of tcs + suc f) (suc f) kids v m vrest (depth + 1) stack vchild
          o.parts.nodes named.1 (omega arith) (omega (arith, o.after_nodes, o.after_last, high))
          (omega (arith, deeper, past)) refl (omega arith) in
      enters b c x fits tname tps tcs fuel (tokens_of tcs + suc f) p q depth s o low high
        (omega (arith, down, deeper, past)) (omega (arith, few))
      ∙ go.comes
      ∙ descend n v m (m + length (emit v)) name ps cs r w x rest (tokens v + go.left) go.left
          (depth + 1) go.after below child st.at st.named (omega (arith, down)) refl
          (omega (arith, st.total, o.after_nodes, o.after_last, high)) refl (omega arith)
          (go.keeps.size ∙ (Keeps-pushed depth p s).size ∙ size)
