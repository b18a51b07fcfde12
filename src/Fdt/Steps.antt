-- ===== src/Fdt/Steps.antt =====
-- lib/fdt.c on a blob whose structure block says a tree: from a node to its first child, to its next
-- sibling and to its parent.
use otos_coreinit.Base.{
  ℕ, zero, suc, ◌+◌, ◌≤◌, ◌<◌, ◌≡◌, refl, List, some, length, arith, replicate, ==_refl, ◌-◌,
}
use otos_coreinit.Fdt.{found, Ctx, ctx_init, fdt_max_depth}
use otos_coreinit.Fdt.Nodes.{fdt_first_child, fdt_parent_offset, sibling_from, fdt_next_sibling}
use otos_coreinit.Fdt.Layout.{
  Prop, children_of, Node, Nodes, node, emit, At, IsNamed, tokens-le, tokens,
}
use otos_coreinit.Fdt.Names.{Fits}
use otos_coreinit.Fdt.Trees.{node_Opened, skip_node-emit}
use otos_coreinit.Fdt.Children.{
  IsChild, child-Stands, first_of, reach, sibling_at, sibling_none, fdt_first_child-emit,
}
use otos_coreinit.Fdt.Family.{Below, descend}

-- A blob of less than 2 GiB whose header is accepted and whose structure block starts with `root`.
pub record Says (b : List ℕ) (c : Ctx) (root : Node) : Type 0 where
  pub header : ctx_init b ≡ found c
  pub fits : Fits b c
  pub at : At b c.s (emit root)
  pub named : IsNamed root
  pub inside : c.s + length (emit root) ≤ c.send

-- A node below another stands inside of it.
record Lies (b : List ℕ) (t : Node) (p : ℕ) (u : Node) (r : ℕ) : Type 0 where
  at : At b r (emit u)
  named : IsNamed u
  from : p ≤ r
  to : r + length (emit u) ≤ p + length (emit t)

Below-Lies :
    (b : List ℕ) (c : Ctx)
    → Fits b c
    → (n : ℕ) (t : Node) (p : ℕ) (u : Node) (r : ℕ) → Below n t p u r
    → At b p (emit t)
    → IsNamed t
    → c.s ≤ p
    → p + length (emit t) ≤ c.send
    → Lies b t p u r
unfolding IsNamed
Below-Lies b c fits zero t p u r (same, here) at named low high =
    rw (← same)
      (rw (← here) (record { at = at; named = named; from = omega arith; to = omega arith }))
Below-Lies b c fits (suc n) (node name ps cs) p u r (v, m, rest, child, below) at named low high =
    let q = p + length (emit (node name ps cs)) in
    let o = node_Opened b c fits name ps cs p q at named.0 low refl high in
    let st = child-Stands b cs (children_of name ps p) v m rest child o.parts.nodes named.1 in
    let l =
      Below-Lies b c fits n v m u r below st.at st.named (omega (arith, st.after))
        (omega (arith, st.total, o.after_nodes, o.after_last, high)) in
    record {
      at = l.at;
      named = l.named;
      from = omega (arith, l.from, st.after);
      to = omega (arith, l.to, st.total, o.after_nodes, o.after_last);
    }

module _ (b : List ℕ) (c : Ctx) (root : Node) (says : Says b c root) where
  -- In a blob of less than 2 GiB whose accepted header says the tree `root`, fdt_parent_offset finds
  -- the parent of each node whose parent stands less than 16 levels below the root.
  pub fdt_parent_offset-emit :
      (n : ℕ) (name : List ℕ) (ps : List Prop) (cs : Nodes) (r : ℕ) (w : Node) (x : ℕ)
      (rest : Nodes)
      → n < fdt_max_depth
      → Below n root c.s (node name ps cs) r
      → IsChild cs (children_of name ps r) w x rest
      → fdt_parent_offset b x ≡ found r
  unfolding fdt_parent_offset
  fdt_parent_offset-emit n name ps cs r w x rest shallow below child =
      rw (says.header, fdt_parent_offset)
        (descend b c says.fits n root c.s (c.s + length (emit root)) name ps cs r w x rest
          (length b + 1) (length b + 1 - tokens root) 0 (replicate fdt_max_depth 0) below child
          says.at says.named (omega arith) refl says.inside
          (omega (arith, tokens-le root, says.inside, says.fits.inside)) (omega arith) refl)

  -- In a blob of less than 2 GiB whose accepted header says the tree `root`, fdt_next_sibling of a
  -- node and its parent gives the next node of the same parent, or none after the last, if the parent
  -- stands less than 16 levels below the root.
  pub fdt_next_sibling-emit :
      (n : ℕ) (name : List ℕ) (ps : List Prop) (cs : Nodes) (r : ℕ) (w : Node) (x : ℕ)
      (rest : Nodes)
      → n < fdt_max_depth
      → Below n root c.s (node name ps cs) r
      → IsChild cs (children_of name ps r) w x rest
      → fdt_next_sibling b (some r) x ≡ first_of rest (x + length (emit w))
  unfolding fdt_next_sibling IsNamed
  fdt_next_sibling-emit n name ps cs r w x rest shallow below child =
      let l =
        Below-Lies b c says.fits n root c.s (node name ps cs) r below says.at says.named
          (omega arith) says.inside in
      let q = r + length (emit (node name ps cs)) in
      let o =
        node_Opened b c says.fits name ps cs r q l.at l.named.0 l.from refl
          (omega (arith, l.to, says.inside)) in
      let st = child-Stands b cs (children_of name ps r) w x rest child o.parts.nodes l.named.1 in
      let inside : x + length (emit w) ≤ c.send =
        omega (arith, st.total, o.after_nodes, o.after_last, l.to, says.inside) in
      let fuel : length b + 1 ≡ suc (length b) = omega arith in
      rw (says.header, fdt_next_sibling)
        (rw (fdt_parent_offset-emit n name ps cs r w x rest shallow below child) (
          rw (==_refl r) (
            rw
              (skip_node-emit b c says.fits w x st.at st.named (omega (arith, l.from, st.after))
                inside)
              (rw fuel (
                reach b c says.fits (sibling_from (suc (length b)) b c)
                  (sibling_at b c says.fits (length b)) (sibling_none b c says.fits (length b)) rest
                  (x + length (emit w)) o.last st.followed (omega (arith, st.total, o.after_nodes))
                  o.final (omega (arith, l.from, st.after))
                  (omega (arith, o.after_last, l.to, says.inside)))))))

  -- In a blob of less than 2 GiB whose accepted header says the tree `root`, fdt_first_child of a node
  -- at any depth gives its first child, or none if it has no children, whatever properties it has.
  pub fdt_first_child-Below :
      (n : ℕ) (name : List ℕ) (ps : List Prop) (cs : Nodes) (r : ℕ)
      → Below n root c.s (node name ps cs) r
      → fdt_first_child b r ≡ first_of cs (children_of name ps r)
  fdt_first_child-Below n name ps cs r below =
      let l =
        Below-Lies b c says.fits n root c.s (node name ps cs) r below says.at says.named
          (omega arith) says.inside in
      fdt_first_child-emit b c says.fits name ps cs r says.header l.at l.named l.from
        (omega (arith, l.to, says.inside))
