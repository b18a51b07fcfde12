-- ===== src/Fdt/Layout.antt =====
-- The devices of a flattened tree as a tree, and the bytes of the structure block that say it.
use otos_coreinit.Base.{
  ℕ, ◌+◌, ◌-◌, ◌/◌, ◌%◌, ◌^◌, ◌≤◌, ◌<◌, ◌≡◌, ◌≢◌, refl, ap, subst, append_assoc, get_elem?-append,
  List, [], ◌∷◌, ◌++◌, some, length, All, get_elem?, replicate, arith, length-append,
  length-replicate,
}
use otos_coreinit.Fdt.{found, byte_here, rd_be32, align4}

pub record Prop : Type 0 where
  pub nameoff : ℕ
  pub value : List ℕ

mutual
  pub data Node : Type 0 where
    node : List ℕ → List Prop → Nodes → Node

  pub data Nodes : Type 0 where
    nil : Nodes
    cons : Node → Nodes → Nodes

abbrev pub be32 : ℕ → List ℕ
be32 w = w / 2 ^ 24 ∷ (w / 2 ^ 16) % 256 ∷ (w / 2 ^ 8) % 256 ∷ w % 256 ∷ []

-- The zero bytes after `n` bytes.
abbrev pub padding : ℕ → List ℕ
padding n = replicate (align4 n - n) 0

unfoldable pub emit_prop : Prop → List ℕ
emit_prop p =
    be32 3 ++ (be32 (length p.value) ++ (be32 p.nameoff ++ (p.value ++ padding (length p.value))))

unfoldable pub emit_props : List Prop → List ℕ
emit_props [] = []
emit_props (p ∷ ps) = emit_prop p ++ emit_props ps

abbrev pub emit_name : List ℕ → List ℕ
emit_name name = name ++ 0 ∷ padding (length name + 1)

unfoldable mutual
  pub emit : Node → List ℕ
  emit (node name ps cs) =
      be32 1 ++ (emit_name name ++ (emit_props ps ++ (emit_nodes cs ++ be32 2)))

  pub emit_nodes : Nodes → List ℕ
  emit_nodes nil = []
  emit_nodes (cons t ts) = emit t ++ emit_nodes ts

-- The bytes `xs` stand at `p`.
abbrev pub At : List ℕ → ℕ → List ℕ → Type 0
At b p [] = Unit
At b p (x ∷ xs) = (get_elem? b p ≡ some x) × At b (p + 1) xs

pub At-left : (b : List ℕ) (p : ℕ) (xs ys : List ℕ) → At b p (xs ++ ys) → At b p xs
At-left b p [] ys h = tt
At-left b p (x ∷ xs) ys h = (h.0, At-left b (p + 1) xs ys h.1)

pub At-right :
    (b : List ℕ) (p q : ℕ) (xs ys : List ℕ) → p + length xs ≡ q → At b p (xs ++ ys) → At b q ys
At-right b p q [] ys e h = let same : p ≡ q = omega (arith, e) in rw (← same) h
At-right b p q (x ∷ xs) ys e h = At-right b (p + 1) q xs ys (omega (arith, e)) h.1

pub rd_be32-At : (b : List ℕ) (p w : ℕ) → At b p (be32 w) → rd_be32 b p ≡ found w
unfolding rd_be32
rd_be32-At b p w h = rw (byte_here b p p _ refl h.0) (
    rw (byte_here b (p + 1) (p + 1) _ refl h.1.0) (
      rw (byte_here b (p + 1 + 1) (p + 2) _ (omega arith) h.1.1.0) (
        rw (byte_here b (p + 1 + 1 + 1) (p + 3) _ (omega arith) h.1.1.1.0)
          (ap found (omega arith)))))

pub length-padding : (n : ℕ) → n < 2 ^ 31 → n + length (padding n) ≡ align4 n
length-padding n small = omega (arith, length-replicate {A = ℕ} (align4 n - n) 0)

abbrev pub IsName : List ℕ → Type 0
IsName name = All (λ x. x ≢ 0) name

-- Names are C strings.
unfoldable mutual
  pub IsNamed : Node → Type 0
  IsNamed (node name ps cs) = IsName name × AreNamed cs

  pub AreNamed : Nodes → Type 0
  AreNamed nil = Unit
  AreNamed (cons t ts) = IsNamed t × AreNamed ts

-- How many tokens there are.
unfoldable mutual
  pub tokens : Node → ℕ
  tokens (node name ps cs) = length ps + tokens_of cs + 2

  pub tokens_of : Nodes → ℕ
  tokens_of nil = 0
  tokens_of (cons t ts) = tokens t + tokens_of ts

pub length-emit_prop :
    (p : Prop) → length p.value < 2 ^ 31 → length (emit_prop p) ≡ 12 + align4 (length p.value)
unfolding emit_prop
length-emit_prop p small =
    omega (
      arith,
      length-append p.value (padding (length p.value)),
      length-padding (length p.value) small,
    )

-- The first two words of a property.
pub emit_prop-At :
    (b : List ℕ) (p : ℕ) (x : Prop)
    → At b p (emit_prop x)
    → (rd_be32 b p ≡ found 3) × (rd_be32 b (p + 4) ≡ found (length x.value))
unfolding emit_prop
emit_prop-At b p x at =
    let rest = be32 x.nameoff ++ (x.value ++ padding (length x.value)) in
    let len = be32 (length x.value) in
    (
      rd_be32-At b p 3 (At-left b p (be32 3) (len ++ rest) at),
      rd_be32-At b (p + 4) (length x.value)
          (At-left b (p + 4) len rest (At-right b p (p + 4) (be32 3) (len ++ rest) refl at)),
    )

pub length-value : (p : Prop) → length p.value + 12 ≤ length (emit_prop p)
unfolding emit_prop
length-value p = omega (arith, length-append p.value (padding (length p.value)))

pub length-emit_name :
    (name : List ℕ) → length name + 1 < 2 ^ 31 → length (emit_name name) ≡ align4 (length name + 1)
length-emit_name name small =
    omega
      (arith, length-append name (0 ∷ padding (length name + 1)), length-padding (length name + 1))

-- The lengths of the four parts of a node.
pub length-emit :
    (name : List ℕ) (ps : List Prop) (cs : Nodes)
    → length (emit (node name ps cs))
      ≡ 8 + length (emit_name name) + length (emit_props ps) + length (emit_nodes cs)
unfolding emit
length-emit name ps cs = omega (
  arith,
  length-append (emit_name name) (emit_props ps ++ (emit_nodes cs ++ be32 2)),
  length-append (emit_props ps) (emit_nodes cs ++ be32 2),
  length-append (emit_nodes cs) (be32 2),
)

pub length-name : (name : List ℕ) → length name + 1 ≤ length (emit_name name)
length-name name = omega (arith, length-append name (0 ∷ padding (length name + 1)))

-- Past the name of a node at `p`, and past its properties.
abbrev pub inside_of : List ℕ → ℕ → ℕ
inside_of name p = p + 4 + align4 (length name + 1)

abbrev pub children_of : List ℕ → List Prop → ℕ → ℕ
children_of name ps p = inside_of name p + length (emit_props ps)

-- Where the parts of a node stand.
pub record Parts (b : List ℕ) (p1 p2 p3 p4 : ℕ) (name : List ℕ) (ps : List Prop) (cs : Nodes)
    : Type 0 where
  pub opening : At b p1 (be32 1)
  pub named : At b (p1 + 4) (emit_name name)
  pub props : At b p2 (emit_props ps)
  pub nodes : At b p3 (emit_nodes cs)
  pub closing : At b p4 (be32 2)

pub emit-Parts :
    (b : List ℕ) (p1 p2 p3 p4 : ℕ) (name : List ℕ) (ps : List Prop) (cs : Nodes)
    → p1 + 4 + length (emit_name name) ≡ p2
    → p2 + length (emit_props ps) ≡ p3
    → p3 + length (emit_nodes cs) ≡ p4
    → At b p1 (emit (node name ps cs))
    → Parts b p1 p2 p3 p4 name ps cs
unfolding emit
emit-Parts b p1 p2 p3 p4 name ps cs e2 e3 e4 at =
    let at1 =
      At-right b p1 (p1 + 4) (be32 1)
        (emit_name name ++ (emit_props ps ++ (emit_nodes cs ++ be32 2))) refl at in
    let at2 =
      At-right b (p1 + 4) p2 (emit_name name) (emit_props ps ++ (emit_nodes cs ++ be32 2)) e2 at1 in
    let at3 = At-right b p2 p3 (emit_props ps) (emit_nodes cs ++ be32 2) e3 at2 in
    record {
      opening =
          At-left b p1 (be32 1) (emit_name name ++ (emit_props ps ++ (emit_nodes cs ++ be32 2))) at;
      named = At-left b (p1 + 4) (emit_name name) (emit_props ps ++ (emit_nodes cs ++ be32 2)) at1;
      props = At-left b p2 (emit_props ps) (emit_nodes cs ++ be32 2) at2;
      nodes = At-left b p3 (emit_nodes cs) (be32 2) at3;
      closing = At-right b p3 p4 (emit_nodes cs) (be32 2) e4 at3;
    }

length-emit_props_le : (ps : List Prop) → length ps ≤ length (emit_props ps)
unfolding emit_props
length-emit_props_le [] = omega arith
length-emit_props_le (p ∷ ps) =
    omega
      (arith, length-append (emit_prop p) (emit_props ps), length-value p, length-emit_props_le ps)

mutual
  unfolding emit_nodes tokens

  pub tokens-le : (t : Node) → tokens t ≤ length (emit t)
  tokens-le (node name ps cs) =
      omega (arith, length-emit name ps cs, length-emit_props_le ps, tokens_of-le cs)

  pub tokens_of-le : (ts : Nodes) → tokens_of ts ≤ length (emit_nodes ts)
  tokens_of-le nil = omega arith
  tokens_of-le (cons t ts) =
      omega (arith, length-append (emit t) (emit_nodes ts), tokens-le t, tokens_of-le ts)

-- Bytes that stand after as many bytes as `p` says.
pub At-middle :
    (before xs after : List ℕ) (p : ℕ) → p ≡ length before → At (before ++ (xs ++ after)) p xs
At-middle before [] after p e = tt
At-middle before (x ∷ xs) after p e = (
  rw e (get_elem?-append before x (xs ++ after)),
  subst (λ b. At b (p + 1) xs) (append_assoc before (x ∷ []) (xs ++ after))
      (At-middle (before ++ x ∷ []) xs after (p + 1)
        (omega (arith, e, length-append before (x ∷ [])))),
)
