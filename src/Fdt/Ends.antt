-- ===== src/Fdt/Ends.antt =====
-- The reads of lib/fdt.c come to an end: the rules for calls, and the reads themselves.
mod Rounds
pub mod Walks
use otos_coreinit.Base.{
  subst, ℕ, zero, suc, ◌+◌, ◌-◌, ◌<◌, ◌≡◌, refl, Bool, true, false, List, [], ◌∷◌, some, length,
  get_elem?, arith, lt_of_get_elem?, inl, inr, Option-cases, if◌then◌else◌, not, leb, ◌==◌, ◌||◌,
  replicate,
}
use otos_coreinit.Fdt.{
  Outcome, found, absent, wild, stuck, ◌>>=◌, Ctx, Token, begin_node, end_node, prop, nop, end,
  other, token_of, byte_at, rd_be32, ok, align4, ctx_init, outside, fdt_magic, name_from, node_name,
  skip_from, skip_node, after_name, str_at, str_eq, tried, fdt_max_depth,
}
use otos_coreinit.Fdt.Nodes.{
  child_from, fdt_first_child, parent_from, fdt_parent_offset, sibling_from, same_int,
  fdt_next_sibling,
}
use otos_coreinit.Fdt.Props.{prop_from, fdt_getprop}

-- The call comes to a result of the code, and a value that it finds has the property.
abbrev pub Ensures {ℓ} : {A : Type ℓ} → (A → Type 0) → Outcome A → Type 0
Ensures P (found a) = P a
Ensures P absent = Unit
Ensures P wild = Unit
Ensures P stuck = ⊥

abbrev pub Ends {ℓ} : {A : Type ℓ} → Outcome A → Type 0
Ends m = Ensures (λ a. Unit) m

pub found-Ensures {ℓ} :
    {A : Type ℓ} (P : A → Type 0) (m : Outcome A) (a : A) → Ensures P m → m ≡ found a → P a
found-Ensures P m a h e = subst (Ensures P) e h

pub bind-Ends {ℓ κ} :
    {A : Type ℓ} {B : Type κ} (P : B → Type 0) (Q : A → Type 0) (m : Outcome A) (f : A → Outcome B)
    → Ensures Q m
    → ((a : A) → m ≡ found a → Ensures P (f a))
    → Ensures P (m >>= f)
bind-Ends P Q (found a) f e k = k a refl
bind-Ends P Q absent f e k = tt
bind-Ends P Q wild f e k = tt
bind-Ends P Q stuck f e k = e

pub if-Ends {ℓ} :
    {A : Type ℓ} (P : A → Type 0) (t : Bool) (x y : Outcome A)
    → Ensures P x
    → Ensures P y
    → Ensures P (if t then x else y)
if-Ends P true x y a b = a
if-Ends P false x y a b = b

pub split-Ends {ℓ} :
    {A : Type ℓ} (P : A → Type 0) (t : Bool) (x y : Outcome A)
    → Ensures P x
    → Ensures P y
    → Ensures P (elim t as (λ (i : Bool). Outcome A) [ true ↦ x | false ↦ y ])
split-Ends P true x y a b = a
split-Ends P false x y a b = b

pub tried-Ends {ℓ} : {A : Type ℓ} (P : A → Type 0) (m : Outcome A) → Ensures P m → Ends (tried m)
tried-Ends P (found a) e = tt
tried-Ends P absent e = tt
tried-Ends P wild e = tt
tried-Ends P stuck e = e

pub byte_at-Ends : (b : List ℕ) (p : ℕ) → Ends (byte_at b p)
unfolding byte_at
byte_at-Ends b p = elim (Option-cases (get_elem? b p)) [
  | inl e ↦ rw (e, byte_at) tt
  | inr (v, e) ↦ rw (e, byte_at) tt
]

pub byte_at-inside : (b : List ℕ) (p v : ℕ) → byte_at b p ≡ found v → p < length b
unfolding byte_at
byte_at-inside b p v h = elim (Option-cases (get_elem? b p)) [
  | inl e ↦ ground (arith, h, e)
  | inr (w, e) ↦ lt_of_get_elem? b p w e
]

pub rd_be32-Ends : (b : List ℕ) (p : ℕ) → Ends (rd_be32 b p)
unfolding rd_be32
rd_be32-Ends b p = bind-Ends _ _ (byte_at b p) _ (byte_at-Ends b p) λ v e.
    bind-Ends _ _ (byte_at b (p + 1)) _ (byte_at-Ends b (p + 1)) λ v e.
      bind-Ends _ _ (byte_at b (p + 2)) _ (byte_at-Ends b (p + 2))
        λ v e. bind-Ends _ _ (byte_at b (p + 3)) _ (byte_at-Ends b (p + 3)) λ v e. tt

>>=-found {ℓ κ} :
    {A : Type ℓ} {B : Type κ} (m : Outcome A) (f : A → Outcome B) {r : B}
    → (m >>= f) ≡ found r
    → (a : A) × (m ≡ found a) × (f a ≡ found r)
>>=-found (found a) f h = (a, refl, h)
>>=-found absent f h = cc
>>=-found wild f h = cc
>>=-found stuck f h = cc

pub rd_be32-inside : (b : List ℕ) (p v : ℕ) → rd_be32 b p ≡ found v → p < length b
unfolding rd_be32
rd_be32-inside b p v h =
    let (first, e, rest) = >>=-found (byte_at b p) _ h in byte_at-inside b p first e

pub token-Ends {ℓ} :
    {A : Type ℓ} (P : A → Type 0) (t : Token) (x1 x2 x3 x4 x5 x6 : Outcome A)
    → Ensures P x1
    → Ensures P x2
    → Ensures P x3
    → Ensures P x4
    → Ensures P x5
    → Ensures P x6
    → Ensures P (elim t as (λ (i : Token). Outcome A) [
      | begin_node ↦ x1
      | end_node ↦ x2
      | prop ↦ x3
      | nop ↦ x4
      | end ↦ x5
      | other ↦ x6
    ])
token-Ends P begin_node x1 x2 x3 x4 x5 x6 e1 e2 e3 e4 e5 e6 = e1
token-Ends P end_node x1 x2 x3 x4 x5 x6 e1 e2 e3 e4 e5 e6 = e2
token-Ends P prop x1 x2 x3 x4 x5 x6 e1 e2 e3 e4 e5 e6 = e3
token-Ends P nop x1 x2 x3 x4 x5 x6 e1 e2 e3 e4 e5 e6 = e4
token-Ends P end x1 x2 x3 x4 x5 x6 e1 e2 e3 e4 e5 e6 = e5
token-Ends P other x1 x2 x3 x4 x5 x6 e1 e2 e3 e4 e5 e6 = e6

pub name_from-Ends :
    (b : List ℕ) (c : Ctx) (fuel p n : ℕ)
    → length b < p + n + fuel
    → 0 < fuel
    → Ends (name_from fuel b c p n)
unfolding name_from
name_from-Ends b c zero p n enough some_fuel = absurd (omega arith)
name_from-Ends b c (suc fuel) p n enough some_fuel = if-Ends _ (not (ok c (p + n) 1)) absent _ tt (
    bind-Ends _ _ (byte_at b (p + n)) _ (byte_at-Ends b (p + n)) λ v e.
      split-Ends _ (v == 0) _ _ tt (
        name_from-Ends b c fuel p (n + 1) (omega arith)
          (omega (arith, byte_at-inside b (p + n) v e))))

pub node_name-Ends : (b : List ℕ) (c : Ctx) (p : ℕ) → Ends (node_name b c p)
unfolding node_name
node_name-Ends b c p = name_from-Ends b c (length b + 2) p 0 (omega arith) (omega arith)
