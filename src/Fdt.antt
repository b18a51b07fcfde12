-- ===== src/Fdt.antt =====
-- lib/fdt.c: the reader of a flattened device tree.
-- The blob is the list of the bytes that may be read, and a pointer is the number of a byte of it. A
-- blob has less than 2 GiB, so that an int holds the offset of each of its bytes.
pub mod Nodes
pub mod Props
pub mod Paths
pub mod Compatible
pub mod Ranges
pub mod Layout
pub mod Ends
mod Names
mod Trees
mod Children
mod Parents
mod Family
mod Steps
mod Examples
use otos_coreinit.Base.{
  ℕ, zero, suc, ◌+◌, ◌-◌, ◌*◌, ◌/◌, ◌%◌, ◌^◌, ◌≡◌, refl, Bool, true, false, List, [], ◌∷◌, Option,
  none, some, ltb, leb, ◌==◌, not, if◌then◌else◌, ◌&&◌, ◌||◌, length, get_elem?,
}

-- What a call comes to: a value, the code's own -1 or NULL, a read of a byte outside the blob, or
-- the end of the model's fuel.
pub data Outcome {ℓ} (A : Type ℓ) : Type ℓ where
  found : A → Outcome A
  absent wild stuck : Outcome A

infixl 5 ◌>>=◌
abbrev pub ◌>>=◌ {ℓ κ} : {A : Type ℓ} {B : Type κ} → Outcome A → (A → Outcome B) → Outcome B
found a >>= f = f a
absent >>= f = absent
wild >>= f = wild
stuck >>= f = stuck

-- A result that the caller looks at, `none` for -1 or NULL.
abbrev pub tried {ℓ} : {A : Type ℓ} → Outcome A → Outcome (Option A)
tried (found a) = found (some a)
tried absent = found none
tried wild = wild
tried stuck = stuck

abbrev pub fdt_magic : ℕ
fdt_magic = 0xd00dfeed

abbrev pub fdt_max_depth : ℕ
fdt_max_depth = 16

pub data Token : Type 0 where
  begin_node end_node prop nop end other : Token

abbrev pub token_of : ℕ → Token
token_of t =
    if t == 1
    then begin_node
    else if t == 2
    then end_node
    else if t == 3
    then prop
    else if t == 4
    then nop
    else if t == 9
    then end
    else other

-- The structure block [s, send) and the strings block [str, strend).
pub record Ctx : Type 0 where
  pub s : ℕ
  pub send : ℕ
  pub str : ℕ
  pub strend : ℕ

unfoldable pub byte_at : List ℕ → ℕ → Outcome ℕ
byte_at b p = elim (get_elem? b p) [ none ↦ wild | some v ↦ found v ]

pub byte_here : (b : List ℕ) (p q v : ℕ) → p ≡ q → get_elem? b p ≡ some v → byte_at b q ≡ found v
unfolding byte_at
byte_here b p q v e h = rw (← e) (rw (h, byte_at) refl)

unfoldable pub rd_be32 : List ℕ → ℕ → Outcome ℕ
rd_be32 b p = do
  b0 ← byte_at b p
  b1 ← byte_at b (p + 1)
  b2 ← byte_at b (p + 2)
  b3 ← byte_at b (p + 3)
  found (b0 * 2 ^ 24 + b1 * 2 ^ 16 + b2 * 2 ^ 8 + b3)

unfoldable pub rd_be64 : List ℕ → ℕ → Outcome ℕ
rd_be64 b p = do high ← rd_be32 b p; low ← rd_be32 b (p + 4); found (high * 2 ^ 32 + low)

unfoldable pub rd_cells : List ℕ → ℕ → ℕ → Outcome ℕ
rd_cells b p cells = if cells == 1 then rd_be32 b p else rd_be64 b p

unfoldable pub ok : Ctx → ℕ → ℕ → Bool
ok c p n = (leb c.s p && leb p c.send) && leb n (c.send - p)

-- A block of `size` bytes at `off` that does not lie in the blob.
abbrev pub outside : ℕ → ℕ → ℕ → Bool
outside totalsize off size = ltb totalsize off || ltb (totalsize - off) size

unfoldable pub ctx_init : List ℕ → Outcome Ctx
unfolding rd_be32
ctx_init b = do
  magic ← rd_be32 b 0
  if not (magic == fdt_magic) then absent else do
    totalsize ← rd_be32 b 4
    off_struct ← rd_be32 b 8
    off_strings ← rd_be32 b 12
    size_strings ← rd_be32 b 32
    size_struct ← rd_be32 b 36
    let c : Ctx = record {
      s = off_struct;
      send = off_struct + size_struct;
      str = off_strings;
      strend = off_strings + size_strings;
    }
    if outside totalsize off_struct size_struct || outside totalsize off_strings size_strings
        then absent
        else found c

unfoldable pub str_at : Ctx → ℕ → Outcome ℕ
str_at c off = if leb (c.strend - c.str) off then absent else found (c.str + off)

-- The string at `p` against a string of the caller's, which is given without its NUL.
unfoldable pub str_eq : List ℕ → ℕ → List ℕ → Outcome Bool
str_eq b p [] = do v ← byte_at b p; found (v == 0)
str_eq b p (x ∷ xs) = do
  v ← byte_at b p
  elim (v == x) [ true ↦ str_eq b (p + 1) xs | false ↦ found false ]

abbrev pub align4 : ℕ → ℕ
align4 v = ((v + 3) % 2 ^ 32 / 4) * 4

unfoldable pub name_from : ℕ → List ℕ → Ctx → ℕ → ℕ → Outcome ℕ
name_from zero b c p n = stuck
name_from (suc fuel) b c p n = if not (ok c (p + n) 1) then absent else do
  v ← byte_at b (p + n)
  elim (v == 0) [ true ↦ found n | false ↦ name_from fuel b c p (n + 1) ]

-- The length of the node name at `p`. It ends inside the blob, or the read after it is wild.
unfoldable pub node_name : List ℕ → Ctx → ℕ → Outcome ℕ
node_name b c p = name_from (length b + 2) b c p 0

-- `depth` counts the nodes that are open.
unfoldable pub skip_from : ℕ → List ℕ → Ctx → ℕ → ℕ → Outcome ℕ
skip_from zero b c p depth = stuck
skip_from (suc fuel) b c p depth = if not (ok c p 4) then absent else do
  token ← rd_be32 b p
  elim (token_of token) [
    | begin_node ↦ do
      namelen ← node_name b c (p + 4)
      skip_from fuel b c (p + 4 + align4 (namelen + 1)) (depth + 1)
    | end_node ↦ elim (leb depth 1) [
      | true ↦ found (p + 4)
      | false ↦ skip_from fuel b c (p + 4) (depth - 1)
    ]
    | prop ↦ elim (ok c (p + 4) 8) [
      | false ↦ absent
      | true ↦ do
        len ← rd_be32 b (p + 4)
        elim (ok c (p + 12) len) [
          | false ↦ absent
          | true ↦ skip_from fuel b c (p + 12 + align4 len) depth
        ]
    ]
    | nop ↦ skip_from fuel b c (p + 4) depth
    | end ↦ absent
    | other ↦ absent
  ]

unfoldable pub skip_node : List ℕ → Ctx → ℕ → Outcome ℕ
skip_node b c off = skip_from (length b + 1) b c off 0

unfoldable pub after_name : List ℕ → Ctx → ℕ → Outcome ℕ
after_name b c node_off = if not (ok c node_off 4) then absent else do
  token ← rd_be32 b node_off
  if not (token == 1)
      then absent
      else do namelen ← node_name b c (node_off + 4); found (node_off + 4 + align4 (namelen + 1))

unfoldable pub fdt_valid : List ℕ → ℕ → Outcome Ctx
fdt_valid b blob_size = if ltb blob_size 40 then absent else do
  magic ← rd_be32 b 0
  if not (magic == fdt_magic)
      then absent
      else do totalsize ← rd_be32 b 4; if ltb blob_size totalsize then absent else ctx_init b
